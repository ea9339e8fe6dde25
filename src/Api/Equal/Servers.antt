-- ===== src/Api/Equal/Servers.antt =====
-- pkg/apis/ingress/types_equals.go: `Equal` of certificates, servers and passthrough
-- backends. `IntOrString.String` of apimachinery is a parameter.
use panda_k8s.Api.Equal.Backends
use panda_k8s.Api.Heap.{Heap}
use panda_k8s.Api.Servers.{SslCert, Server, SslPassthroughBackend}
use panda_k8s.Equality.{
  IsEquiv, Laws, on, on_if, ◌&◌, ==-IsEquiv, beq-IsEquiv, same_order, same_order-IsEquiv,
  same_elements, same_elements-Laws, distinct, All-Any,
}
use panda_k8s.Kube.{
  Service, IntOrString, int_or_string_eq, int_or_string_eq-IsEquiv, time_equal, time_equal-IsEquiv,
}
use panda_k8s.Pointers.{Ptr, pointees_equal, pointees_equal-IsEquiv, pointees_equal-Laws, Pointee}
use panda_k8s.Prelude.{String, Bool, true, ◌≡◌, ◌&&◌, ◌==◌, beq}
use panda_k8s.Sets.{string_elements_match}
use panda_k8s.Sets.Multisets.{string_elements_match-IsEquiv}
use panda_k8s.Sets.Slices.{elems}
use panda_k8s.Annotations.AuthTls
use panda_k8s.Annotations.ProxySsl
use panda_k8s.Api.Equal.Locations.{location_equal, location_equal-IsEquiv}

-- `SSLCert.Equal`, on two objects
unfoldable pub same_ssl_cert : SslCert → SslCert → Bool
same_ssl_cert a b =
    a.ca_sha == b.ca_sha
    && a.crl_sha == b.crl_sha
    && a.pem_sha == b.pem_sha
    && a.ca_file_name == b.ca_file_name
    && a.crl_file_name == b.crl_file_name
    && time_equal a.expire_time b.expire_time
    && a.pem_cert_key == b.pem_cert_key
    && a.uid == b.uid
    && string_elements_match a.cn b.cn

pub same_ssl_cert-IsEquiv : IsEquiv same_ssl_cert
unfolding same_ssl_cert
same_ssl_cert-IsEquiv =
    on (λ a. a.ca_sha) ==-IsEquiv
    & on (λ a. a.crl_sha) ==-IsEquiv
    & on (λ a. a.pem_sha) ==-IsEquiv
    & on (λ a. a.ca_file_name) ==-IsEquiv
    & on (λ a. a.crl_file_name) ==-IsEquiv
    & on (λ a. a.expire_time) time_equal-IsEquiv
    & on (λ a. a.pem_cert_key) ==-IsEquiv
    & on (λ a. a.uid) ==-IsEquiv
    & on (λ a. a.cn) string_elements_match-IsEquiv

-- no alias is given twice
abbrev pub DistinctAliases : Server → Type 0
DistinctAliases s = distinct ◌==◌ (elems s.aliases) ≡ true

module _ (heap : Heap) where
  abbrev service_equal : Ptr Service → Ptr Service → Bool
  service_equal = Backends.service_equal heap

  service_equal-IsEquiv : IsEquiv service_equal
  service_equal-IsEquiv = Backends.service_equal-IsEquiv heap

  -- `SSLCert.Equal`
  unfoldable pub ssl_cert_equal : Ptr SslCert → Ptr SslCert → Bool
  ssl_cert_equal = pointees_equal heap.ssl_cert same_ssl_cert

  pub ssl_cert_equal-IsEquiv : IsEquiv ssl_cert_equal
  unfolding ssl_cert_equal
  ssl_cert_equal-IsEquiv = pointees_equal-IsEquiv heap.ssl_cert same_ssl_cert-IsEquiv

  -- `SSLPassthroughBackend.Equal`, on two objects
  unfoldable pub same_passthrough : SslPassthroughBackend → SslPassthroughBackend → Bool
  same_passthrough a b =
      a.backend == b.backend
      && a.hostname == b.hostname
      && int_or_string_eq a.port b.port
      && service_equal a.service b.service

  pub same_passthrough-IsEquiv : IsEquiv same_passthrough
  unfolding same_passthrough
  same_passthrough-IsEquiv =
      on (λ a. a.backend) ==-IsEquiv
      & on (λ a. a.hostname) ==-IsEquiv
      & on (λ a. a.port) int_or_string_eq-IsEquiv
      & on (λ a. a.service) service_equal-IsEquiv

  -- `SSLPassthroughBackend.Equal`
  unfoldable pub passthrough_equal : Ptr SslPassthroughBackend → Ptr SslPassthroughBackend → Bool
  passthrough_equal = pointees_equal heap.passthrough same_passthrough

  pub passthrough_equal-IsEquiv : IsEquiv passthrough_equal
  unfolding passthrough_equal
  passthrough_equal-IsEquiv = pointees_equal-IsEquiv heap.passthrough same_passthrough-IsEquiv

  module _ (port_string : IntOrString → String) where
    -- `Server.Equal`, on two objects
    unfoldable pub same_server : Server → Server → Bool
    same_server a b =
        a.hostname == b.hostname
        && beq a.ssl_passthrough b.ssl_passthrough
        && ssl_cert_equal a.ssl_cert b.ssl_cert
        && same_elements ◌==◌ (elems a.aliases) (elems b.aliases)
        && beq a.redirect_from_to_www b.redirect_from_to_www
        && AuthTls.equal a.certificate_auth b.certificate_auth
        && a.server_snippet == b.server_snippet
        && a.ssl_ciphers == b.ssl_ciphers
        && a.ssl_prefer_server_ciphers == b.ssl_prefer_server_ciphers
        && a.auth_tls_error == b.auth_tls_error
        && ProxySsl.equal a.proxy_ssl b.proxy_ssl
        && same_order (location_equal heap port_string) (elems a.locations) (elems b.locations)

    pub same_server-Laws : Laws DistinctAliases same_server
    unfolding same_server
    same_server-Laws =
        on (λ a. a.hostname) ==-IsEquiv
        & on (λ a. a.ssl_passthrough) beq-IsEquiv
        & on (λ a. a.ssl_cert) ssl_cert_equal-IsEquiv
        & on_if (λ a. elems a.aliases) (λ a d. (All-Any (elems a.aliases), d))
            (same_elements-Laws ==-IsEquiv)
        & on (λ a. a.redirect_from_to_www) beq-IsEquiv
        & on (λ a. a.certificate_auth) AuthTls.equal-IsEquiv
        & on (λ a. a.server_snippet) ==-IsEquiv
        & on (λ a. a.ssl_ciphers) ==-IsEquiv
        & on (λ a. a.ssl_prefer_server_ciphers) ==-IsEquiv
        & on (λ a. a.auth_tls_error) ==-IsEquiv
        & on (λ a. a.proxy_ssl) ProxySsl.equal-IsEquiv
        & on (λ a. elems a.locations) (same_order-IsEquiv (location_equal-IsEquiv heap port_string))

    -- `Server.Equal`
    unfoldable pub server_equal : Ptr Server → Ptr Server → Bool
    server_equal = pointees_equal heap.server same_server

    pub server_equal-Laws : Laws (Pointee heap.server DistinctAliases) server_equal
    unfolding server_equal
    server_equal-Laws = pointees_equal-Laws heap.server same_server-Laws
