-- ===== src/Annotations/ProxySsl.antt =====
-- internal/ingress/annotations/proxyssl/main.go: the parsed annotation, and its `Equal`.
use panda_k8s.Equality.{IsEquiv, on, ◌&◌, ==-IsEquiv, int_eq-IsEquiv}
use panda_k8s.Prelude.{String, Bool, ◌==◌, ℤ, int_eq, ◌&&◌}
use panda_k8s.Annotations.AuthSslCert
use panda_k8s.Annotations.AuthSslCert.{AuthSslCert}

pub record Config : Type 0 where
  pub auth_ssl_cert : AuthSslCert
  pub ciphers : String
  pub protocols : String
  pub proxy_ssl_name : String
  pub verify : String
  pub verify_depth : ℤ
  pub proxy_ssl_server_name : String

-- `Equal`, on two objects
unfoldable pub equal : Config → Config → Bool
equal a b =
    AuthSslCert.equal a.auth_ssl_cert b.auth_ssl_cert
    && a.ciphers == b.ciphers
    && a.protocols == b.protocols
    && a.verify == b.verify
    && int_eq a.verify_depth b.verify_depth
    && a.proxy_ssl_server_name == b.proxy_ssl_server_name

pub equal-IsEquiv : IsEquiv equal
unfolding equal
equal-IsEquiv =
    on (λ a. a.auth_ssl_cert) AuthSslCert.equal-IsEquiv
    & on (λ a. a.ciphers) ==-IsEquiv
    & on (λ a. a.protocols) ==-IsEquiv
    & on (λ a. a.verify) ==-IsEquiv
    & on (λ a. a.verify_depth) int_eq-IsEquiv
    & on (λ a. a.proxy_ssl_server_name) ==-IsEquiv
