-- ===== src/Annotations/AuthSslCert.antt =====
-- internal/ingress/resolver/main.go: the certificates that the auth-tls and proxy-ssl annotations name.
use panda_k8s.Equality.{IsEquiv, on, ◌&◌, ==-IsEquiv}
use panda_k8s.Prelude.{String, Bool, ◌==◌, ◌&&◌}

pub record AuthSslCert : Type 0 where
  pub secret : String
  pub ca_file_name : String
  pub ca_sha : String
  pub crl_file_name : String
  pub crl_sha : String
  pub pem_file_name : String

-- `Equal`, on two objects
unfoldable pub equal : AuthSslCert → AuthSslCert → Bool
equal a b =
    a.secret == b.secret
    && a.ca_file_name == b.ca_file_name
    && a.ca_sha == b.ca_sha
    && a.crl_file_name == b.crl_file_name
    && a.crl_sha == b.crl_sha

pub equal-IsEquiv : IsEquiv equal
unfolding equal
equal-IsEquiv =
    on (λ a. a.secret) ==-IsEquiv
    & on (λ a. a.ca_file_name) ==-IsEquiv
    & on (λ a. a.ca_sha) ==-IsEquiv
    & on (λ a. a.crl_file_name) ==-IsEquiv
    & on (λ a. a.crl_sha) ==-IsEquiv
