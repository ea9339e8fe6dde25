-- ===== src/Annotations/AuthTls.antt =====
-- internal/ingress/annotations/authtls/main.go: the parsed annotation, and its `Equal`.
use panda_k8s.Equality.{IsEquiv, on, ◌&◌, ==-IsEquiv, beq-IsEquiv, int_eq-IsEquiv}
use panda_k8s.Prelude.{String, Bool, ◌==◌, beq, ℤ, int_eq, ◌&&◌}
use panda_k8s.Annotations.AuthSslCert
use panda_k8s.Annotations.AuthSslCert.{AuthSslCert}

pub record Config : Type 0 where
  pub auth_ssl_cert : AuthSslCert
  pub verify_client : String
  pub validation_depth : ℤ
  pub error_page : String
  pub pass_cert_to_upstream : Bool
  pub match_cn : String
  pub auth_tls_error : String

-- `Equal`, on two objects
unfoldable pub equal : Config → Config → Bool
equal a b =
    AuthSslCert.equal a.auth_ssl_cert b.auth_ssl_cert
    && a.verify_client == b.verify_client
    && int_eq a.validation_depth b.validation_depth
    && a.error_page == b.error_page
    && beq a.pass_cert_to_upstream b.pass_cert_to_upstream

pub equal-IsEquiv : IsEquiv equal
unfolding equal
equal-IsEquiv =
    on (λ a. a.auth_ssl_cert) AuthSslCert.equal-IsEquiv
    & on (λ a. a.verify_client) ==-IsEquiv
    & on (λ a. a.validation_depth) int_eq-IsEquiv
    & on (λ a. a.error_page) ==-IsEquiv
    & on (λ a. a.pass_cert_to_upstream) beq-IsEquiv
