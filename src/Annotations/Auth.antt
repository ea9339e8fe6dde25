-- ===== src/Annotations/Auth.antt =====
-- internal/ingress/annotations/auth/main.go: the parsed annotation, and its `Equal`.
use panda_k8s.Equality.{IsEquiv, on, ◌&◌, ==-IsEquiv, beq-IsEquiv}
use panda_k8s.Prelude.{String, Bool, ◌==◌, beq, ◌&&◌}

pub record Config : Type 0 where
  pub type : String
  pub realm : String
  pub file : String
  pub secured : Bool
  pub file_sha : String
  pub secret : String
  pub secret_type : String

-- `Equal`, on two objects
unfoldable pub equal : Config → Config → Bool
equal a b =
    a.type == b.type
    && a.realm == b.realm
    && a.file == b.file
    && beq a.secured b.secured
    && a.file_sha == b.file_sha
    && a.secret == b.secret

pub equal-IsEquiv : IsEquiv equal
unfolding equal
equal-IsEquiv =
    on (λ a. a.type) ==-IsEquiv
    & on (λ a. a.realm) ==-IsEquiv
    & on (λ a. a.file) ==-IsEquiv
    & on (λ a. a.secured) beq-IsEquiv
    & on (λ a. a.file_sha) ==-IsEquiv
    & on (λ a. a.secret) ==-IsEquiv
