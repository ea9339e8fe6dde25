-- ===== src/Annotations/ModSecurity.antt =====
-- internal/ingress/annotations/modsecurity/main.go: the parsed annotation, and its `Equal`.
use panda_k8s.Equality.{IsEquiv, on, ◌&◌, ==-IsEquiv, beq-IsEquiv}
use panda_k8s.Prelude.{String, Bool, ◌==◌, beq, ◌&&◌}

pub record Config : Type 0 where
  pub enable : Bool
  pub enable_set : Bool
  pub owasp_rules : Bool
  pub transaction_id : String
  pub snippet : String

-- `Equal`, on two objects
unfoldable pub equal : Config → Config → Bool
equal a b =
    beq a.enable b.enable
    && beq a.enable_set b.enable_set
    && beq a.owasp_rules b.owasp_rules
    && a.transaction_id == b.transaction_id
    && a.snippet == b.snippet

pub equal-IsEquiv : IsEquiv equal
unfolding equal
equal-IsEquiv =
    on (λ a. a.enable) beq-IsEquiv
    & on (λ a. a.enable_set) beq-IsEquiv
    & on (λ a. a.owasp_rules) beq-IsEquiv
    & on (λ a. a.transaction_id) ==-IsEquiv
    & on (λ a. a.snippet) ==-IsEquiv
