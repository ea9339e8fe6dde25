-- ===== src/Annotations/Opentracing.antt =====
-- internal/ingress/annotations/opentracing/main.go: the parsed annotation, and its `Equal`.
use panda_k8s.Equality.{IsEquiv, on, ◌&◌, beq-IsEquiv}
use panda_k8s.Prelude.{Bool, beq, ◌&&◌}

pub record Config : Type 0 where
  pub enabled : Bool
  pub set : Bool
  pub trust_enabled : Bool
  pub trust_set : Bool

-- `Equal`, on two objects
unfoldable pub equal : Config → Config → Bool
equal a b =
    beq a.set b.set
    && beq a.enabled b.enabled
    && beq a.trust_set b.trust_set
    && beq a.trust_enabled b.trust_enabled

pub equal-IsEquiv : IsEquiv equal
unfolding equal
equal-IsEquiv =
    on (λ a. a.set) beq-IsEquiv
    & on (λ a. a.enabled) beq-IsEquiv
    & on (λ a. a.trust_set) beq-IsEquiv
    & on (λ a. a.trust_enabled) beq-IsEquiv
