-- ===== src/Annotations/Connection.antt =====
-- internal/ingress/annotations/connection/main.go: the parsed annotation, and its `Equal`.
use panda_k8s.Equality.{IsEquiv, on, ◌&◌, ==-IsEquiv, beq-IsEquiv}
use panda_k8s.Prelude.{String, Bool, ◌==◌, beq, ◌&&◌}

pub record Config : Type 0 where
  pub header : String
  pub enabled : Bool

-- `Equal`, on two objects
unfoldable pub equal : Config → Config → Bool
equal a b = beq a.enabled b.enabled && a.header == b.header

pub equal-IsEquiv : IsEquiv equal
unfolding equal
equal-IsEquiv = on (λ a. a.enabled) beq-IsEquiv & on (λ a. a.header) ==-IsEquiv
