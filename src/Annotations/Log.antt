-- ===== src/Annotations/Log.antt =====
-- internal/ingress/annotations/log/main.go: the parsed annotation, and its `Equal`.
use panda_k8s.Equality.{IsEquiv, on, ◌&◌, beq-IsEquiv}
use panda_k8s.Prelude.{Bool, beq, ◌&&◌}

pub record Config : Type 0 where
  pub access : Bool
  pub rewrite : Bool

-- `Equal`, on two objects
unfoldable pub equal : Config → Config → Bool
equal a b = beq a.access b.access && beq a.rewrite b.rewrite

pub equal-IsEquiv : IsEquiv equal
unfolding equal
equal-IsEquiv = on (λ a. a.access) beq-IsEquiv & on (λ a. a.rewrite) beq-IsEquiv
