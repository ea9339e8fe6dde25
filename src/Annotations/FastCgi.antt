-- ===== src/Annotations/FastCgi.antt =====
-- internal/ingress/annotations/fastcgi/main.go: the parsed annotation, and its `Equal`.
use panda_k8s.Equality.{IsEquiv, on, ◌&◌, ==-IsEquiv}
use panda_k8s.Equality.Maps.{StringMap, deep_equal, deep_equal-IsEquiv}
use panda_k8s.Prelude.{String, Bool, ◌==◌, ◌&&◌}

pub record Config : Type 0 where
  pub index : String
  pub params : StringMap

-- `Equal`, on two objects
unfoldable pub equal : Config → Config → Bool
equal a b = a.index == b.index && deep_equal a.params b.params

pub equal-IsEquiv : IsEquiv equal
unfolding equal
equal-IsEquiv = on (λ a. a.index) ==-IsEquiv & on (λ a. a.params) deep_equal-IsEquiv
