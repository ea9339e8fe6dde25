-- ===== src/Annotations/Redirect.antt =====
-- internal/ingress/annotations/redirect/redirect.go: the parsed annotation, and its `Equal`.
use panda_k8s.Equality.{IsEquiv, on, ◌&◌, ==-IsEquiv, beq-IsEquiv, int_eq-IsEquiv}
use panda_k8s.Prelude.{String, Bool, ◌==◌, beq, ℤ, int_eq, ◌&&◌}

pub record Config : Type 0 where
  pub url : String
  pub code : ℤ
  pub from_to_www : Bool

-- `Equal`, on two objects
unfoldable pub equal : Config → Config → Bool
equal a b = a.url == b.url && int_eq a.code b.code && beq a.from_to_www b.from_to_www

pub equal-IsEquiv : IsEquiv equal
unfolding equal
equal-IsEquiv =
    on (λ a. a.url) ==-IsEquiv
    & on (λ a. a.code) int_eq-IsEquiv
    & on (λ a. a.from_to_www) beq-IsEquiv
