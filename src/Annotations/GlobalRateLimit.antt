-- ===== src/Annotations/GlobalRateLimit.antt =====
-- internal/ingress/annotations/globalratelimit/main.go: the parsed annotation, and its `Equal`.
use panda_k8s.Equality.{IsEquiv, on, ◌&◌, ==-IsEquiv, int_eq-IsEquiv, nat_eq-IsEquiv}
use panda_k8s.Prelude.{String, Bool, ◌==◌, ℤ, int_eq, nat_eq, ◌&&◌}
use panda_k8s.Sets.{string_elements_match}
use panda_k8s.Sets.Multisets.{string_elements_match-IsEquiv}
use panda_k8s.Sets.Slices.{Slice, len}

pub record Config : Type 0 where
  pub namespace : String
  pub limit : ℤ
  pub window_size : ℤ
  pub key : String
  pub ignored_cidrs : Slice String

-- `Equal`, on two objects
unfoldable pub equal : Config → Config → Bool
equal a b =
    a.namespace == b.namespace
    && int_eq a.limit b.limit
    && int_eq a.window_size b.window_size
    && a.key == b.key
    && nat_eq (len a.ignored_cidrs) (len b.ignored_cidrs)
    && string_elements_match a.ignored_cidrs b.ignored_cidrs

pub equal-IsEquiv : IsEquiv equal
unfolding equal
equal-IsEquiv =
    on (λ a. a.namespace) ==-IsEquiv
    & on (λ a. a.limit) int_eq-IsEquiv
    & on (λ a. a.window_size) int_eq-IsEquiv
    & on (λ a. a.key) ==-IsEquiv
    & on (λ a. len a.ignored_cidrs) nat_eq-IsEquiv
    & on (λ a. a.ignored_cidrs) string_elements_match-IsEquiv
