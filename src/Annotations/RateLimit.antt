-- ===== src/Annotations/RateLimit.antt =====
-- internal/ingress/annotations/ratelimit/main.go: the parsed annotation, and its `Equal`.
use panda_k8s.Equality.{IsEquiv, on, ◌&◌, ==-IsEquiv, int_eq-IsEquiv, nat_eq-IsEquiv}
use panda_k8s.Prelude.{String, Bool, ◌==◌, ℤ, int_eq, nat_eq, ◌&&◌}
use panda_k8s.Sets.{string_elements_match}
use panda_k8s.Sets.Multisets.{string_elements_match-IsEquiv}
use panda_k8s.Sets.Slices.{Slice, len}

pub record Zone : Type 0 where
  pub name : String
  pub limit : ℤ
  pub burst : ℤ
  pub shared_size : ℤ

-- `Zone.Equal`, on two objects
unfoldable pub zone_equal : Zone → Zone → Bool
zone_equal a b =
    a.name == b.name
    && int_eq a.limit b.limit
    && int_eq a.burst b.burst
    && int_eq a.shared_size b.shared_size

pub zone_equal-IsEquiv : IsEquiv zone_equal
unfolding zone_equal
zone_equal-IsEquiv =
    on (λ a. a.name) ==-IsEquiv
    & on (λ a. a.limit) int_eq-IsEquiv
    & on (λ a. a.burst) int_eq-IsEquiv
    & on (λ a. a.shared_size) int_eq-IsEquiv

pub record Config : Type 0 where
  pub connections : Zone
  pub rps : Zone
  pub rpm : Zone
  pub limit_rate : ℤ
  pub limit_rate_after : ℤ
  pub name : String
  pub id : String
  pub whitelist : Slice String

-- `Equal`, on two objects
unfoldable pub equal : Config → Config → Bool
equal a b =
    zone_equal a.connections b.connections
    && zone_equal a.rpm b.rpm
    && zone_equal a.rps b.rps
    && int_eq a.limit_rate b.limit_rate
    && int_eq a.limit_rate_after b.limit_rate_after
    && a.id == b.id
    && a.name == b.name
    && nat_eq (len a.whitelist) (len b.whitelist)
    && string_elements_match a.whitelist b.whitelist

pub equal-IsEquiv : IsEquiv equal
unfolding equal
equal-IsEquiv =
    on (λ a. a.connections) zone_equal-IsEquiv
    & on (λ a. a.rpm) zone_equal-IsEquiv
    & on (λ a. a.rps) zone_equal-IsEquiv
    & on (λ a. a.limit_rate) int_eq-IsEquiv
    & on (λ a. a.limit_rate_after) int_eq-IsEquiv
    & on (λ a. a.id) ==-IsEquiv
    & on (λ a. a.name) ==-IsEquiv
    & on (λ a. len a.whitelist) nat_eq-IsEquiv
    & on (λ a. a.whitelist) string_elements_match-IsEquiv
