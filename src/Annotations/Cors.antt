-- ===== src/Annotations/Cors.antt =====
-- internal/ingress/annotations/cors/main.go: the parsed annotation, and its `Equal`.
use panda_k8s.Equality.{
  IsEquiv, on, ◌&◌, ==-IsEquiv, beq-IsEquiv, int_eq-IsEquiv, same_order, same_order-IsEquiv,
}
use panda_k8s.Prelude.{String, Bool, ◌==◌, beq, ℤ, int_eq, ◌&&◌}
use panda_k8s.Sets.Slices.{Slice, elems}

-- The loop over the origins: in order, after a test of the lengths.
unfoldable pub same_texts : Slice String → Slice String → Bool
same_texts a b = same_order ◌==◌ (elems a) (elems b)

pub same_texts-IsEquiv : IsEquiv same_texts
unfolding same_texts
same_texts-IsEquiv = on elems (same_order-IsEquiv ==-IsEquiv)

pub record Config : Type 0 where
  pub cors_enabled : Bool
  pub cors_allow_origin : Slice String
  pub cors_allow_methods : String
  pub cors_allow_headers : String
  pub cors_allow_credentials : Bool
  pub cors_expose_headers : String
  pub cors_max_age : ℤ

-- `Equal`, on two objects
unfoldable pub equal : Config → Config → Bool
equal a b =
    int_eq a.cors_max_age b.cors_max_age
    && a.cors_expose_headers == b.cors_expose_headers
    && beq a.cors_allow_credentials b.cors_allow_credentials
    && a.cors_allow_headers == b.cors_allow_headers
    && a.cors_allow_methods == b.cors_allow_methods
    && beq a.cors_enabled b.cors_enabled
    && same_texts a.cors_allow_origin b.cors_allow_origin

pub equal-IsEquiv : IsEquiv equal
unfolding equal
equal-IsEquiv =
    on (λ a. a.cors_max_age) int_eq-IsEquiv
    & on (λ a. a.cors_expose_headers) ==-IsEquiv
    & on (λ a. a.cors_allow_credentials) beq-IsEquiv
    & on (λ a. a.cors_allow_headers) ==-IsEquiv
    & on (λ a. a.cors_allow_methods) ==-IsEquiv
    & on (λ a. a.cors_enabled) beq-IsEquiv
    & on (λ a. a.cors_allow_origin) same_texts-IsEquiv
