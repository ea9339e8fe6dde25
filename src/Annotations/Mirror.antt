-- ===== src/Annotations/Mirror.antt =====
-- internal/ingress/annotations/mirror/main.go: the parsed annotation, and its `Equal`.
use panda_k8s.Equality.{IsEquiv, on, ◌&◌, ==-IsEquiv}
use panda_k8s.Prelude.{String, Bool, ◌==◌, ◌&&◌}

pub record Config : Type 0 where
  pub source : String
  pub request_body : String
  pub target : String
  pub host : String

-- `Equal`, on two objects
unfoldable pub equal : Config → Config → Bool
equal a b =
    a.source == b.source
    && a.request_body == b.request_body
    && a.target == b.target
    && a.host == b.host

pub equal-IsEquiv : IsEquiv equal
unfolding equal
equal-IsEquiv =
    on (λ a. a.source) ==-IsEquiv
    & on (λ a. a.request_body) ==-IsEquiv
    & on (λ a. a.target) ==-IsEquiv
    & on (λ a. a.host) ==-IsEquiv
