-- ===== src/Annotations/Rewrite.antt =====
-- internal/ingress/annotations/rewrite/main.go: the parsed annotation, and its `Equal`.
use panda_k8s.Equality.{IsEquiv, on, ◌&◌, ==-IsEquiv, beq-IsEquiv}
use panda_k8s.Prelude.{String, Bool, ◌==◌, beq, ◌&&◌}

pub record Config : Type 0 where
  pub target : String
  pub ssl_redirect : Bool
  pub force_ssl_redirect : Bool
  pub preserve_trailing_slash : Bool
  pub app_root : String
  pub use_regex : Bool

-- `Equal`, on two objects
unfoldable pub equal : Config → Config → Bool
equal a b =
    a.target == b.target
    && beq a.ssl_redirect b.ssl_redirect
    && beq a.force_ssl_redirect b.force_ssl_redirect
    && a.app_root == b.app_root
    && beq a.use_regex b.use_regex

pub equal-IsEquiv : IsEquiv equal
unfolding equal
equal-IsEquiv =
    on (λ a. a.target) ==-IsEquiv
    & on (λ a. a.ssl_redirect) beq-IsEquiv
    & on (λ a. a.force_ssl_redirect) beq-IsEquiv
    & on (λ a. a.app_root) ==-IsEquiv
    & on (λ a. a.use_regex) beq-IsEquiv
