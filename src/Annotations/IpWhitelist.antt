-- ===== src/Annotations/IpWhitelist.antt =====
-- internal/ingress/annotations/ipwhitelist/main.go: the parsed annotation, and its `Equal`.
use panda_k8s.Equality.{IsEquiv, on}
use panda_k8s.Prelude.{String, Bool}
use panda_k8s.Sets.{string_elements_match}
use panda_k8s.Sets.Multisets.{string_elements_match-IsEquiv}
use panda_k8s.Sets.Slices.{Slice}

pub record SourceRange : Type 0 where
  pub cidr : Slice String

-- `Equal`, on two objects
unfoldable pub equal : SourceRange → SourceRange → Bool
equal a b = string_elements_match a.cidr b.cidr

pub equal-IsEquiv : IsEquiv equal
unfolding equal
equal-IsEquiv = on (λ a. a.cidr) string_elements_match-IsEquiv
