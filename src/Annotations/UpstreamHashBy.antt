-- ===== src/Annotations/UpstreamHashBy.antt =====
-- internal/ingress/annotations/upstreamhashby/main.go: the parsed annotation.
use panda_k8s.Prelude.{String, Bool, ℤ}

pub record Config : Type 0 where
  pub upstream_hash_by : String
  pub upstream_hash_by_subset : Bool
  pub upstream_hash_by_subset_size : ℤ
