-- ===== src/Annotations/Canary.antt =====
-- internal/ingress/annotations/canary/main.go: the parsed annotation.
use panda_k8s.Prelude.{String, Bool, ℤ}

pub record Config : Type 0 where
  pub enabled : Bool
  pub weight : ℤ
  pub weight_total : ℤ
  pub header : String
  pub header_value : String
  pub header_pattern : String
  pub cookie : String
