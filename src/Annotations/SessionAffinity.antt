-- ===== src/Annotations/SessionAffinity.antt =====
-- internal/ingress/annotations/sessionaffinity/main.go: the parsed annotation.
use panda_k8s.Prelude.{String, Bool}

pub record Cookie : Type 0 where
  pub name : String
  pub expires : String
  pub max_age : String
  pub path : String
  pub change_on_failure : Bool
  pub secure : Bool
  pub same_site : String
  pub conditional_same_site_none : Bool

pub record Config : Type 0 where
  pub type : String
  pub mode : String
  pub canary_behavior : String
  pub cookie : Cookie
