-- ===== src/Api/Ingresses.antt =====
-- pkg/apis/ingress/types.go: an Ingress with its parsed annotations, and the parts of
-- `networking.Ingress` that the controller reads.
use panda_k8s.Annotations.Parsed.{ParsedAnnotations}
use panda_k8s.Kube.{PathType}
use panda_k8s.Prelude.{String, ℤ, List, Option}

-- `networking.IngressServiceBackend`, its port by number (0 if by name) or by name
pub record ServiceBackend : Type 0 where
  pub name : String
  pub port_number : ℤ
  pub port_name : String

-- `networking.HTTPIngressPath`: `service` is none for a resource backend
pub record HttpIngressPath : Type 0 where
  pub path : String
  pub path_type : Option PathType
  pub service : Option ServiceBackend

-- `networking.IngressRule`: `http` is none for a rule without paths
pub record IngressRule : Type 0 where
  pub host : String
  pub http : Option (List HttpIngressPath)

-- `networking.IngressTLS`
pub record IngressTls : Type 0 where
  pub hosts : List String
  pub secret_name : String

-- `networking.IngressBackend`
pub record IngressBackend : Type 0 where
  pub service : Option ServiceBackend

pub record Ingress : Type 0 where
  pub namespace : String
  pub name : String
  pub annotations : List (String × String)
  pub default_backend : Option IngressBackend
  pub tls : List IngressTls
  pub rules : List IngressRule
  pub parsed_annotations : Option ParsedAnnotations
