-- ===== src/Externals.antt =====
-- Code that the controller imports and that the repository does not hold, and the address functions
-- of Go's `net`: parameters of the model, of which nothing is assumed.
use panda_k8s.Kube.{IntOrString, Certificate}
use panda_k8s.Prelude.{ℕ, List, String, Bool, ℤ, Option}

pub record Externals : Type 1 where
  pub Ip : Type 0
  -- `net.ParseIP` and `IP.IsLoopback`
  pub parse_ip : String → Option Ip
  pub is_loopback : Ip → Bool
  -- `IP.Equal`, with the bytes of another address
  pub ip_equal : Ip → List ℕ → Bool
  -- `x509.Certificate.VerifyHostname(host)` has no error
  pub is_valid_for : Certificate → String → Bool
  -- `validation.IsDNS1123Subdomain(name)` has no errors
  pub is_dns1123_subdomain : String → Bool
  -- `IntOrString.IntValue` and `String`
  pub int_value : IntOrString → ℤ
  pub port_string : IntOrString → String
  -- `intstr.FromInt` and `FromString`
  pub from_int : ℤ → IntOrString
  pub from_string : String → IntOrString
  -- `MetaNamespaceKey`, of a namespace and a name
  pub meta_namespace_key : String → String → String
