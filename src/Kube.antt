-- ===== src/Kube.antt =====
-- The Kubernetes objects that the controller reads (k8s.io/api and apimachinery, which it imports),
-- with the fields that the code uses, and the parts of Go's `time` and `x509` that it names.
use panda_k8s.Equality.{IsEquiv, on, ◌&◌, decides-IsEquiv, int_eq-IsEquiv, ==-IsEquiv}
use panda_k8s.Prelude.{ℕ, String, Bool, true, false, ◌&&◌, ◌==◌, ℤ, int_eq, Option, List, arith}

-- `intstr.IntOrString`: `kind` says which of the two values counts
pub data Kind : Type 0 where
  int string : Kind

pub record IntOrString : Type 0 where
  pub kind : Kind
  pub int_val : ℤ
  pub str_val : String

abbrev pub kind_eq : Kind → Kind → Bool
kind_eq int int = true
kind_eq string string = true
kind_eq _ _ = false

-- `==` on two structs
unfoldable pub int_or_string_eq : IntOrString → IntOrString → Bool
int_or_string_eq a b = kind_eq a.kind b.kind && int_eq a.int_val b.int_val && a.str_val == b.str_val

-- `networking.PathType`
pub data PathType : Type 0 where
  exact prefix implementation_specific : PathType

abbrev pub path_type_eq : PathType → PathType → Bool
path_type_eq exact exact = true
path_type_eq prefix prefix = true
path_type_eq implementation_specific implementation_specific = true
path_type_eq _ _ = false

-- `corev1.ServicePort`
pub record ServicePort : Type 0 where
  pub name : String
  pub protocol : String
  pub port : ℤ
  pub target_port : IntOrString

-- `corev1.Service`
pub record Service : Type 0 where
  pub namespace : String
  pub name : String
  pub service_type : String
  pub external_name : String
  pub cluster_ip : String
  pub ports : List ServicePort

-- `corev1.ObjectReference`
pub record ObjectReference : Type 0 where
  pub uid : String
  pub resource_version : String

-- `x509.Certificate`, with its serial numbers in decimal and its IP addresses as bytes
pub record Certificate : Type 0 where
  pub issuer_serial_number : String
  pub serial_number : Option String
  pub dns_names : List String
  pub ip_addresses : List (List ℕ)
  pub common_name : String

-- `time.Time`: `Equal` compares the instants, and not the locations
pub record Time : Type 0 where
  pub instant : ℤ
  pub zone : String

unfoldable pub time_equal : Time → Time → Bool
time_equal a b = int_eq a.instant b.instant

kind_eq-IsEquiv : IsEquiv kind_eq
kind_eq-IsEquiv = decides-IsEquiv (λ a b h. ground arith) (λ a. ground arith)

pub int_or_string_eq-IsEquiv : IsEquiv int_or_string_eq
unfolding int_or_string_eq
int_or_string_eq-IsEquiv =
    on (λ a. a.kind) kind_eq-IsEquiv
    & on (λ a. a.int_val) int_eq-IsEquiv
    & on (λ a. a.str_val) ==-IsEquiv

pub time_equal-IsEquiv : IsEquiv time_equal
unfolding time_equal
time_equal-IsEquiv = on (λ a. a.instant) int_eq-IsEquiv
