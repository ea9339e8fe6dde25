-- ===== src/Api/Backends.antt =====
-- pkg/apis/ingress/types.go: backends (upstreams), their endpoints, and the stream services.
use panda_k8s.Kube.{Service, IntOrString, ObjectReference}
use panda_k8s.Pointers.{Ptr}
use panda_k8s.Prelude.{String, Bool, ℤ, List, Option}
use panda_k8s.Sets.Slices.{Slice}

pub record Endpoint : Type 0 where
  pub address : String
  pub port : String
  pub target : Ptr ObjectReference

-- the map of the locations is none where the code's is nil
pub record CookieSessionAffinity : Type 0 where
  pub name : String
  pub expires : String
  pub max_age : String
  pub locations : Option (List (String × List String))
  pub secure : Bool
  pub path : String
  pub same_site : String
  pub conditional_same_site_none : Bool
  pub change_on_failure : Bool

pub record SessionAffinityConfig : Type 0 where
  pub affinity_type : String
  pub affinity_mode : String
  pub cookie_session_affinity : CookieSessionAffinity

pub record UpstreamHashByConfig : Type 0 where
  pub upstream_hash_by : String
  pub upstream_hash_by_subset : Bool
  pub upstream_hash_by_subset_size : ℤ

pub record TrafficShapingPolicy : Type 0 where
  pub weight : ℤ
  pub weight_total : ℤ
  pub header : String
  pub header_value : String
  pub header_pattern : String
  pub cookie : String

pub record Backend : Type 0 where
  pub name : String
  pub service : Ptr Service
  pub port : IntOrString
  pub ssl_passthrough : Bool
  pub endpoints : Slice Endpoint
  pub session_affinity : SessionAffinityConfig
  pub upstream_hash_by : UpstreamHashByConfig
  pub load_balancing : String
  pub no_server : Bool
  pub traffic_shaping_policy : TrafficShapingPolicy
  pub alternative_backends : Slice String

pub record ProxyProtocol : Type 0 where
  pub decode : Bool
  pub encode : Bool

pub record L4Backend : Type 0 where
  pub port : IntOrString
  pub name : String
  pub namespace : String
  pub protocol : String
  pub proxy_protocol : ProxyProtocol

pub record L4Service : Type 0 where
  pub port : ℤ
  pub backend : L4Backend
  pub endpoints : Slice Endpoint
  pub service : Ptr Service
