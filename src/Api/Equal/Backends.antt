-- ===== src/Api/Equal/Backends.antt =====
-- pkg/apis/ingress/types_equals.go: `Equal` of backends, endpoints and stream services.
use panda_k8s.Api.Backends.{
  Endpoint, CookieSessionAffinity, SessionAffinityConfig, UpstreamHashByConfig,
  TrafficShapingPolicy, Backend, ProxyProtocol, L4Backend, L4Service,
}
use panda_k8s.Api.Heap.{Heap}
use panda_k8s.Equality.{IsEquiv, on, ◌&◌, ==-IsEquiv, beq-IsEquiv, int_eq-IsEquiv}
use panda_k8s.Kube.{Service, ObjectReference, int_or_string_eq, int_or_string_eq-IsEquiv}
use panda_k8s.Pointers.{Ptr, pointees_equal, pointees_equal-IsEquiv}
use panda_k8s.Prelude.{Bool, ◌&&◌, ◌==◌, beq, int_eq}
use panda_k8s.Sets.{compare, string_elements_match}
use panda_k8s.Sets.Multisets.{compare-IsEquiv, string_elements_match-IsEquiv}
use panda_k8s.Sets.Slices.{Slice}

-- the comparison of the services that two distinct pointers point to
unfoldable pub same_service : Service → Service → Bool
same_service a b = a.namespace == b.namespace && a.name == b.name

pub same_service-IsEquiv : IsEquiv same_service
unfolding same_service
same_service-IsEquiv = on (λ a. a.namespace) ==-IsEquiv & on (λ a. a.name) ==-IsEquiv

-- the same for the targets of two endpoints
unfoldable pub same_target : ObjectReference → ObjectReference → Bool
same_target a b = a.uid == b.uid && a.resource_version == b.resource_version

pub same_target-IsEquiv : IsEquiv same_target
unfolding same_target
same_target-IsEquiv = on (λ a. a.uid) ==-IsEquiv & on (λ a. a.resource_version) ==-IsEquiv

-- `CookieSessionAffinity.Equal`, on two objects
unfoldable pub cookie_session_affinity_equal : CookieSessionAffinity → CookieSessionAffinity → Bool
cookie_session_affinity_equal a b =
    a.name == b.name
    && a.path == b.path
    && a.expires == b.expires
    && a.max_age == b.max_age
    && a.same_site == b.same_site
    && beq a.secure b.secure
    && beq a.conditional_same_site_none b.conditional_same_site_none

pub cookie_session_affinity_equal-IsEquiv : IsEquiv cookie_session_affinity_equal
unfolding cookie_session_affinity_equal
cookie_session_affinity_equal-IsEquiv =
    on (λ a. a.name) ==-IsEquiv
    & on (λ a. a.path) ==-IsEquiv
    & on (λ a. a.expires) ==-IsEquiv
    & on (λ a. a.max_age) ==-IsEquiv
    & on (λ a. a.same_site) ==-IsEquiv
    & on (λ a. a.secure) beq-IsEquiv
    & on (λ a. a.conditional_same_site_none) beq-IsEquiv

-- `SessionAffinityConfig.Equal`, on two objects
unfoldable pub session_affinity_equal : SessionAffinityConfig → SessionAffinityConfig → Bool
session_affinity_equal a b =
    a.affinity_type == b.affinity_type
    && a.affinity_mode == b.affinity_mode
    && cookie_session_affinity_equal a.cookie_session_affinity b.cookie_session_affinity

pub session_affinity_equal-IsEquiv : IsEquiv session_affinity_equal
unfolding session_affinity_equal
session_affinity_equal-IsEquiv =
    on (λ a. a.affinity_type) ==-IsEquiv
    & on (λ a. a.affinity_mode) ==-IsEquiv
    & on (λ a. a.cookie_session_affinity) cookie_session_affinity_equal-IsEquiv

-- `UpstreamHashByConfig.Equal`, on two objects
unfoldable pub upstream_hash_by_equal : UpstreamHashByConfig → UpstreamHashByConfig → Bool
upstream_hash_by_equal a b =
    a.upstream_hash_by == b.upstream_hash_by
    && beq a.upstream_hash_by_subset b.upstream_hash_by_subset
    && int_eq a.upstream_hash_by_subset_size b.upstream_hash_by_subset_size

pub upstream_hash_by_equal-IsEquiv : IsEquiv upstream_hash_by_equal
unfolding upstream_hash_by_equal
upstream_hash_by_equal-IsEquiv =
    on (λ a. a.upstream_hash_by) ==-IsEquiv
    & on (λ a. a.upstream_hash_by_subset) beq-IsEquiv
    & on (λ a. a.upstream_hash_by_subset_size) int_eq-IsEquiv

-- `TrafficShapingPolicy.Equal`, on two objects
unfoldable pub traffic_shaping_policy_equal : TrafficShapingPolicy → TrafficShapingPolicy → Bool
traffic_shaping_policy_equal a b =
    int_eq a.weight b.weight
    && a.header == b.header
    && a.header_value == b.header_value
    && a.header_pattern == b.header_pattern
    && a.cookie == b.cookie

pub traffic_shaping_policy_equal-IsEquiv : IsEquiv traffic_shaping_policy_equal
unfolding traffic_shaping_policy_equal
traffic_shaping_policy_equal-IsEquiv =
    on (λ a. a.weight) int_eq-IsEquiv
    & on (λ a. a.header) ==-IsEquiv
    & on (λ a. a.header_value) ==-IsEquiv
    & on (λ a. a.header_pattern) ==-IsEquiv
    & on (λ a. a.cookie) ==-IsEquiv

-- `==` on two structs
unfoldable pub proxy_protocol_eq : ProxyProtocol → ProxyProtocol → Bool
proxy_protocol_eq a b = beq a.decode b.decode && beq a.encode b.encode

pub proxy_protocol_eq-IsEquiv : IsEquiv proxy_protocol_eq
unfolding proxy_protocol_eq
proxy_protocol_eq-IsEquiv = on (λ a. a.decode) beq-IsEquiv & on (λ a. a.encode) beq-IsEquiv

-- `L4Backend.Equal`, on two objects
unfoldable pub l4_backend_equal : L4Backend → L4Backend → Bool
l4_backend_equal a b =
    int_or_string_eq a.port b.port
    && a.name == b.name
    && a.namespace == b.namespace
    && a.protocol == b.protocol
    && proxy_protocol_eq a.proxy_protocol b.proxy_protocol

pub l4_backend_equal-IsEquiv : IsEquiv l4_backend_equal
unfolding l4_backend_equal
l4_backend_equal-IsEquiv =
    on (λ a. a.port) int_or_string_eq-IsEquiv
    & on (λ a. a.name) ==-IsEquiv
    & on (λ a. a.namespace) ==-IsEquiv
    & on (λ a. a.protocol) ==-IsEquiv
    & on (λ a. a.proxy_protocol) proxy_protocol_eq-IsEquiv

module _ (heap : Heap) where
  unfoldable pub service_equal : Ptr Service → Ptr Service → Bool
  service_equal = pointees_equal heap.service same_service

  pub service_equal-IsEquiv : IsEquiv service_equal
  unfolding service_equal
  service_equal-IsEquiv = pointees_equal-IsEquiv heap.service same_service-IsEquiv

  unfoldable pub target_equal : Ptr ObjectReference → Ptr ObjectReference → Bool
  target_equal = pointees_equal heap.object_reference same_target

  pub target_equal-IsEquiv : IsEquiv target_equal
  unfolding target_equal
  target_equal-IsEquiv = pointees_equal-IsEquiv heap.object_reference same_target-IsEquiv

  -- `Endpoint.Equal`, on two objects
  unfoldable pub endpoint_equal : Endpoint → Endpoint → Bool
  endpoint_equal a b = a.address == b.address && a.port == b.port && target_equal a.target b.target

  pub endpoint_equal-IsEquiv : IsEquiv endpoint_equal
  unfolding endpoint_equal
  endpoint_equal-IsEquiv =
      on (λ a. a.address) ==-IsEquiv
      & on (λ a. a.port) ==-IsEquiv
      & on (λ a. a.target) target_equal-IsEquiv

  unfoldable pub compare_endpoints : Slice Endpoint → Slice Endpoint → Bool
  compare_endpoints a b = compare endpoint_equal a b

  pub compare_endpoints-IsEquiv : IsEquiv compare_endpoints
  unfolding compare_endpoints
  compare_endpoints-IsEquiv = compare-IsEquiv endpoint_equal-IsEquiv

  -- `Backend.Equal`, on two objects
  unfoldable pub same_backend : Backend → Backend → Bool
  same_backend a b =
      a.name == b.name
      && beq a.no_server b.no_server
      && service_equal a.service b.service
      && int_or_string_eq a.port b.port
      && beq a.ssl_passthrough b.ssl_passthrough
      && session_affinity_equal a.session_affinity b.session_affinity
      && upstream_hash_by_equal a.upstream_hash_by b.upstream_hash_by
      && a.load_balancing == b.load_balancing
      && compare_endpoints a.endpoints b.endpoints
      && traffic_shaping_policy_equal a.traffic_shaping_policy b.traffic_shaping_policy
      && string_elements_match a.alternative_backends b.alternative_backends

  pub same_backend-IsEquiv : IsEquiv same_backend
  unfolding same_backend
  same_backend-IsEquiv =
      on (λ a. a.name) ==-IsEquiv
      & on (λ a. a.no_server) beq-IsEquiv
      & on (λ a. a.service) service_equal-IsEquiv
      & on (λ a. a.port) int_or_string_eq-IsEquiv
      & on (λ a. a.ssl_passthrough) beq-IsEquiv
      & on (λ a. a.session_affinity) session_affinity_equal-IsEquiv
      & on (λ a. a.upstream_hash_by) upstream_hash_by_equal-IsEquiv
      & on (λ a. a.load_balancing) ==-IsEquiv
      & on (λ a. a.endpoints) compare_endpoints-IsEquiv
      & on (λ a. a.traffic_shaping_policy) traffic_shaping_policy_equal-IsEquiv
      & on (λ a. a.alternative_backends) string_elements_match-IsEquiv

  -- `Backend.Equal`
  unfoldable pub backend_equal : Ptr Backend → Ptr Backend → Bool
  backend_equal = pointees_equal heap.backend same_backend

  pub backend_equal-IsEquiv : IsEquiv backend_equal
  unfolding backend_equal
  backend_equal-IsEquiv = pointees_equal-IsEquiv heap.backend same_backend-IsEquiv

  unfoldable pub compare_backends : Slice (Ptr Backend) → Slice (Ptr Backend) → Bool
  compare_backends a b = compare backend_equal a b

  pub compare_backends-IsEquiv : IsEquiv compare_backends
  unfolding compare_backends
  compare_backends-IsEquiv = compare-IsEquiv backend_equal-IsEquiv

  -- `L4Service.Equal`, on two objects
  unfoldable pub l4_service_equal : L4Service → L4Service → Bool
  l4_service_equal a b =
      int_eq a.port b.port
      && l4_backend_equal a.backend b.backend
      && compare_endpoints a.endpoints b.endpoints

  pub l4_service_equal-IsEquiv : IsEquiv l4_service_equal
  unfolding l4_service_equal
  l4_service_equal-IsEquiv =
      on (λ a. a.port) int_eq-IsEquiv
      & on (λ a. a.backend) l4_backend_equal-IsEquiv
      & on (λ a. a.endpoints) compare_endpoints-IsEquiv

  unfoldable pub compare_l4_service : Slice L4Service → Slice L4Service → Bool
  compare_l4_service a b = compare l4_service_equal a b

  pub compare_l4_service-IsEquiv : IsEquiv compare_l4_service
  unfolding compare_l4_service
  compare_l4_service-IsEquiv = compare-IsEquiv l4_service_equal-IsEquiv
