-- ===== src/Controller/CreateUpstreams.antt =====
-- internal/ingress/controller/controller.go and util.go: an upstream for every Service that the
-- Ingresses name (`createUpstreams`, `getDefaultUpstream`). The map of upstreams goes by value; the
-- snippets that `dropSnippetDirectives` empties play no part here. `none` is a panic.
pub mod Built
pub mod Grows
pub mod Total
pub mod Canaries
pub mod Cookies
use panda_k8s.Annotations.Canary
use panda_k8s.Annotations.Parsed.{ParsedAnnotations}
use panda_k8s.Api.Backends.{
  Endpoint, Backend, TrafficShapingPolicy, SessionAffinityConfig, UpstreamHashByConfig,
}
use panda_k8s.Api.Heap.{Heap}
use panda_k8s.Api.Ingresses.{Ingress, IngressRule, HttpIngressPath, IngressBackend, ServiceBackend}
use panda_k8s.Api.Zero.{no_backend, no_session_affinity_config, no_cookie_session_affinity}
use panda_k8s.Controller.Canary.{Upstreams, def_upstream_name}
use panda_k8s.Controller.Endpoints.{get_endpoints}
use panda_k8s.Controller.Services.{
  no_port, upstream_service_name_and_port, get_service_cluster_endpoint, service_endpoints,
}
use panda_k8s.Controller.Store.{Store, Options}
use panda_k8s.Controller.Upstreams.{upstream_name}
use panda_k8s.Externals.{Externals}
use panda_k8s.Kube.{Service, ServicePort}
use panda_k8s.Pointers.{Ptr, nil, at}
use panda_k8s.Prelude.{
  String, text_append, Bool, true, false, ◌==◌, ℤ, pos, itoa, List, [], ◌∷◌, Option, none, some,
  is_empty, lookup, store as put, if◌then◌else◌, ◌>>=◌,
}
use panda_k8s.Sets.Slices.{Slice, made, elems}
use panda_k8s.Sets.Slices

-- a map entry or a list that stands nowhere
abbrev pub is_no_list : {A : Type 0} → List A → Bool
is_no_list [] = true
is_no_list (x ∷ xs) = false

-- of a canary, with the total of the weights that is passed
abbrev pub policy_of : Canary.Config → ℤ → TrafficShapingPolicy
policy_of canary weight_total = record {
  weight = canary.weight;
  weight_total = weight_total;
  header = canary.header;
  header_value = canary.header_value;
  header_pattern = canary.header_pattern;
  cookie = canary.cookie;
}

abbrev pub blank_upstream : String → Ptr Service → Slice Endpoint → Backend
blank_upstream name service endpoints = record no_backend {
  name = name;
  service = service;
  endpoints = endpoints;
}

-- the paths of a rule that has some
abbrev pub paths_of : IngressRule → List HttpIngressPath
paths_of rule = elim rule.http [ none ↦ [] | some paths ↦ paths ]

-- the Service of the default backend
abbrev pub default_service_of : Ingress → Option ServiceBackend
default_service_of ing = ing.default_backend >>= (λ backend. backend.service)

-- `fmt.Sprintf("%v/%v", namespace, name)`
abbrev pub service_key : String → String → String
service_key namespace name = text_append namespace (text_append "/" name)

module _ (ext : Externals) (heap : Heap) (store : Store) (cfg : Options) where
  -- `newUpstream`
  unfoldable pub new_upstream : String → Backend
  new_upstream name = record (blank_upstream name cfg.empty_service (made [])) {
    session_affinity = record no_session_affinity_config {
      cookie_session_affinity = record no_cookie_session_affinity { locations = some [] };
    };
  }

  -- `DefaultEndpoint`
  abbrev pub default_endpoint : Endpoint
  default_endpoint = record {
    address = "127.0.0.1";
    port = itoa cfg.listen_ports.default;
    target = cfg.empty_reference;
  }

  -- the upstream from its Service and its ports on; a Service without ports panics
  unfoldable pub default_upstream_of : Ptr Service → Service → List ServicePort → Option Backend
  unfolding get_endpoints
  default_upstream_of p svc [] = none
  default_upstream_of p svc (port ∷ ports) =
      let endps = get_endpoints ext (some svc) (some port) "TCP" store.get_service_endpoints in
      some (
        blank_upstream def_upstream_name p
          (made (if is_no_list endps then default_endpoint ∷ [] else endps)))

  -- `getDefaultUpstream`
  unfoldable pub get_default_upstream : Option Backend
  unfolding default_upstream_of
  get_default_upstream =
      let alone = blank_upstream def_upstream_name nil (made (default_endpoint ∷ [])) in
      if is_empty cfg.default_service
      then some alone
      else elim (store.get_service cfg.default_service) [
        | none ↦ some alone
        | some n ↦ default_upstream_of (at n) (heap.service n) (heap.service n).ports
      ]

  -- the hash and the load balancing
  unfoldable pub configured : ParsedAnnotations → Backend → Backend
  configured anns b = record b {
    upstream_hash_by = record {
      upstream_hash_by = anns.upstream_hash_by.upstream_hash_by;
      upstream_hash_by_subset = anns.upstream_hash_by.upstream_hash_by_subset;
      upstream_hash_by_subset_size = anns.upstream_hash_by.upstream_hash_by_subset_size;
    };
    load_balancing =
        if anns.load_balancing == "" then store.load_balancing else anns.load_balancing;
  }

  -- the ClusterIP of the Service as the endpoint
  unfoldable pub with_cluster_endpoint :
      ParsedAnnotations → String → Option ServiceBackend → Backend → Backend
  unfolding get_service_cluster_endpoint
  with_cluster_endpoint anns svc_key service b =
      if anns.service_upstream
      then elim (get_service_cluster_endpoint ext heap store cfg svc_key service) [
        | none ↦ b
        | some endpoint ↦ record b { endpoints = made (endpoint ∷ []) }
      ]
      else b

  -- traffic shaping for a canary
  unfoldable pub with_canary : Canary.Config → ℤ → Backend → Backend
  with_canary canary weight_total b =
      if canary.enabled
      then record b { no_server = true; traffic_shaping_policy = policy_of canary weight_total }
      else b

  -- the upstream before its endpoints are read
  abbrev pub prepared : ParsedAnnotations → String → Option ServiceBackend → ℤ → Backend → Backend
  prepared anns svc_key service weight_total b =
      with_canary anns.canary weight_total
        (with_cluster_endpoint anns svc_key service (configured anns b))

  -- the default backend of an Ingress
  unfoldable pub default_backend_upstream : String → ParsedAnnotations → ServiceBackend → Backend
  unfolding new_upstream configured with_cluster_endpoint with_canary service_endpoints
      upstream_service_name_and_port
  default_backend_upstream namespace anns service =
      let svc_key = service_key namespace service.name in
      let b =
        prepared anns svc_key (some service) anns.canary.weight_total
          (new_upstream (upstream_name namespace (some service))) in
      let port = (upstream_service_name_and_port ext (some service)).1 in
      let endps : List Endpoint =
        elim (service_endpoints ext heap store cfg svc_key (ext.port_string port)) [
          | none ↦ []
          | some found ↦ elems found
        ] in
      record b {
        endpoints = if is_no_list (elems b.endpoints) then made endps else b.endpoints;
        service = elim (store.get_service svc_key) [ none ↦ nil | some n ↦ at n ];
      }

  -- the Service, if it is there
  abbrev pub with_service : String → Backend → Backend
  with_service svc_key b = elim (store.get_service svc_key) [
    | none ↦ b
    | some n ↦ record b { service = at n }
  ]

  -- the endpoints of the Service, unless there are some, and the Service
  unfoldable pub with_endpoints : String → String → Backend → Backend
  unfolding service_endpoints
  with_endpoints svc_key port b =
      if is_no_list (elems b.endpoints)
      then elim (service_endpoints ext heap store cfg svc_key port) [
        | none ↦ b
        | some found ↦ with_service svc_key (record b { endpoints = found })
      ]
      else with_service svc_key b

  -- the upstream of a path
  unfoldable pub path_upstream : String → ParsedAnnotations → ServiceBackend → Backend
  unfolding new_upstream configured with_cluster_endpoint with_canary with_endpoints
      upstream_service_name_and_port
  path_upstream namespace anns service =
      let (svc_name, svc_port) = upstream_service_name_and_port ext (some service) in
      let svc_key = service_key namespace svc_name in
      with_endpoints svc_key (ext.port_string svc_port) (
        prepared anns svc_key (some service) (pos 0)
          (record (new_upstream (upstream_name namespace (some service))) { port = svc_port }))

  -- a Service whose upstream is not there yet
  unfoldable pub create_for_service : Ingress → ServiceBackend → Upstreams → Option Upstreams
  unfolding path_upstream
  create_for_service ing service upstreams =
      let name = upstream_name ing.namespace (some service) in
      elim (lookup name upstreams) [
        | some b ↦ some upstreams
        | none ↦ do
          anns ← ing.parsed_annotations
          some (put name (path_upstream ing.namespace anns service) upstreams)
      ]

  -- one round of the loop over the paths
  unfoldable pub create_for_path : Ingress → HttpIngressPath → Upstreams → Option Upstreams
  unfolding create_for_service
  create_for_path ing path upstreams = elim path.service [
    | none ↦ some upstreams
    | some service ↦ create_for_service ing service upstreams
  ]

  unfoldable pub create_for_paths : Ingress → List HttpIngressPath → Upstreams → Option Upstreams
  unfolding create_for_path
  create_for_paths ing [] upstreams = some upstreams
  create_for_paths ing (p ∷ ps) upstreams =
      create_for_path ing p upstreams >>= create_for_paths ing ps

  unfoldable pub create_for_rules : Ingress → List IngressRule → Upstreams → Option Upstreams
  unfolding create_for_paths
  create_for_rules ing [] upstreams = some upstreams
  create_for_rules ing (r ∷ rs) upstreams =
      create_for_paths ing (paths_of r) upstreams >>= create_for_rules ing rs

  unfoldable pub create_default : Ingress → Upstreams → Option Upstreams
  unfolding default_backend_upstream
  create_default ing upstreams = elim (default_service_of ing) [
    | none ↦ some upstreams
    | some service ↦ do
      anns ← ing.parsed_annotations
      some (
          put (upstream_name ing.namespace (some service))
            (default_backend_upstream ing.namespace anns service) upstreams)
  ]

  unfoldable pub create_for_ingresses : List Ingress → Upstreams → Option Upstreams
  unfolding create_default create_for_rules
  create_for_ingresses [] upstreams = some upstreams
  create_for_ingresses (ing ∷ ings) upstreams = do
    next ← create_default ing upstreams
    all ← create_for_rules ing ing.rules next
    create_for_ingresses ings all

  -- `createUpstreams`
  unfoldable pub create_upstreams : List Ingress → Backend → Option Upstreams
  unfolding create_for_ingresses
  create_upstreams ings du = create_for_ingresses ings ((def_upstream_name, du) ∷ [])
