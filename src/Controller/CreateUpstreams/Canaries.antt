-- ===== src/Controller/CreateUpstreams/Canaries.antt =====
-- What `createUpstreams` makes of a canary annotation.
use panda_k8s.Annotations.Canary
use panda_k8s.Annotations.Parsed.{ParsedAnnotations}
use panda_k8s.Api.Backends.{Endpoint, Backend, TrafficShapingPolicy}
use panda_k8s.Api.Heap.{Heap}
use panda_k8s.Api.Ingresses.{ServiceBackend}
use panda_k8s.Controller.CreateUpstreams.{
  new_upstream, configured, with_cluster_endpoint, with_canary, default_backend_upstream,
  path_upstream, prepared, policy_of, service_key, with_endpoints, with_service, is_no_list,
}
use panda_k8s.Controller.Services.{
  upstream_service_name_and_port, service_endpoints, get_service_cluster_endpoint,
}
use panda_k8s.Controller.Store.{Store, Options}
use panda_k8s.Controller.Upstreams.{upstream_name}
use panda_k8s.Externals.{Externals}
use panda_k8s.Kube.{Service}
use panda_k8s.Pointers.{Ptr}
use panda_k8s.Prelude.{
  String, true, false, ◌≡◌, ◌∙◌, refl, ap, ℤ, pos, Option, some, inl, inr, Bool-cases, Option-cases,
}
use panda_k8s.Sets.Slices.{Slice, elems}

module _ (ext : Externals) (heap : Heap) (store : Store) (cfg : Options) where
  -- a field that is neither the endpoints nor the Service
  module _ {A : Type 0} (field : Backend → A)
      (apart : (b : Backend) (es : Slice Endpoint) → field (record b { endpoints = es }) ≡ field b)
      (aside : (b : Backend) (p : Ptr Service) → field (record b { service = p }) ≡ field b) where
    with_service_keeps :
        (key : String) (b : Backend) → field (with_service ext heap store cfg key b) ≡ field b
    with_service_keeps key b = elim (Option-cases (store.get_service key)) [
      | inl missing ↦ rw (missing, with_service) refl
      | inr (n, found) ↦ rw (found, with_service) (aside b _)
    ]

    pub with_endpoints_keeps :
        (key port : String) (b : Backend)
        → field (with_endpoints ext heap store cfg key port b) ≡ field b
    unfolding with_endpoints
    with_endpoints_keeps key port b = elim (Bool-cases (is_no_list (elems b.endpoints))) [
      | inr some_there ↦ rw some_there (with_service_keeps key b)
      | inl nothing ↦ elim (Option-cases (service_endpoints ext heap store cfg key port)) [
        | inl missing ↦ rw (nothing, missing) refl
        | inr (es, found) ↦
            rw (nothing, found) (with_service_keeps key (record b { endpoints = es }) ∙ apart b es)
      ]
    ]

  with_cluster_endpoint_keeps :
      {A : Type 0} (field : Backend → A)
      → ((b : Backend) (es : Slice Endpoint) → field (record b { endpoints = es }) ≡ field b)
      → (anns : ParsedAnnotations) (key : String) (service : Option ServiceBackend) (b : Backend)
      → field (with_cluster_endpoint ext heap store cfg anns key service b) ≡ field b
  unfolding with_cluster_endpoint
  with_cluster_endpoint_keeps field apart anns key service b =
      elim (Bool-cases anns.service_upstream) [
        | inr off ↦ rw off refl
        | inl on ↦
            elim (Option-cases (get_service_cluster_endpoint ext heap store cfg key service)) [
              | inl missing ↦ rw (on, missing) refl
              | inr (e, found) ↦ rw (on, found) (apart b _)
            ]
      ]

  with_canary_keeps :
      {A : Type 0} (field : Backend → A)
      → ((b : Backend) (p : TrafficShapingPolicy)
          → field (record b { no_server = true; traffic_shaping_policy = p }) ≡ field b)
      → (canary : Canary.Config) (total : ℤ) (b : Backend)
      → field (with_canary ext heap store cfg canary total b) ≡ field b
  unfolding with_canary
  with_canary_keeps field aside canary total b = elim (Bool-cases canary.enabled) [
    | inl on ↦ rw on (aside b _)
    | inr off ↦ rw off refl
  ]

  -- A field that is not the endpoints, nor what a canary sets, is as the annotations configure it.
  pub prepared_keeps :
      {A : Type 0} (field : Backend → A)
      → ((b : Backend) (es : Slice Endpoint) → field (record b { endpoints = es }) ≡ field b)
      → ((b : Backend) (p : TrafficShapingPolicy)
          → field (record b { no_server = true; traffic_shaping_policy = p }) ≡ field b)
      → (anns : ParsedAnnotations) (key : String) (service : Option ServiceBackend) (total : ℤ)
        (b : Backend)
      → field (prepared ext heap store cfg anns key service total b)
        ≡ field (configured ext heap store cfg anns b)
  prepared_keeps field apart aside anns key service total b =
      with_canary_keeps field aside anns.canary total (
        with_cluster_endpoint ext heap store cfg anns key service
          (configured ext heap store cfg anns b))
      ∙ with_cluster_endpoint_keeps field apart anns key service
          (configured ext heap store cfg anns b)

  prepared_policy :
      (anns : ParsedAnnotations) (key : String) (service : Option ServiceBackend) (total : ℤ)
      (b : Backend)
      → anns.canary.enabled ≡ true
      → (prepared ext heap store cfg anns key service total b).traffic_shaping_policy
        ≡ policy_of anns.canary total
  unfolding with_canary
  prepared_policy anns key service total b h = rw h refl

  -- Of an enabled canary annotation, the upstream of a path takes all but the total of the weights,
  -- which stays 0; the upstream of a default backend takes the total too.
  pub path_upstream_policy :
      (namespace : String) (anns : ParsedAnnotations) (service : ServiceBackend)
      → anns.canary.enabled ≡ true
      → ((path_upstream ext heap store cfg namespace anns service).traffic_shaping_policy
          ≡ policy_of anns.canary (pos 0))
        × ((default_backend_upstream ext heap store cfg namespace anns
              service).traffic_shaping_policy
            ≡ policy_of anns.canary anns.canary.weight_total)
  unfolding path_upstream default_backend_upstream
  path_upstream_policy namespace anns service h =
      let (svc_name, svc_port) = upstream_service_name_and_port ext (some service) in
      let name = upstream_name namespace (some service) in
      let key = service_key namespace svc_name in
      let start : Backend = record (new_upstream ext heap store cfg name) { port = svc_port } in
      (
        with_endpoints_keeps (λ b. b.traffic_shaping_policy) (λ b es. refl) (λ b p. refl) key
              (ext.port_string svc_port)
              (prepared ext heap store cfg anns key (some service) (pos 0) start)
            ∙ prepared_policy anns key (some service) (pos 0) start h,
        prepared_policy anns (service_key namespace service.name) (some service)
            anns.canary.weight_total (new_upstream ext heap store cfg name) h,
      )

  no_canary :
      (canary : Canary.Config) (total : ℤ) (b : Backend)
      → canary.enabled ≡ false
      → with_canary ext heap store cfg canary total b ≡ b
  unfolding with_canary
  no_canary canary total b h = simp (h, with_canary)

  prepared_serves :
      (anns : ParsedAnnotations) (key : String) (service : Option ServiceBackend) (total : ℤ)
      (b : Backend)
      → anns.canary.enabled ≡ false
      → (prepared ext heap store cfg anns key service total b).no_server ≡ b.no_server
  unfolding configured
  prepared_serves anns key service total b h =
      ap (λ (x : Backend). x.no_server)
        (no_canary anns.canary total
          (with_cluster_endpoint ext heap store cfg anns key service
            (configured ext heap store cfg anns b))
          h)
      ∙ with_cluster_endpoint_keeps (λ (x : Backend). x.no_server) (λ b es. refl) anns key service
          (configured ext heap store cfg anns b)

  -- The upstreams of an Ingress that is no canary have a server.
  pub path_upstream_serves :
      (namespace : String) (anns : ParsedAnnotations) (service : ServiceBackend)
      → anns.canary.enabled ≡ false
      → ((path_upstream ext heap store cfg namespace anns service).no_server ≡ false)
        × ((default_backend_upstream ext heap store cfg namespace anns service).no_server ≡ false)
  unfolding path_upstream default_backend_upstream new_upstream
  path_upstream_serves namespace anns service h =
      let (svc_name, svc_port) = upstream_service_name_and_port ext (some service) in
      let name = upstream_name namespace (some service) in
      let key = service_key namespace svc_name in
      let start : Backend = record (new_upstream ext heap store cfg name) { port = svc_port } in
      (
        with_endpoints_keeps (λ b. b.no_server) (λ b es. refl) (λ b p. refl) key
              (ext.port_string svc_port)
              (prepared ext heap store cfg anns key (some service) (pos 0) start)
            ∙ prepared_serves anns key (some service) (pos 0) start h,
        prepared_serves anns (service_key namespace service.name) (some service)
            anns.canary.weight_total (new_upstream ext heap store cfg name) h,
      )
