-- ===== src/Controller/CreateUpstreams/Built.antt =====
-- What `createUpstreams` builds: every backend under its name, and one for every Service named.
use panda_k8s.Annotations.Canary
use panda_k8s.Annotations.Parsed.{ParsedAnnotations}
use panda_k8s.Api.Backends.{Backend}
use panda_k8s.Api.Heap.{Heap}
use panda_k8s.Api.Ingresses.{ServiceBackend}
use panda_k8s.Controller.CreateUpstreams.{
  new_upstream, configured, with_cluster_endpoint, with_canary, default_backend_upstream,
  path_upstream, prepared, service_key, with_endpoints, with_service, is_no_list,
}
use panda_k8s.Controller.Services.{
  upstream_service_name_and_port, service_endpoints, get_service_cluster_endpoint,
}
use panda_k8s.Controller.Store.{Store, Options}
use panda_k8s.Controller.Upstreams.{upstream_name}
use panda_k8s.Externals.{Externals}
use panda_k8s.Prelude.{String, ◌≡◌, refl, ℤ, pos, Option, some, inl, inr, Bool-cases, Option-cases}
use panda_k8s.Sets.Slices.{elems, nil}

-- A backend as it is created: it has its name, and no alternatives.
abbrev pub IsNew : String → Backend → Type 0
IsNew name b = (b.name ≡ name) × (b.alternative_backends ≡ nil)

module _ (ext : Externals) (heap : Heap) (store : Store) (cfg : Options) where
  with_cluster_endpoint-IsNew :
      (name : String) (anns : ParsedAnnotations) (key : String) (service : Option ServiceBackend)
      (b : Backend)
      → IsNew name b
      → IsNew name (with_cluster_endpoint ext heap store cfg anns key service b)
  unfolding with_cluster_endpoint
  with_cluster_endpoint-IsNew name anns key service b h = elim (Bool-cases anns.service_upstream) [
    | inr off ↦ rw off h
    | inl on ↦ elim (Option-cases (get_service_cluster_endpoint ext heap store cfg key service)) [
      | inl missing ↦ rw (on, missing) h
      | inr (e, found) ↦ rw (on, found) h
    ]
  ]

  with_canary-IsNew :
      (name : String) (canary : Canary.Config) (total : ℤ) (b : Backend)
      → IsNew name b
      → IsNew name (with_canary ext heap store cfg canary total b)
  unfolding with_canary
  with_canary-IsNew name canary total b h = elim (Bool-cases canary.enabled) [
    | inl on ↦ rw on h
    | inr off ↦ rw off h
  ]

  prepared-IsNew :
      (name : String) (anns : ParsedAnnotations) (key : String) (service : Option ServiceBackend)
      (total : ℤ) (b : Backend)
      → IsNew name b
      → IsNew name (prepared ext heap store cfg anns key service total b)
  unfolding configured
  prepared-IsNew name anns key service total b h =
      with_canary-IsNew name anns.canary total
        (with_cluster_endpoint ext heap store cfg anns key service
          (configured ext heap store cfg anns b))
        (with_cluster_endpoint-IsNew name anns key service (configured ext heap store cfg anns b) h)

  pub default_backend_upstream-IsNew :
      (namespace : String) (anns : ParsedAnnotations) (service : ServiceBackend)
      → IsNew
          (upstream_name namespace (some service))
          (default_backend_upstream ext heap store cfg namespace anns service)
  unfolding default_backend_upstream
  default_backend_upstream-IsNew namespace anns service =
      prepared-IsNew (upstream_name namespace (some service)) anns
        (service_key namespace service.name) (some service) anns.canary.weight_total
        (new_upstream ext heap store cfg (upstream_name namespace (some service))) (refl, refl)

  with_service-IsNew :
      (name key : String) (b : Backend)
      → IsNew name b
      → IsNew name (with_service ext heap store cfg key b)
  with_service-IsNew name key b h = elim (Option-cases (store.get_service key)) [
    | inl missing ↦ rw (missing, with_service) h
    | inr (n, found) ↦ rw (found, with_service) h
  ]

  with_endpoints-IsNew :
      (name key port : String) (b : Backend)
      → IsNew name b
      → IsNew name (with_endpoints ext heap store cfg key port b)
  unfolding with_endpoints
  with_endpoints-IsNew name key port b h = elim (Bool-cases (is_no_list (elems b.endpoints))) [
    | inr some_there ↦ rw some_there (with_service-IsNew name key b h)
    | inl nothing ↦ elim (Option-cases (service_endpoints ext heap store cfg key port)) [
      | inl missing ↦ rw (nothing, missing) h
      | inr (es, found) ↦
          rw (nothing, found) (with_service-IsNew name key (record b { endpoints = es }) h)
    ]
  ]

  pub path_upstream-IsNew :
      (namespace : String) (anns : ParsedAnnotations) (service : ServiceBackend)
      → IsNew
          (upstream_name namespace (some service))
          (path_upstream ext heap store cfg namespace anns service)
  unfolding path_upstream
  path_upstream-IsNew namespace anns service =
      let (svc_name, svc_port) = upstream_service_name_and_port ext (some service) in
      let key = service_key namespace svc_name in
      let name = upstream_name namespace (some service) in
      let start : Backend = record (new_upstream ext heap store cfg name) { port = svc_port } in
      with_endpoints-IsNew name key (ext.port_string svc_port)
        (prepared ext heap store cfg anns key (some service) (pos 0) start)
        (prepared-IsNew name anns key (some service) (pos 0) start (refl, refl))
