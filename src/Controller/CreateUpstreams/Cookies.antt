-- ===== src/Controller/CreateUpstreams/Cookies.antt =====
-- Which upstreams have a map for the paths of session cookies (`newUpstream` makes one, and
-- `getDefaultUpstream` none).
use panda_k8s.Annotations.Parsed.{ParsedAnnotations}
use panda_k8s.Api.Backends.{Backend}
use panda_k8s.Api.Heap.{Heap}
use panda_k8s.Api.Ingresses.{Ingress, ServiceBackend}
use panda_k8s.Controller.Canary.{Upstreams, def_upstream_name}
use panda_k8s.Controller.CreateUpstreams.{
  new_upstream, configured, default_backend_upstream, path_upstream, prepared, service_key,
  create_upstreams,
}
use panda_k8s.Controller.CreateUpstreams.Canaries.{with_endpoints_keeps, prepared_keeps}
use panda_k8s.Controller.CreateUpstreams.Grows.{Makes, create_upstreams-Grows}
use panda_k8s.Controller.Services.{upstream_service_name_and_port}
use panda_k8s.Controller.Store.{Store, Options}
use panda_k8s.Controller.Upstreams.{upstream_name}
use panda_k8s.Externals.{Externals}
use panda_k8s.Prelude.{
  String, ◌≡◌, ◌≢◌, ◌∙◌, refl, List, [], Option, some, pos, All, All_all, Grows-All,
}

-- what the upstream has of the cookies' paths
abbrev pub cookie_locations : Backend → Option (List (String × List String))
cookie_locations b = b.session_affinity.cookie_session_affinity.locations

-- The upstream has a map for them.
abbrev pub HasLocations : Backend → Type 0
HasLocations b = (locs : List (String × List String)) × (cookie_locations b ≡ some locs)

-- ... unless it is the default one
abbrev pub IsHolding : String → Backend → Type 0
IsHolding name b = name ≢ def_upstream_name → HasLocations b

module _ (ext : Externals) (heap : Heap) (store : Store) (cfg : Options) where
  path_upstream_locations :
      (namespace : String) (anns : ParsedAnnotations) (service : ServiceBackend)
      → cookie_locations (path_upstream ext heap store cfg namespace anns service) ≡ some []
  unfolding path_upstream configured new_upstream
  path_upstream_locations namespace anns service =
      let (svc_name, svc_port) = upstream_service_name_and_port ext (some service) in
      let key = service_key namespace svc_name in
      let start : Backend =
        record (new_upstream ext heap store cfg (upstream_name namespace (some service))) {
          port = svc_port;
        } in
      with_endpoints_keeps ext heap store cfg cookie_locations (λ b es. refl) (λ b p. refl) key
        (ext.port_string svc_port)
        (prepared ext heap store cfg anns key (some service) (pos 0) start)
      ∙ prepared_keeps ext heap store cfg cookie_locations (λ b es. refl) (λ b p. refl) anns key
          (some service) (pos 0) start

  default_backend_upstream_locations :
      (namespace : String) (anns : ParsedAnnotations) (service : ServiceBackend)
      → cookie_locations (default_backend_upstream ext heap store cfg namespace anns service)
        ≡ some []
  unfolding default_backend_upstream configured new_upstream
  default_backend_upstream_locations namespace anns service =
      prepared_keeps ext heap store cfg cookie_locations (λ b es. refl) (λ b p. refl) anns
        (service_key namespace service.name) (some service) anns.canary.weight_total
        (new_upstream ext heap store cfg (upstream_name namespace (some service)))

  Makes-IsHolding : (ing : Ingress) → Makes ext heap store cfg IsHolding ing
  Makes-IsHolding ing anns service _ _ = (
    λ other. ([], path_upstream_locations ing.namespace anns service),
    λ other. ([], default_backend_upstream_locations ing.namespace anns service),
  )

  -- Every upstream but the default one has a map for the paths of cookies.
  pub create_upstreams-IsHolding :
      (ings : List Ingress) (du : Backend) (w : Upstreams)
      → create_upstreams ext heap store cfg ings du ≡ some w
      → All (λ e. IsHolding e.0 e.1) w
  create_upstreams-IsHolding ings du w h =
      Grows-All
        (create_upstreams-Grows ext heap store cfg IsHolding ings du w
          (All_all Makes-IsHolding ings) h).0
        ((λ other. absurd (other refl)), tt)
