-- ===== src/Controller/Services/Ports.antt =====
-- The ports and endpoints that are found for the Service of a backend.
use panda_k8s.Api.Heap.{Heap}
use panda_k8s.Controller.Endpoints.{get_endpoints}
use panda_k8s.Controller.Endpoints.Distinct.{same_host_port, get_endpoints-distinct}
use panda_k8s.Controller.Services.{
  external_name_ports, port_of_backend, endpoints_of_service, service_endpoints,
}
use panda_k8s.Controller.Store.{Store, Options}
use panda_k8s.Equality.{distinct}
use panda_k8s.Externals.{Externals}
use panda_k8s.Kube.{Service, ServicePort}
use panda_k8s.Prelude.{
  String, true, ◌==◌, ◌≡◌, refl, subst, some, some_eq, some_of_bind, inl, inr, Bool-cases,
  Option-cases,
}
use panda_k8s.Api.Backends.{Endpoint}
use panda_k8s.Sets.Slices.{Slice, elems, appended, elems-appended}

module _ (ext : Externals) where
  found_distinct :
      (store : Store) (svc : Service) (p : ServicePort)
      → distinct same_host_port (
          elems
            (appended (get_endpoints ext (some svc) (some p) "TCP" store.get_service_endpoints)))
        ≡ true
  found_distinct store svc p =
      rw (elems-appended (get_endpoints ext (some svc) (some p) "TCP" store.get_service_endpoints))
        (get_endpoints-distinct ext (some svc) (some p) "TCP" store.get_service_endpoints)

  module _ (heap : Heap) (store : Store) (cfg : Options) where
    endpoints_of_service-distinct :
        (svc : Service) (backend_port : String)
        → distinct same_host_port (elems (endpoints_of_service ext heap store cfg svc backend_port))
          ≡ true
    unfolding endpoints_of_service
    endpoints_of_service-distinct svc backend_port =
        elim (Bool-cases (svc.service_type == "ExternalName")) [
          | inl external ↦ elim (Bool-cases cfg.disable_service_external_name) [
            | inl disabled ↦ rw (external, disabled) refl
            | inr enabled ↦
                rw (external, enabled)
                  (rw external at
                    (found_distinct store svc (external_name_ports ext backend_port svc)))
          ]
          | inr internal ↦ elim (Option-cases (port_of_backend ext backend_port svc.ports)) [
            | inl missing ↦ rw (internal, missing) refl
            | inr (p, named) ↦ rw (internal, named) (found_distinct store svc p)
          ]
        ]

    -- No endpoint of a Service is there twice, whichever port the backend names: no two have the
    -- same address and port.
    pub service_endpoints-distinct :
        (svc_key backend_port : String) (found : Slice Endpoint)
        → service_endpoints ext heap store cfg svc_key backend_port ≡ some found
        → distinct same_host_port (elems found) ≡ true
    unfolding service_endpoints
    service_endpoints-distinct svc_key backend_port found h =
        let (n, _, k) = some_of_bind (store.get_service svc_key) (λ n. _) found h in
        subst (λ f. distinct same_host_port (elems f) ≡ true) (some_eq k)
          (endpoints_of_service-distinct (heap.service n) backend_port)
