-- ===== src/Controller/Services.antt =====
-- internal/ingress/controller/controller.go and util.go: the ports and endpoints of the Service of a
-- backend. `none` is an error.
pub mod Ports
use panda_k8s.Api.Backends.{Endpoint}
use panda_k8s.Api.Heap.{Heap}
use panda_k8s.Api.Ingresses.{ServiceBackend}
use panda_k8s.Controller.Endpoints.{get_endpoints}
use panda_k8s.Controller.Store.{Store, Options}
use panda_k8s.Externals.{Externals}
use panda_k8s.Kube.{IntOrString, Service, ServicePort, int, string, kind_eq}
use panda_k8s.Pointers
use panda_k8s.Prelude.{
  String, Bool, true, false, not, ◌||◌, ◌==◌, ℤ, pos, negsuc, int_eq, is_positive, List, [], ◌∷◌,
  Option, none, some, if◌then◌else◌, itoa, atoi, to_int32, ◌>>=◌,
}
use panda_k8s.Sets.Slices.{Slice, appended}

-- `IntOrString{}`
abbrev pub no_port : IntOrString
no_port = record { kind = int; int_val = pos 0; str_val = "" }

-- the first port with a name
unfoldable pub port_by_name : String → List ServicePort → Option ServicePort
port_by_name name [] = none
port_by_name name (p ∷ ps) =
    let rest = port_by_name name ps in if p.name == name then some p else rest

-- the first port with a number
unfoldable pub port_by_number : ℤ → List ServicePort → Option ServicePort
port_by_number n [] = none
port_by_number n (p ∷ ps) =
    let rest = port_by_number n ps in if int_eq p.port n then some p else rest

module _ (ext : Externals) where
  open ext use {int_value, port_string, from_int, from_string}

  -- `upstreamServiceNameAndPort`
  unfoldable pub upstream_service_name_and_port : Option ServiceBackend → String × IntOrString
  upstream_service_name_and_port none = ("", no_port)
  upstream_service_name_and_port (some service) =
      if is_positive service.port_number
      then (service.name, from_int service.port_number)
      else if not (service.port_name == "")
      then (service.name, from_string service.port_name)
      else ("", no_port)

  -- the port that `externalNamePorts` makes of the first one with the name
  abbrev pub named_port : ServicePort → ServicePort
  named_port p = record {
    name = "";
    protocol = "TCP";
    port = p.port;
    target_port =
        if int_eq (int_value p.target_port) (pos 0) then from_int p.port else p.target_port;
  }

  -- from the number of the port on
  unfoldable pub numbered_port : ℤ → List ServicePort → ServicePort
  unfolding to_int32 port_by_number
  numbered_port port ports = elim (port_by_number (to_int32 port) ports) [
    | none ↦ record {
      name = "";
      protocol = "TCP";
      port = to_int32 port;
      target_port = from_int port;
    }
    | some p ↦ record { name = ""; protocol = "TCP"; port = p.port; target_port = p.target_port }
  ]

  -- `externalNamePorts`
  unfoldable pub external_name_ports : String → Service → ServicePort
  unfolding atoi numbered_port port_by_name
  external_name_ports name svc =
      let number = atoi name in
      let other = numbered_port number.number svc.ports in
      if number.is_error
      then elim (port_by_name name svc.ports) [ none ↦ other | some p ↦ named_port p ]
      else other

  -- the first port of a Service that the port of a backend names
  unfoldable pub port_of_backend : String → List ServicePort → Option ServicePort
  port_of_backend backend_port [] = none
  port_of_backend backend_port (p ∷ ps) =
      let rest = port_of_backend backend_port ps in
      if itoa p.port == backend_port
        || port_string p.target_port == backend_port
        || p.name == backend_port
      then some p
      else rest

  module _ (heap : Heap) (store : Store) (cfg : Options) where
    -- `getServiceClusterEndpoint`
    unfoldable pub get_service_cluster_endpoint : String → Option ServiceBackend → Option Endpoint
    unfolding upstream_service_name_and_port port_by_name
    get_service_cluster_endpoint svc_key backend = do
      n ← store.get_service svc_key
      let svc = heap.service n in
          if svc.cluster_ip == "" || svc.cluster_ip == "None" then none else elim backend [
            | none ↦ some (record { address = svc.cluster_ip; port = ""; target = Pointers.nil })
            | some service ↦
                let port = (upstream_service_name_and_port (some service)).1 in
                if kind_eq port.kind string
                then elim (port_by_name (port_string port) svc.ports) [
                  | none ↦ none
                  | some p ↦
                      if int_eq p.port (negsuc 0)
                      then none
                      else some (record {
                        address = svc.cluster_ip;
                        port = itoa p.port;
                        target = Pointers.nil;
                      })
                ]
                else some (record {
                  address = svc.cluster_ip;
                  port = port_string port;
                  target = Pointers.nil;
                })
          ]

    -- `serviceEndpoints`, once the Service is there
    unfoldable pub endpoints_of_service : Service → String → Slice Endpoint
    unfolding external_name_ports port_of_backend get_endpoints
    endpoints_of_service svc backend_port =
        if svc.service_type == "ExternalName"
        then if cfg.disable_service_external_name
          then appended []
          else appended (
              get_endpoints ext (some svc) (some (external_name_ports backend_port svc)) "TCP"
                store.get_service_endpoints)
        else elim (port_of_backend backend_port svc.ports) [
          | none ↦ appended []
          | some p ↦
              appended (get_endpoints ext (some svc) (some p) "TCP" store.get_service_endpoints)
        ]

    -- `serviceEndpoints`
    unfoldable pub service_endpoints : String → String → Option (Slice Endpoint)
    unfolding endpoints_of_service
    service_endpoints svc_key backend_port = do
      n ← store.get_service svc_key
      some (endpoints_of_service (heap.service n) backend_port)
