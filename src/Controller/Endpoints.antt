-- ===== src/Controller/Endpoints.antt =====
-- internal/ingress/controller/endpoints.go: the endpoints behind one port of a Service. The slice
-- that the code returns is never nil, and is a list here.
pub mod Distinct
pub mod Complete
pub mod Sound
use panda_k8s.Api.Backends.{Endpoint}
use panda_k8s.Externals.{Externals}
use panda_k8s.Kube.{Service, ServicePort, ObjectReference, int, kind_eq}
use panda_k8s.Pointers.{Ptr}
use panda_k8s.Pointers
use panda_k8s.Prelude.{
  String, Bool, true, false, not, ◌&&◌, ◌||◌, ◌==◌, ℤ, pos, is_positive, List, [], ◌∷◌, ◌++◌,
  Option, none, some, any, if◌then◌else◌, itoa, join_host_port, trim_dot,
}

-- `corev1.EndpointPort`, `EndpointAddress` and `EndpointSubset`
pub record EndpointPort : Type 0 where
  pub name : String
  pub port : ℤ
  pub protocol : String

pub record EndpointAddress : Type 0 where
  pub ip : String
  pub target_ref : Ptr ObjectReference

pub record EndpointSubset : Type 0 where
  pub addresses : List EndpointAddress
  pub ports : List EndpointPort

-- `processedUpstreamServers` and `upsServers`
pub record Found : Type 0 where
  pub processed : List String
  pub ups_servers : List Endpoint

-- the loop over the addresses of one port
unfoldable pub add_addresses : ℤ → List EndpointAddress → Found → Found
add_addresses target_port [] found = found
add_addresses target_port (a ∷ rest) found =
    let key = join_host_port a.ip (itoa target_port) in
    add_addresses target_port rest (
      if any (λ k. k == key) found.processed then found else record {
        processed = key ∷ found.processed;
        ups_servers =
            found.ups_servers
            ++ record { address = a.ip; port = itoa target_port; target = a.target_ref } ∷ [];
      })

abbrev pub is_last : List EndpointPort → Bool
is_last [] = true
is_last (p ∷ ps) = false

module _ (port : ServicePort) (proto : String) where
  -- does the name of the service's port select this one?
  abbrev pub is_named : EndpointPort → Bool
  is_named p = port.name == "" || port.name == p.name

  -- `targetPort`, once `matchedPortNameFound` is set
  unfoldable pub target_port_of : EndpointPort → Bool → Bool → ℤ
  target_port_of p last matched =
      if last && not matched && kind_eq port.target_port.kind int
      then port.target_port.int_val
      else if is_named p
      then p.port
      else pos 0

  -- `matchedPortNameFound`, after this port
  abbrev pub matched_after : Bool → EndpointPort → Bool
  matched_after matched p = if p.protocol == proto then matched || is_named p else matched

  -- one round of the loop over the ports of a subset
  unfoldable pub scan_port : List EndpointAddress → Bool → Bool → EndpointPort → Found → Found
  unfolding target_port_of
  scan_port addresses last matched p found =
      if not (p.protocol == proto)
      then found
      else if not (is_positive (target_port_of p last matched))
      then found
      else add_addresses (target_port_of p last matched) addresses found

  unfoldable pub scan_ports : List EndpointAddress → Bool → List EndpointPort → Found → Found
  unfolding scan_port
  scan_ports addresses matched [] found = found
  scan_ports addresses matched (p ∷ ps) found =
      scan_ports addresses (matched_after matched p) ps
        (scan_port addresses (is_last ps) (matched_after matched p) p found)

  -- the loop over the subsets
  unfoldable pub scan_subsets : List EndpointSubset → Found → Found
  unfolding scan_ports
  scan_subsets [] found = found
  scan_subsets (ss ∷ rest) found = scan_subsets rest (scan_ports ss.addresses false ss.ports found)

module _ (ext : Externals) where
  open ext use {parse_ip, is_loopback, is_dns1123_subdomain, int_value, meta_namespace_key}

  -- the name of this host
  unfoldable pub is_local : String → Bool
  is_local name =
      name == "localhost" || elim (parse_ip name) [ none ↦ false | some ip ↦ is_loopback ip ]

  -- a name that is no address has to be a DNS name
  unfoldable pub is_invalid_name : String → Bool
  is_invalid_name name = elim (parse_ip name) [
    | none ↦ not (is_dns1123_subdomain (trim_dot name))
    | some ip ↦ false
  ]

  -- a Service of type ExternalName
  unfoldable pub external_endpoints : Service → ServicePort → List Endpoint
  external_endpoints s port =
      if is_local s.external_name
      then []
      else if is_invalid_name s.external_name
      then []
      else record {
        address = s.external_name;
        port = itoa (int_value port.target_port);
        target = Pointers.nil;
      }
        ∷ []

  -- `getEndpoints`, with `none` for nil, and for the error of `getServiceEndpoints`
  unfoldable pub get_endpoints :
      Option Service
      → Option ServicePort
      → String
      → (String → Option (List EndpointSubset))
      → List Endpoint
  unfolding external_endpoints scan_subsets
  get_endpoints (some s) (some port) proto get_service_endpoints =
      if s.service_type == "ExternalName"
      then external_endpoints s port
      else elim (get_service_endpoints (meta_namespace_key s.namespace s.name)) [
        | none ↦ []
        | some subsets ↦
            (scan_subsets port proto subsets
              (record { processed = []; ups_servers = [] })).ups_servers
      ]
  get_endpoints _ _ proto get_service_endpoints = []
