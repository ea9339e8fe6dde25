-- ===== src/Controller/Endpoints/Distinct.antt =====
-- What `getEndpoints` returns: no address and port twice, and every one that the ports select.
use panda_k8s.Api.Backends.{Endpoint}
use panda_k8s.Controller.Endpoints.{
  EndpointPort, EndpointAddress, EndpointSubset, Found, add_addresses, is_last, target_port_of,
  matched_after, scan_port, scan_ports, scan_subsets, external_endpoints, get_endpoints,
}
use panda_k8s.Equality.{distinct, distinct-append_one}
use panda_k8s.Externals.{Externals}
use panda_k8s.Kube.{Service, ServicePort}
use panda_k8s.Prelude.{
  String, Bool, true, false, ◌==◌, ◌≡◌, refl, sym, ◌∙◌, ℤ, is_positive, List, [], ◌∷◌, ◌++◌, Option,
  none, some, any, any-append, inl, inr, arith, if◌then◌else◌, itoa, join_host_port, Bool-cases,
}

abbrev pub host_port : Endpoint → String
host_port e = join_host_port e.address e.port

abbrev pub same_host_port : Endpoint → Endpoint → Bool
same_host_port a b = host_port a == host_port b

-- The map holds the keys of the endpoints found, and those are distinct.
pub record IsTracked (f : Found) : Type 0 where
  pub tracked :
      (key : String) → any (λ k. k == key) f.processed ≡ any (λ e. host_port e == key) f.ups_servers
  pub unique : distinct same_host_port f.ups_servers ≡ true

abbrev pub add_address : ℤ → EndpointAddress → Found → Found
add_address t a f =
    let key = join_host_port a.ip (itoa t) in
    if any (λ k. k == key) f.processed then f else record {
      processed = key ∷ f.processed;
      ups_servers =
          f.ups_servers ++ record { address = a.ip; port = itoa t; target = a.target_ref } ∷ [];
    }

add_address-IsTracked :
    (t : ℤ) (a : EndpointAddress) (f : Found) → IsTracked f → IsTracked (add_address t a f)
add_address-IsTracked t a f h =
    elim (Bool-cases (any (λ k. k == join_host_port a.ip (itoa t)) f.processed)) [
      | inl old ↦ rw old h
      | inr new ↦ rw new (record {
        tracked = λ key.
            ground
              (arith, h.tracked key, any-append (λ e. host_port e == key) f.ups_servers (e ∷ []));
        unique =
            distinct-append_one same_host_port f.ups_servers e (sym (h.tracked (host_port e)) ∙ new)
              h.unique;
      })
    ]
  where
    e : Endpoint
    e = record { address = a.ip; port = itoa t; target = a.target_ref }

add_addresses-IsTracked :
    (t : ℤ) (xs : List EndpointAddress) (f : Found) → IsTracked f → IsTracked (add_addresses t xs f)
unfolding add_addresses
add_addresses-IsTracked t [] f h = h
add_addresses-IsTracked t (a ∷ xs) f h =
    add_addresses-IsTracked t xs (add_address t a f) (add_address-IsTracked t a f h)

module _ (port : ServicePort) (proto : String) where
  scan_port-IsTracked :
      (xs : List EndpointAddress) (last matched : Bool) (p : EndpointPort) (f : Found)
      → IsTracked f
      → IsTracked (scan_port port proto xs last matched p f)
  unfolding scan_port
  scan_port-IsTracked xs last matched p f h = elim (Bool-cases (p.protocol == proto)) [
    | inr other ↦ rw other h
    | inl checked ↦
        rw checked (elim (Bool-cases (is_positive (target_port_of port proto p last matched))) [
          | inl open_port ↦
              rw open_port
                (add_addresses-IsTracked (target_port_of port proto p last matched) xs f h)
          | inr closed ↦ rw closed h
        ])
  ]

  scan_ports-IsTracked :
      (xs : List EndpointAddress) (ps : List EndpointPort) (matched : Bool) (f : Found)
      → IsTracked f
      → IsTracked (scan_ports port proto xs matched ps f)
  unfolding scan_ports
  scan_ports-IsTracked xs [] matched f h = h
  scan_ports-IsTracked xs (p ∷ ps) matched f h =
      scan_ports-IsTracked xs ps (matched_after port proto matched p)
        (scan_port port proto xs (is_last ps) (matched_after port proto matched p) p f)
        (scan_port-IsTracked xs (is_last ps) (matched_after port proto matched p) p f h)

  pub scan_subsets-IsTracked :
      (ss : List EndpointSubset) (f : Found)
      → IsTracked f
      → IsTracked (scan_subsets port proto ss f)
  unfolding scan_subsets
  scan_subsets-IsTracked [] f h = h
  scan_subsets-IsTracked (s ∷ ss) f h =
      scan_subsets-IsTracked ss (scan_ports port proto s.addresses false s.ports f)
        (scan_ports-IsTracked s.addresses s.ports false f h)

abbrev pub empty : Found
empty = record { processed = []; ups_servers = [] }

pub empty-IsTracked : IsTracked empty
empty-IsTracked = record { tracked = λ key. refl; unique = refl }

external_distinct :
    (ext : Externals) (s : Service) (port : ServicePort)
    → distinct same_host_port (external_endpoints ext s port) ≡ true
unfolding external_endpoints
external_distinct ext s port = ground arith

-- No endpoint is returned twice, whatever the Service, its port, the protocol and the answer of
-- `getServiceEndpoints`: no two have the same address and port, as `JoinHostPort` writes them.
pub get_endpoints-distinct :
    (ext : Externals) (s : Option Service) (port : Option ServicePort) (proto : String)
    (get_service_endpoints : String → Option (List EndpointSubset))
    → distinct same_host_port (get_endpoints ext s port proto get_service_endpoints) ≡ true
unfolding get_endpoints
get_endpoints-distinct ext none port proto get = refl
get_endpoints-distinct ext (some s) none proto get = refl
get_endpoints-distinct ext (some s) (some port) proto get =
    elim (Bool-cases (s.service_type == "ExternalName")) [
      | inl external ↦ rw external (external_distinct ext s port)
      | inr internal ↦
          rw internal
            (elim (get (ext.meta_namespace_key s.namespace s.name))
              as (λ answer.
                distinct same_host_port (elim answer [
                  | none ↦ []
                  | some subsets ↦
                      (scan_subsets port proto subsets
                        (record { processed = []; ups_servers = [] })).ups_servers
                ])
                ≡ true) [
                  | none ↦ refl
                  | some subsets ↦
                      (scan_subsets-IsTracked port proto subsets empty empty-IsTracked).unique
                ])
    ]
