-- ===== src/Controller/Endpoints/Sound.antt =====
-- Where the endpoints that `getEndpoints` returns come from.
use panda_k8s.Api.Backends.{Endpoint}
use panda_k8s.Controller.Endpoints.{
  EndpointPort, EndpointAddress, EndpointSubset, Found, add_addresses, is_last, is_named, is_local,
  target_port_of, matched_after, scan_port, scan_ports, scan_subsets, external_endpoints,
  get_endpoints,
}
use panda_k8s.Controller.Endpoints.Distinct.{add_address, empty}
use panda_k8s.Externals.{Externals}
use panda_k8s.Kube.{Service, ServicePort, int, kind_eq}
use panda_k8s.Prelude.{
  String, Bool, true, false, not, ◌&&◌, ◌==◌, ◌≡◌, ◌⊎◌, refl, ℤ, is_positive, List, [], ◌∷◌, Option,
  some, any, all, All, All-append, In, inl, inr, arith, itoa, join_host_port, Bool-cases, length,
  ◌≤◌,
}

abbrev endpoint_of : EndpointAddress → ℤ → Endpoint
endpoint_of a t = record { address = a.ip; port = itoa t; target = a.target_ref }

module _ (port : ServicePort) (proto : String) where
  -- A port number that the code uses for an endpoint port: its own number, if the name of the
  -- Service's port selects it, or else the numeric target port of the Service's port.
  abbrev pub Offers : EndpointPort → ℤ → Type 0
  Offers p t =
      ((p.protocol == proto) ≡ true)
      × (is_positive t ≡ true)
      × (((is_named port proto p ≡ true) × (t ≡ p.port))
          ⊎ ((port.target_port.kind ≡ int) × (t ≡ port.target_port.int_val)))

  abbrev pub ComesFrom : List EndpointSubset → Endpoint → Type 0
  ComesFrom subsets e =
      (ss : EndpointSubset) × (p : EndpointPort) × (a : EndpointAddress) × (t : ℤ) × In ss subsets
      × In p ss.ports
      × In a ss.addresses
      × Offers p t
      × (e ≡ endpoint_of a t)

  offers :
      (last matched : Bool) (p : EndpointPort)
      → (p.protocol == proto) ≡ true
      → is_positive (target_port_of port proto p last matched) ≡ true
      → Offers p (target_port_of port proto p last matched)
  unfolding target_port_of
  offers last matched p checked h =
      elim (Bool-cases (last && not matched && kind_eq port.target_port.kind int)) [
        | inl fallback ↦ rw fallback (checked, ground arith, inr (ground arith, refl))
        | inr usual ↦ rw usual (elim (Bool-cases (is_named port proto p)) [
          | inl named ↦ rw named (checked, ground arith, inl (refl, refl))
          | inr unnamed ↦ absurd (ground arith)
        ])
      ]

  module _ (P : Endpoint → Type 0) where
    add_addresses-All :
        (t : ℤ) (xs : List EndpointAddress) (f : Found)
        → ((a : EndpointAddress) → In a xs → P (endpoint_of a t))
        → All P f.ups_servers
        → All P (add_addresses t xs f).ups_servers
    unfolding add_addresses
    add_addresses-All t [] f h k = k
    add_addresses-All t (a ∷ xs) f h k =
        add_addresses-All t xs (add_address t a f) (λ b m. h b (inr m))
          (elim (Bool-cases (any (λ k. k == join_host_port a.ip (itoa t)) f.processed)) [
            | inl old ↦ rw old k
            | inr new ↦
                rw new (All-append P f.ups_servers (endpoint_of a t ∷ []) k (h a (inl refl), tt))
          ])

    scan_port-All :
        (xs : List EndpointAddress) (last matched : Bool) (p : EndpointPort) (f : Found)
        → ((a : EndpointAddress) (t : ℤ) → In a xs → Offers p t → P (endpoint_of a t))
        → All P f.ups_servers
        → All P (scan_port port proto xs last matched p f).ups_servers
    unfolding scan_port
    scan_port-All xs last matched p f h k = elim (Bool-cases (p.protocol == proto)) [
      | inr other ↦ rw other k
      | inl checked ↦ rw checked (
          let t = target_port_of port proto p last matched in
          elim (Bool-cases (is_positive t)) [
            | inl open_port ↦ rw open_port (
                add_addresses-All t xs f (λ a m. h a t m (offers last matched p checked open_port))
                  k)
            | inr closed ↦ rw closed k
          ])
    ]

    scan_ports-All :
        (xs : List EndpointAddress) (ps : List EndpointPort) (matched : Bool) (f : Found)
        → ((p : EndpointPort) (a : EndpointAddress) (t : ℤ)
            → In p ps
            → In a xs
            → Offers p t
            → P (endpoint_of a t))
        → All P f.ups_servers
        → All P (scan_ports port proto xs matched ps f).ups_servers
    unfolding scan_ports
    scan_ports-All xs [] matched f h k = k
    scan_ports-All xs (p ∷ ps) matched f h k =
        let m = matched_after port proto matched p in
        scan_ports-All xs ps m (scan_port port proto xs (is_last ps) m p f)
          (λ q a t i. h q a t (inr i))
          (scan_port-All xs (is_last ps) m p f (λ a t. h p a t (inl refl)) k)

    scan_subsets-All :
        (ss : List EndpointSubset) (f : Found)
        → ((s : EndpointSubset) (p : EndpointPort) (a : EndpointAddress) (t : ℤ)
            → In s ss
            → In p s.ports
            → In a s.addresses
            → Offers p t
            → P (endpoint_of a t))
        → All P f.ups_servers
        → All P (scan_subsets port proto ss f).ups_servers
    unfolding scan_subsets
    scan_subsets-All [] f h k = k
    scan_subsets-All (s ∷ ss) f h k =
        scan_subsets-All ss (scan_ports port proto s.addresses false s.ports f)
          (λ r p a t i. h r p a t (inr i))
          (scan_ports-All s.addresses s.ports false f (λ p a t. h s p a t (inl refl)) k)

external_lem :
    (ext : Externals) (s : Service) (port : ServicePort)
    → (length (external_endpoints ext s port) ≤ 1)
      × (all (λ e. not (is_local ext e.address)) (external_endpoints ext s port) ≡ true)
unfolding external_endpoints
external_lem ext s port = ground arith

module _ (ext : Externals) (s : Service) (port : ServicePort) (proto : String)
    (get_service_endpoints : String → Option (List EndpointSubset)) where
  -- Of a Service that is not of type ExternalName and whose endpoints can be read: every endpoint
  -- returned is an address of a subset with the number of a port of that subset, which has the
  -- protocol; the number is positive, and is that of the port itself, if the name of the Service's
  -- port selects it, or the numeric target port of the Service's port.
  pub get_endpoints_sound :
      (subsets : List EndpointSubset)
      → (s.service_type == "ExternalName") ≡ false
      → get_service_endpoints (ext.meta_namespace_key s.namespace s.name) ≡ some subsets
      → All
          (ComesFrom port proto subsets)
          (get_endpoints ext (some s) (some port) proto get_service_endpoints)
  unfolding get_endpoints
  get_endpoints_sound subsets internal read = rw internal (
      rw read (
        scan_subsets-All port proto (ComesFrom port proto subsets) subsets empty
          (λ ss p a t i ip ia o. (ss, p, a, t, i, ip, ia, o, refl)) tt))

  -- A Service of type ExternalName has one endpoint at most, and its address is neither `localhost`
  -- nor a loopback address.
  pub get_endpoints_external :
      (s.service_type == "ExternalName") ≡ true
      → (length (get_endpoints ext (some s) (some port) proto get_service_endpoints) ≤ 1)
        × (all
              (λ e. not (is_local ext e.address))
              (get_endpoints ext (some s) (some port) proto get_service_endpoints)
            ≡ true)
  unfolding get_endpoints
  get_endpoints_external external = rw external (external_lem ext s port)
