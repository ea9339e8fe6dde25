-- ===== src/Controller/Endpoints/Complete.antt =====
-- `getEndpoints` returns exactly what the selected ports of the subsets offer.
use mathlib.Core.Path.{subst}
use panda_k8s.Controller.Endpoints.{
  EndpointPort, EndpointAddress, EndpointSubset, Found, add_addresses, is_last, is_named,
  target_port_of, matched_after, scan_port, scan_ports, scan_subsets, get_endpoints,
}
use panda_k8s.Controller.Endpoints.Distinct.{
  host_port, add_address, empty, empty-IsTracked, scan_subsets-IsTracked,
}
use panda_k8s.Externals.{Externals}
use panda_k8s.Kube.{Service, ServicePort}
use panda_k8s.Prelude.{
  String, Bool, true, false, ◌==◌, ==_iff, ◌≡◌, sym, ◌∙◌, ℤ, is_positive, List, [], ◌∷◌, Option,
  some, any, In, inl, inr, arith, itoa, join_host_port,
}

abbrev is_found : String → Found → Bool
is_found key f = any (λ k. k == key) f.processed

abbrev key_of : EndpointAddress → ℤ → String
key_of a t = join_host_port a.ip (itoa t)

add_address-keeps :
    (t : ℤ) (a : EndpointAddress) (key : String) (f : Found)
    → is_found key f ≡ true
    → is_found key (add_address t a f) ≡ true
add_address-keeps t a key f h = ground arith

add_address-finds :
    (t : ℤ) (a : EndpointAddress) (f : Found) → is_found (key_of a t) (add_address t a f) ≡ true
add_address-finds t a f = ground (arith, ==_iff (key_of a t) (key_of a t))

add_addresses-keeps :
    (t : ℤ) (xs : List EndpointAddress) (key : String) (f : Found)
    → is_found key f ≡ true
    → is_found key (add_addresses t xs f) ≡ true
unfolding add_addresses
add_addresses-keeps t [] key f h = h
add_addresses-keeps t (a ∷ xs) key f h =
    add_addresses-keeps t xs key (add_address t a f) (add_address-keeps t a key f h)

add_addresses-finds :
    (t : ℤ) (xs : List EndpointAddress) (a : EndpointAddress) (f : Found)
    → In a xs
    → is_found (key_of a t) (add_addresses t xs f) ≡ true
unfolding add_addresses
add_addresses-finds t [] a f m = absurd m
add_addresses-finds t (b ∷ xs) a f (inl e) =
    rw e (add_addresses-keeps t xs (key_of b t) (add_address t b f) (add_address-finds t b f))
add_addresses-finds t (b ∷ xs) a f (inr m) = add_addresses-finds t xs a (add_address t b f) m

module _ (port : ServicePort) (proto : String) where
  -- the port selects this endpoint port, by its name and protocol
  abbrev pub Selects : EndpointPort → Type 0
  Selects p =
      ((p.protocol == proto) ≡ true) × (is_named port proto p ≡ true) × (is_positive p.port ≡ true)

  scan_port-keeps :
      (xs : List EndpointAddress) (last matched : Bool) (p : EndpointPort) (key : String)
      (f : Found)
      → is_found key f ≡ true
      → is_found key (scan_port port proto xs last matched p f) ≡ true
  unfolding scan_port
  scan_port-keeps xs last matched p key f h =
      ground (arith, add_addresses-keeps (target_port_of port proto p last matched) xs key f h)

  scan_port-finds :
      (xs : List EndpointAddress) (last matched : Bool) (p : EndpointPort) (a : EndpointAddress)
      (f : Found)
      → Selects p
      → In a xs
      → is_found
          (key_of a p.port)
          (scan_port port proto xs last (matched_after port proto matched p) p f)
        ≡ true
  unfolding scan_port
  scan_port-finds xs last matched p a f h m = ground (arith, add_addresses-finds p.port xs a f m)

  scan_ports-keeps :
      (xs : List EndpointAddress) (ps : List EndpointPort) (matched : Bool) (key : String)
      (f : Found)
      → is_found key f ≡ true
      → is_found key (scan_ports port proto xs matched ps f) ≡ true
  unfolding scan_ports
  scan_ports-keeps xs [] matched key f h = h
  scan_ports-keeps xs (p ∷ ps) matched key f h =
      let m = matched_after port proto matched p in
      scan_ports-keeps xs ps m key (scan_port port proto xs (is_last ps) m p f)
        (scan_port-keeps xs (is_last ps) m p key f h)

  scan_ports-finds :
      (xs : List EndpointAddress) (ps : List EndpointPort) (matched : Bool) (p : EndpointPort)
      (a : EndpointAddress) (f : Found)
      → In p ps
      → Selects p
      → In a xs
      → is_found (key_of a p.port) (scan_ports port proto xs matched ps f) ≡ true
  unfolding scan_ports
  scan_ports-finds xs [] matched p a f i h m = absurd i
  scan_ports-finds xs (q ∷ ps) matched p a f (inl e) h m =
      scan_ports-keeps xs ps (matched_after port proto matched q) (key_of a p.port)
        (scan_port port proto xs (is_last ps) (matched_after port proto matched q) q f)
        (subst
          (λ (r : EndpointPort).
            is_found (key_of a p.port)
              (scan_port port proto xs (is_last ps) (matched_after port proto matched r) r f)
            ≡ true)
          e (scan_port-finds xs (is_last ps) matched p a f h m))
  scan_ports-finds xs (q ∷ ps) matched p a f (inr i) h m =
      scan_ports-finds xs ps (matched_after port proto matched q) p a
        (scan_port port proto xs (is_last ps) (matched_after port proto matched q) q f) i h m

  scan_subsets-keeps :
      (ss : List EndpointSubset) (key : String) (f : Found)
      → is_found key f ≡ true
      → is_found key (scan_subsets port proto ss f) ≡ true
  unfolding scan_subsets
  scan_subsets-keeps [] key f h = h
  scan_subsets-keeps (s ∷ ss) key f h =
      scan_subsets-keeps ss key (scan_ports port proto s.addresses false s.ports f)
        (scan_ports-keeps s.addresses s.ports false key f h)

  scan_subsets-finds :
      (ss : List EndpointSubset) (s : EndpointSubset) (p : EndpointPort) (a : EndpointAddress)
      (f : Found)
      → In s ss
      → In p s.ports
      → Selects p
      → In a s.addresses
      → is_found (key_of a p.port) (scan_subsets port proto ss f) ≡ true
  unfolding scan_subsets
  scan_subsets-finds [] s p a f i ip h m = absurd i
  scan_subsets-finds (t ∷ ss) s p a f (inl e) ip h m =
      scan_subsets-keeps ss (key_of a p.port) (scan_ports port proto t.addresses false t.ports f) (
        subst
          (λ (r : EndpointSubset).
            is_found (key_of a p.port) (scan_ports port proto r.addresses false r.ports f) ≡ true)
          e (scan_ports-finds s.addresses s.ports false p a f ip h m))
  scan_subsets-finds (t ∷ ss) s p a f (inr i) ip h m =
      scan_subsets-finds ss s p a (scan_ports port proto t.addresses false t.ports f) i ip h m

module _ (ext : Externals) (s : Service) (port : ServicePort) (proto : String)
    (get_service_endpoints : String → Option (List EndpointSubset)) where
  -- Of a Service that is not of type ExternalName and whose endpoints can be read: every address of
  -- a subset is returned, with the number of every port of the subset that has the protocol, a
  -- positive number and the name of the Service's port (any name, if that has none).
  pub get_endpoints_complete :
      (subsets : List EndpointSubset) (ss : EndpointSubset) (p : EndpointPort) (a : EndpointAddress)
      → (s.service_type == "ExternalName") ≡ false
      → get_service_endpoints (ext.meta_namespace_key s.namespace s.name) ≡ some subsets
      → In ss subsets
      → In p ss.ports
      → Selects port proto p
      → In a ss.addresses
      → any
          (λ e. host_port e == join_host_port a.ip (itoa p.port))
          (get_endpoints ext (some s) (some port) proto get_service_endpoints)
        ≡ true
  unfolding get_endpoints
  get_endpoints_complete subsets ss p a internal read i ip h m = rw internal (
      rw read (
        sym (
          (scan_subsets-IsTracked port proto subsets empty empty-IsTracked).tracked
            (key_of a p.port))
        ∙ scan_subsets-finds port proto subsets ss p a empty i ip h m))
