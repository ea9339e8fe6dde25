-- ===== src/Controller/Removed/Exact.antt =====
-- What the removed hosts, certificates and Ingresses are.
use panda_k8s.Api.Configurations.{Configuration}
use panda_k8s.Api.Heap.{Heap}
use panda_k8s.Api.Servers.{Location, Server}
use panda_k8s.Controller.Removed.{
  identifier, insert_once, over_servers, removed, add_hostname, get_removed_hosts, add_identifier,
  get_removed_certificate_serial_numbers, add_ingress_key, add_ingress_keys, add_ingresses_of,
  get_removed_ingresses,
}
use panda_k8s.Equality.{distinct}
use panda_k8s.Externals.{Externals}
use panda_k8s.Pointers.{Ptr, nil, at, Ptr-cases}
use panda_k8s.Prelude.{
  ℕ, String, Bool, true, false, not, ◌&&◌, ◌||◌, ◌==◌, ==_iff, ◌≡◌, ◌↔◌, refl, sym, subst, ap, List,
  [], ◌∷◌, Option, some, some_eq, some_of_bind, any, In, arith, inl, inr, Bool-cases,
}
use panda_k8s.Sets.Slices.{elems}
use panda_k8s.StringSets.{StringSets}

module _ (ext : Externals) (heap : Heap) (sets : StringSets) where
  open sets use {
    Set, empty, insert, has, list, difference, has-empty, has-insert, has-difference, in-list,
    list-distinct,
  }

  -- what a pointer leads to has the name
  abbrev pub names_pointee : {A : Type 0} → (ℕ → A) → (A → Bool) → Ptr A → Bool
  names_pointee values named nil = false
  names_pointee values named (at n) = named (values n)

  -- a server of the configuration has the name
  abbrev pub names : (Server → Bool) → Configuration → Bool
  names named cfg = any (names_pointee heap.server named) (elems cfg.servers)

  -- the host of a server
  abbrev pub has_hostname : String → Server → Bool
  has_hostname x s = s.hostname == x

  -- the identifier of its certificate, which is not empty
  abbrev pub has_identifier : String → Server → Bool
  has_identifier x s =
      names_pointee heap.ssl_cert (λ c. not (identifier c == "") && identifier c == x) s.ssl_cert

  -- the key of the Ingress of one of its locations
  abbrev pub has_ingress : String → Location → Bool
  has_ingress x l =
      names_pointee heap.ingress (λ i. ext.meta_namespace_key i.namespace i.name == x) l.ingress

  abbrev pub has_ingress_of : String → Server → Bool
  has_ingress_of x s = any (names_pointee heap.location (has_ingress x)) (elems s.locations)

  has-insert_once :
      (s : Set) (x y : String) → has (insert_once ext heap sets s x) y ≡ (x == y || has s y)
  unfolding insert_once
  has-insert_once s x y = elim (Bool-cases (has s x)) [
    | inr missing ↦ rw missing (has-insert s x y)
    | inl there ↦ rw there (elim (Bool-cases (x == y)) [
      | inr other ↦ rw other refl
      | inl same ↦ rw same (subst (λ z. has s z ≡ true) ((==_iff x y).0 same) there)
    ])
  ]

  -- A step adds the names of its server.
  abbrev Adds : (Server → Set → Option Set) → (String → Server → Bool) → Type 0
  Adds step named =
      (server : Server) (s t : Set) (x : String)
      → step server s ≡ some t
      → has t x ≡ (named x server || has s x)

  add_hostname-Adds : Adds (add_hostname ext heap sets) has_hostname
  unfolding add_hostname
  add_hostname-Adds server s t x h =
      subst (λ t. has t x ≡ (server.hostname == x || has s x)) (some_eq h)
        (has-insert_once s server.hostname x)

  add_identifier-Adds : Adds (add_identifier ext heap sets) has_identifier
  unfolding add_identifier
  add_identifier-Adds server s t x h = elim (Ptr-cases server.ssl_cert) [
    | inl none_there ↦
        subst (λ t. has t x ≡ (has_identifier x server || has s x))
          (some_eq (rw (none_there, add_identifier) at h)) (rw none_there refl)
    | inr (n, there) ↦ elim (Bool-cases (identifier (heap.ssl_cert n) == "")) [
      | inl unnamed ↦
          subst (λ t. has t x ≡ (has_identifier x server || has s x))
            (some_eq (rw (there, add_identifier, unnamed) at h)) (rw (there, unnamed) refl)
      | inr named ↦
          subst (λ t. has t x ≡ (has_identifier x server || has s x))
            (some_eq (rw (there, add_identifier, named) at h))
            (rw (there, named) (has-insert_once s (identifier (heap.ssl_cert n)) x))
    ]
  ]

  has-add_ingress_key :
      (l : Location) (s : Set) (x : String)
      → has (add_ingress_key ext heap sets l s) x ≡ (has_ingress x l || has s x)
  unfolding add_ingress_key
  has-add_ingress_key l s x = elim (Ptr-cases l.ingress) [
    | inl none_there ↦ rw (none_there, add_ingress_key) refl
    | inr (n, there) ↦
        rw (there, add_ingress_key)
          (has-insert_once s
            (ext.meta_namespace_key (heap.ingress n).namespace (heap.ingress n).name) x)
  ]

  add_ingress_keys-has :
      (ps : List (Ptr Location)) (s t : Set) (x : String)
      → add_ingress_keys ext heap sets ps s ≡ some t
      → has t x ≡ (any (names_pointee heap.location (has_ingress x)) ps || has s x)
  unfolding add_ingress_keys
  add_ingress_keys-has [] s t x h = ap (λ u. has u x) (sym (some_eq h))
  add_ingress_keys-has (nil ∷ ps) s t x h = cc
  add_ingress_keys-has (at n ∷ ps) s t x h =
      let l = heap.location n in
      let later = add_ingress_keys-has ps (add_ingress_key ext heap sets l s) t x h in
      let now = has-add_ingress_key l s x in ground (arith, later, now)

  add_ingresses_of-Adds : Adds (add_ingresses_of ext heap sets) has_ingress_of
  unfolding add_ingresses_of
  add_ingresses_of-Adds server s t x h = add_ingress_keys-has (elems server.locations) s t x h

  over_servers-has :
      (step : Server → Set → Option Set) (named : String → Server → Bool)
      → Adds step named
      → (ps : List (Ptr Server)) (s t : Set) (x : String)
      → over_servers ext heap sets step ps s ≡ some t
      → has t x ≡ (any (names_pointee heap.server (named x)) ps || has s x)
  unfolding over_servers
  over_servers-has step named adds [] s t x h = ap (λ u. has u x) (sym (some_eq h))
  over_servers-has step named adds (nil ∷ ps) s t x h = cc
  over_servers-has step named adds (at n ∷ ps) s t x h =
      let (u, i, j) =
        some_of_bind (step (heap.server n) s) (over_servers ext heap sets step ps) t h in
      let later = over_servers-has step named adds ps u t x j in
      let now = adds (heap.server n) s u x i in ground (arith, later, now)

  -- the list has, once, the names of the old configuration that the new one does not have
  abbrev pub AreRemoved :
      (String → Server → Bool) → Configuration → Configuration → List String → Type 0
  AreRemoved named rucfg newcfg xs =
      (distinct ◌==◌ xs ≡ true)
      × ((x : String)
          → In x xs ↔ ((names (named x) rucfg ≡ true) × (names (named x) newcfg ≡ false)))

  removed-AreRemoved :
      (step : Server → Set → Option Set) (named : String → Server → Bool)
      → Adds step named
      → (rucfg newcfg : Configuration) (xs : List String)
      → removed ext heap sets step rucfg newcfg ≡ some xs
      → AreRemoved named rucfg newcfg xs
  unfolding removed
  removed-AreRemoved step named adds rucfg newcfg xs h =
      let (old, i, j) =
        some_of_bind (over_servers ext heap sets step (elems rucfg.servers) empty) (λ old. _) xs
          h in
      let (new, k, l) =
        some_of_bind (over_servers ext heap sets step (elems newcfg.servers) empty) (λ new. _) xs
          j in
      subst (AreRemoved named rucfg newcfg) (some_eq l) (
        list-distinct (difference old new),
        λ x.
            let in_old = over_servers-has step named adds (elems rucfg.servers) empty old x i in
            let in_new = over_servers-has step named adds (elems newcfg.servers) empty new x k in
            ground (
              arith,
              in_old,
              in_new,
              has-empty x,
              has-difference old new x,
              in-list (difference old new) x,
            ),
      )

  -- What getRemovedHosts, getRemovedCertificateSerialNumbers and getRemovedIngresses return, if they
  -- do not panic, are exactly the hosts of the servers, the identifiers of their certificates, and the
  -- keys of the Ingresses of their locations that the old configuration has and the new one has not,
  -- each of them once.
  pub get_removed-AreRemoved :
      (rucfg newcfg : Configuration) (hosts certificates ingresses : List String)
      → get_removed_hosts ext heap sets rucfg newcfg ≡ some hosts
      → get_removed_certificate_serial_numbers ext heap sets rucfg newcfg ≡ some certificates
      → get_removed_ingresses ext heap sets rucfg newcfg ≡ some ingresses
      → AreRemoved has_hostname rucfg newcfg hosts
        × AreRemoved has_identifier rucfg newcfg certificates
        × AreRemoved has_ingress_of rucfg newcfg ingresses
  unfolding get_removed_hosts get_removed_certificate_serial_numbers get_removed_ingresses
  get_removed-AreRemoved rucfg newcfg hosts certificates ingresses h k l = (
    removed-AreRemoved (add_hostname ext heap sets) has_hostname add_hostname-Adds rucfg newcfg
        hosts h,
    removed-AreRemoved (add_identifier ext heap sets) has_identifier add_identifier-Adds rucfg
        newcfg certificates k,
    removed-AreRemoved (add_ingresses_of ext heap sets) has_ingress_of add_ingresses_of-Adds rucfg
        newcfg ingresses l,
  )
