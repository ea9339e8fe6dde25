-- ===== src/Controller/Streams/Sound.antt =====
-- What `getStreamServices` returns: the services of all entries that name one, sorted by port.
use panda_k8s.Api.Backends.{Endpoint, L4Service}
use panda_k8s.Api.Heap.{Heap}
use panda_k8s.Controller.Endpoints.{get_endpoints}
use panda_k8s.Controller.Endpoints.Distinct.{same_host_port, get_endpoints-distinct}
use panda_k8s.Controller.Store.{Store, Options}
use panda_k8s.Controller.Streams.{
  StreamRef, stream_ref, proxy_protocol, is_stream_port, is_reserved, stream_endpoints, l4_service,
  referred_service, stream_service, by_port, get_stream_services,
}
use panda_k8s.Equality.{distinct}
use panda_k8s.Externals.{Externals}
use panda_k8s.Kube.{Service}
use panda_k8s.Names.{parse_name_ns}
use panda_k8s.Prelude.{
  ℕ, String, true, false, ◌==◌, ◌≡◌, ◌≢◌, ◌⊎◌, refl, subst, ℤ, int_lt_asymmetric, int_lt_transitive,
  List, [], ◌∷◌, none, some, some_of_bind, some_eq, first, sort, All, IsSorted, filter_map,
  filter_map-All, sort-All, sort-IsSorted, atoi, split, inl, inr, Bool-cases, Option-cases,
}
use panda_k8s.Sets.Slices.{elems, elems-appended}

module _ (cfg : Options) (ext : Externals) (heap : Heap) (store : Store) (proto : String) where
  -- A service that nginx can be configured with.
  pub record IsServed (s : L4Service) : Type 0 where
    pub not_reserved : is_reserved cfg s.port ≡ false
    pub not_empty : elems s.endpoints ≢ []
    pub no_twice : distinct same_host_port (elems s.endpoints) ≡ true
    pub no_proxy :
        (proto == "TCP") ≡ false
        → s.backend.proxy_protocol ≡ record { decode = false; encode = false }

  stream_endpoints-distinct :
      (svc_port : String) (svc : Service)
      → distinct same_host_port (stream_endpoints cfg ext heap store proto svc_port svc) ≡ true
  unfolding stream_endpoints
  stream_endpoints-distinct svc_port svc =
      elim (first (is_stream_port proto svc_port) svc.ports)
        as (λ o.
          distinct same_host_port (elim o [
            | none ↦ []
            | some sp ↦ get_endpoints ext (some svc) (some sp) proto store.get_service_endpoints
          ])
          ≡ true) [
            | none ↦ refl
            | some sp ↦
                get_endpoints-distinct ext (some svc) (some sp) proto store.get_service_endpoints
          ]

  proxy_protocol_off :
      (options : List String)
      → (proto == "TCP") ≡ false
      → proxy_protocol proto options ≡ record { decode = false; encode = false }
  proxy_protocol_off [] h = refl
  proxy_protocol_off (a ∷ []) h = rw h refl
  proxy_protocol_off (a ∷ b ∷ []) h = rw h refl
  proxy_protocol_off (a ∷ b ∷ c ∷ rest) h = rw h refl

  l4_service-IsServed :
      (port : ℤ) (ref : StreamRef) (names : String × String) (n : ℕ) (es : List Endpoint)
      (s : L4Service)
      → is_reserved cfg port ≡ false
      → distinct same_host_port es ≡ true
      → l4_service cfg ext heap store proto port ref names n es ≡ some s
      → IsServed s
  l4_service-IsServed port ref names n [] s free once h = cc
  l4_service-IsServed port ref names n (e ∷ es) s free once h = subst IsServed (some_eq h) (record {
    not_reserved = free;
    not_empty = λ k. cc;
    no_twice = once;
    no_proxy = proxy_protocol_off ref.options;
  })

  referred_service-IsServed :
      (port : ℤ) (ref : StreamRef) (s : L4Service)
      → is_reserved cfg port ≡ false
      → referred_service cfg ext heap store proto port ref ≡ some s
      → IsServed s
  unfolding referred_service
  referred_service-IsServed port ref s free h =
      let (names, _, k) = some_of_bind (parse_name_ns ref.ns_name) (λ names. _) s h in
      let (n, _, l) = some_of_bind (store.get_service ref.ns_name) (λ n. _) s k in
      l4_service-IsServed port ref names n
        (stream_endpoints cfg ext heap store proto ref.svc_port (heap.service n)) s free
        (stream_endpoints-distinct ref.svc_port (heap.service n)) l

  stream_service-IsServed :
      (e : String × String) (s : L4Service)
      → stream_service cfg ext heap store proto e ≡ some s
      → IsServed s
  unfolding stream_service
  stream_service-IsServed (port, svc_ref) s h = elim (Bool-cases (atoi port).is_error) [
    | inl bad ↦ let k = rw bad at h in cc
    | inr good ↦ elim (Bool-cases (is_reserved cfg (atoi port).number)) [
      | inl taken ↦ let k = rw (good, taken) at h in cc
      | inr free ↦
          let (ref, _, k) =
            some_of_bind (stream_ref (split b':' svc_ref))
              (referred_service cfg ext heap store proto (atoi port).number) s
              (rw (good, free) at h) in
          referred_service-IsServed (atoi port).number ref s free k
    ]
  ]

  -- the services that the entries name
  abbrev pub all_services : List (String × String) → List L4Service
  all_services entries = sort by_port (filter_map (stream_service cfg ext heap store proto) entries)

  -- Nothing is returned, or the services of the ConfigMap.
  get_stream_services-cases :
      (name : String)
      → (elems (get_stream_services cfg ext heap store proto name) ≡ [])
        ⊎ ((entries : List (String × String)) × (elems
                (get_stream_services cfg ext heap store proto name)
              ≡ all_services entries))
  unfolding get_stream_services
  get_stream_services-cases name = elim (Bool-cases (name == "")) [
    | inl unnamed ↦ inl (rw unnamed refl)
    | inr named ↦ elim (Option-cases (parse_name_ns name)) [
      | inl invalid ↦ inl (rw (named, invalid) refl)
      | inr (names, valid) ↦ elim (Option-cases (store.get_config_map name)) [
        | inl missing ↦ inl (rw (named, valid, missing) refl)
        | inr (entries, found) ↦
            inr (entries, rw (named, valid, found) (elems-appended (all_services entries)))
      ]
    ]
  ]

  -- Every stream service has a port that is not reserved, an endpoint and no endpoint twice, and
  -- speaks the PROXY protocol only over TCP, whatever the ConfigMap holds.
  pub get_stream_services-IsServed :
      (name : String) → All IsServed (elems (get_stream_services cfg ext heap store proto name))
  get_stream_services-IsServed name = elim (get_stream_services-cases name) [
    | inl nothing ↦ rw nothing tt
    | inr (entries, sorted) ↦ rw sorted (
        sort-All by_port IsServed (filter_map (stream_service cfg ext heap store proto) entries) (
          filter_map-All (stream_service cfg ext heap store proto) IsServed entries
            stream_service-IsServed))
  ]

  -- Every service stands before those with a higher port.
  pub get_stream_services-IsSorted :
      (name : String) → IsSorted by_port (elems (get_stream_services cfg ext heap store proto name))
  get_stream_services-IsSorted name = elim (get_stream_services-cases name) [
    | inl nothing ↦ rw nothing tt
    | inr (entries, sorted) ↦ rw sorted (
        sort-IsSorted by_port (λ a b. int_lt_asymmetric a.port b.port)
          (λ a b c. int_lt_transitive a.port b.port c.port)
          (filter_map (stream_service cfg ext heap store proto) entries))
  ]
