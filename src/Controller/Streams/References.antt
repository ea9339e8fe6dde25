-- ===== src/Controller/Streams/References.antt =====
-- Which services `getStreamServices` returns: exactly those that its entries stand for.
use panda_k8s.Api.Backends.{Endpoint, L4Service}
use panda_k8s.Api.Heap.{Heap}
use panda_k8s.Controller.Endpoints.{get_endpoints}
use panda_k8s.Controller.Store.{Store, Options}
use panda_k8s.Controller.Streams.{
  StreamRef, stream_ref, proxy_protocol, is_stream_port, is_reserved, stream_endpoints, l4_service,
  referred_service, stream_service, by_port, get_stream_services,
}
use panda_k8s.Externals.{Externals}
use panda_k8s.Kube.{Service, ServicePort}
use panda_k8s.Pointers.{at}
use panda_k8s.Names.{parse_name_ns}
use panda_k8s.Prelude.{
  ℕ, String, false, ◌==◌, ◌≡◌, ◌≢◌, ◌↔◌, ap, ==_iff, refl, sym, ◌∙◌, ℤ, List, [], ◌∷◌, Option, none,
  some, some_of_bind, some_eq, first, In, filter_map, In-filter_map, In-sort, atoi, split, inl, inr,
  Bool-cases, Option-cases,
}
use panda_k8s.Sets.Slices.{elems, made, elems-appended}
use panda_k8s.Controller.Streams.Sound.{all_services}

module _ (cfg : Options) (ext : Externals) (heap : Heap) (store : Store) (proto : String) where
  -- The service stands for the entry: the port of the entry is a number that is not reserved, and
  -- its reference names a Service that is there and has endpoints at a port of the protocol.
  pub record StandsFor (e : String × String) (s : L4Service) : Type 0 where
    pub ns_name : String
    pub svc_port : String
    pub options : List String
    pub names : String × String
    pub target : ℕ
    pub service_port : ServicePort
    pub is_number : (atoi e.0).is_error ≡ false
    pub not_reserved : is_reserved cfg (atoi e.0).number ≡ false
    pub has_parts : split b':' e.1 ≡ ns_name ∷ svc_port ∷ options
    pub is_name : parse_name_ns ns_name ≡ some names
    pub is_there : store.get_service ns_name ≡ some target
    pub has_port :
        first (is_stream_port proto svc_port) (heap.service target).ports ≡ some service_port
    pub some_endpoint :
        get_endpoints ext
          (some (heap.service target))
          (some service_port)
          proto
          store.get_service_endpoints
        ≢ []
    pub is_service : s ≡ record {
      port = (atoi e.0).number;
      backend = record {
        port = ext.from_string svc_port;
        name = names.1;
        namespace = names.0;
        protocol = proto;
        proxy_protocol = proxy_protocol proto options;
      };
      endpoints = made (
          get_endpoints ext
            (some (heap.service target))
            (some service_port)
            proto
            store.get_service_endpoints);
      service = at target;
    }

  -- of a list of endpoints that is not empty
  l4_service-some :
      (port : ℤ) (ref : StreamRef) (names : String × String) (n : ℕ) (es : List Endpoint)
      (s : L4Service)
      → (l4_service cfg ext heap store proto port ref names n es ≡ some s) ↔ (
          (es ≢ [])
          × (s ≡ record {
            port = port;
            backend = record {
              port = ext.from_string ref.svc_port;
              name = names.1;
              namespace = names.0;
              protocol = proto;
              proxy_protocol = proxy_protocol proto ref.options;
            };
            endpoints = made es;
            service = at n;
          }))
  l4_service-some port ref names n [] s = (λ h. cc, λ p. absurd (p.0 refl))
  l4_service-some port ref names n (e ∷ es) s =
      (λ h. (λ k. cc, sym (some_eq h)), λ p. ap some (sym p.1))

  stream_endpoints_at :
      (svc_port : String) (svc : Service) (sp : ServicePort)
      → first (is_stream_port proto svc_port) svc.ports ≡ some sp
      → stream_endpoints cfg ext heap store proto svc_port svc
        ≡ get_endpoints ext (some svc) (some sp) proto store.get_service_endpoints
  unfolding stream_endpoints
  stream_endpoints_at svc_port svc sp h = rw (h, stream_endpoints) refl

  stream_endpoints-none :
      (svc_port : String) (svc : Service)
      → first (is_stream_port proto svc_port) svc.ports ≡ none
      → stream_endpoints cfg ext heap store proto svc_port svc ≡ []
  unfolding stream_endpoints
  stream_endpoints-none svc_port svc h = rw (h, stream_endpoints) refl

  stream_ref_parts :
      (parts : List String) (ref : StreamRef)
      → stream_ref parts ≡ some ref
      → parts ≡ ref.ns_name ∷ ref.svc_port ∷ ref.options
  stream_ref_parts [] ref h = cc
  stream_ref_parts (a ∷ []) ref h = cc
  stream_ref_parts (a ∷ b ∷ rest) ref h =
      ap (λ (r : StreamRef). r.ns_name ∷ r.svc_port ∷ r.options) (some_eq h)

  referred_service-StandsFor :
      (e : String × String) (ref : StreamRef) (s : L4Service)
      → (atoi e.0).is_error ≡ false
      → is_reserved cfg (atoi e.0).number ≡ false
      → split b':' e.1 ≡ ref.ns_name ∷ ref.svc_port ∷ ref.options
      → referred_service cfg ext heap store proto (atoi e.0).number ref ≡ some s
      → StandsFor e s
  unfolding referred_service
  referred_service-StandsFor e ref s good free parts h =
      let (names, named, k) = some_of_bind (parse_name_ns ref.ns_name) (λ names. _) s h in
      let (n, there, l) = some_of_bind (store.get_service ref.ns_name) (λ n. _) s k in
      elim (Option-cases (first (is_stream_port proto ref.svc_port) (heap.service n).ports)) [
        | inl missing ↦
            let m = rw (stream_endpoints-none ref.svc_port (heap.service n) missing) at l in cc
        | inr (sp, found) ↦
            let m = rw (stream_endpoints_at ref.svc_port (heap.service n) sp found) at l in
            let (some_there, is_it) =
              (l4_service-some (atoi e.0).number ref names n
                  (get_endpoints ext (some (heap.service n)) (some sp) proto
                    store.get_service_endpoints)
                  s).0
                m in
            record {
              ns_name = ref.ns_name;
              svc_port = ref.svc_port;
              options = ref.options;
              names = names;
              target = n;
              service_port = sp;
              is_number = good;
              not_reserved = free;
              has_parts = parts;
              is_name = named;
              is_there = there;
              has_port = found;
              some_endpoint = some_there;
              is_service = is_it;
            }
      ]

  stream_service-StandsFor :
      (e : String × String) (s : L4Service)
      → stream_service cfg ext heap store proto e ≡ some s
      → StandsFor e s
  unfolding stream_service
  stream_service-StandsFor (port, svc_ref) s h = elim (Bool-cases (atoi port).is_error) [
    | inl bad ↦ let k = rw bad at h in cc
    | inr good ↦ elim (Bool-cases (is_reserved cfg (atoi port).number)) [
      | inl taken ↦ let k = rw (good, taken) at h in cc
      | inr free ↦
          let (ref, parts, k) =
            some_of_bind (stream_ref (split b':' svc_ref))
              (referred_service cfg ext heap store proto (atoi port).number) s
              (rw (good, free) at h) in
          referred_service-StandsFor (port, svc_ref) ref s good free
            (stream_ref_parts (split b':' svc_ref) ref parts) k
    ]
  ]

  StandsFor-stream_service :
      (e : String × String) (s : L4Service)
      → StandsFor e s
      → stream_service cfg ext heap store proto e ≡ some s
  unfolding stream_service referred_service
  StandsFor-stream_service e s f =
      let ref : StreamRef = record {
        ns_name = f.ns_name;
        svc_port = f.svc_port;
        options = f.options;
      } in
      rw
        (
          f.is_number,
          f.not_reserved,
          f.has_parts,
          f.is_name,
          f.is_there,
          stream_endpoints_at f.svc_port (heap.service f.target) f.service_port f.has_port,
        )
        ((l4_service-some (atoi e.0).number ref f.names f.target
            (get_endpoints ext (some (heap.service f.target)) (some f.service_port) proto
              store.get_service_endpoints)
            s).1
          (f.some_endpoint, f.is_service))

  -- If the name of the ConfigMap is a valid reference, and the ConfigMap is there, a service is
  -- returned exactly if it stands for one of its entries: the port of the entry is a number that is
  -- not reserved, its reference has a name and a port, the name is a valid one of a Service that is
  -- there, and that Service has endpoints at its first port of the protocol that is so named.
  pub In-get_stream_services :
      (name : String) (names : String × String) (entries : List (String × String))
      → parse_name_ns name ≡ some names
      → store.get_config_map name ≡ some entries
      → (s : L4Service)
      → In s (elems (get_stream_services cfg ext heap store proto name))
        ↔ ((e : String × String) × In e entries × StandsFor e s)
  unfolding get_stream_services
  In-get_stream_services name names entries h k s = (
    λ i.
        let (e, m, f) =
          (In-filter_map service s entries).0
            ((In-sort by_port s (filter_map service entries)).0 (rw all at i)) in
        (e, m, stream_service-StandsFor e s f),
    λ (e, m, f). rw all (
        (In-sort by_port s (filter_map service entries)).1
          ((In-filter_map service s entries).1 (e, m, StandsFor-stream_service e s f))),
  )
    where
      service : String × String → Option L4Service
      service = stream_service cfg ext heap store proto

      all :
          elems (get_stream_services cfg ext heap store proto name)
          ≡ all_services cfg ext heap store proto entries
      all = elim (Bool-cases (name == "")) [
        | inl unnamed ↦ let e = sym h ∙ ap parse_name_ns ((==_iff name "").0 unnamed) in cc
        | inr named ↦
            rw (named, h, k) (elems-appended (all_services cfg ext heap store proto entries))
      ]
