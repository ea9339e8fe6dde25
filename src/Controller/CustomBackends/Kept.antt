-- ===== src/Controller/CustomBackends/Kept.antt =====
-- The loop over the upstreams keeps the servers and the paths of their locations, and a location whose
-- backend changes gets one that is appended to the upstreams.
use panda_k8s.Api.Backends.{Endpoint, Backend}
use panda_k8s.Api.Heap.{Heap}
use panda_k8s.Api.Servers.{Location, Server}
use panda_k8s.Controller.BackendServers.Backed.{IsDraft}
use panda_k8s.Controller.BackendServers.Covered.{KeepsServers, KeepsServers-refl}
use panda_k8s.Controller.BackendServers.Paths.{KeepsPaths}
use panda_k8s.Controller.CreateServers.Backed.{Backed}
use panda_k8s.Controller.CreateUpstreams.{is_no_list}
use panda_k8s.Controller.CustomBackends.{
  should_create, custom_name, with_custom, Scanned, scan_service, scan_location, scan_locations,
  scan_servers,
}
use panda_k8s.Controller.Drafts.{Draft, Drafts}
use panda_k8s.Controller.Endpoints.{get_endpoints}
use panda_k8s.Controller.Store.{Store}
use panda_k8s.Externals.{Externals}
use panda_k8s.Kube.{Service, ServicePort}
use panda_k8s.Pointers.{Ptr, nil, at}
use panda_k8s.Prelude.{
  String, false, ◌==◌, ◌≡◌, ◌⊎◌, refl, sym, subst, ◌∙◌, List, [], ◌∷◌, ◌++◌, some, some_eq, lookup,
  In, All, All_map, if_holds, inl, inr, Bool-cases,
}
use panda_k8s.Sets.Slices.{elems}

-- a backend of the list has the name
abbrev pub InNames : String → List Backend → Type 0
InNames name bs = (b : Backend) × In b bs × (b.name ≡ name)

In-append_left : {A : Type 0} (a : A) (xs ys : List A) → In a xs → In a (xs ++ ys)
In-append_left a [] ys h = absurd h
In-append_left a (x ∷ xs) ys (inl h) = inl h
In-append_left a (x ∷ xs) ys (inr h) = inr (In-append_left a xs ys h)

In-append_right : {A : Type 0} (a : A) (xs ys : List A) → In a ys → In a (xs ++ ys)
In-append_right a [] ys h = h
In-append_right a (x ∷ xs) ys h = inr (In-append_right a xs ys h)

pub InNames-append_left :
    (name : String) (bs cs : List Backend) → InNames name bs → InNames name (bs ++ cs)
InNames-append_left name bs cs (b, i, e) = (b, In-append_left b bs cs i, e)

pub InNames-append_right :
    (name : String) (bs cs : List Backend) → InNames name cs → InNames name (bs ++ cs)
InNames-append_right name bs cs (b, i, e) = (b, In-append_right b bs cs i, e)

-- the name had the property, or is one of a new backend
abbrev pub OrNew : (String → Type 0) → List Backend → String → Type 0
OrNew Q bs name = Q name ⊎ InNames name bs

OrNew-left :
    (Q : String → Type 0) (bs cs : List Backend) (s : String) → OrNew Q bs s → OrNew Q (bs ++ cs) s
OrNew-left Q bs cs s (inl q) = inl q
OrNew-left Q bs cs s (inr i) = inr (InNames-append_left s bs cs i)

OrNew-right :
    (Q : String → Type 0) (bs cs : List Backend) (s : String) → OrNew Q cs s → OrNew Q (bs ++ cs) s
OrNew-right Q bs cs s (inl q) = inl q
OrNew-right Q bs cs s (inr i) = inr (InNames-append_right s bs cs i)

-- The location keeps its path, and its backend or has a new one.
abbrev Keeps : Location → Location → List Backend → Type 0
Keeps l m bs =
    (m.path ≡ l.path)
    × (m.path_type ≡ l.path_type)
    × ((m.backend ≡ l.backend) ⊎ InNames m.backend bs)

abbrev KeepsScanned : Location → Scanned → Type 0
KeepsScanned l one = Keeps l one.location one.backends

with_custom-Keeps :
    (upstream : Backend) (svc : Service) (loc : Location) (es : List Endpoint)
    → Keeps loc (with_custom upstream svc loc es).0 (with_custom upstream svc loc es).1
unfolding with_custom
with_custom-Keeps upstream svc loc [] = (refl, refl, inl refl)
with_custom-Keeps upstream svc loc (e ∷ es) = (
  refl,
  refl,
  if_holds (λ name. (name ≡ loc.backend) ⊎ InNames name ((with_custom upstream svc loc (e ∷ es)).1))
      (is_no_list (elems upstream.endpoints)) (custom_name svc) loc.backend
      (λ bare. inr (_, inl refl, refl)) (λ served. inl refl),
)

module _ (ext : Externals) (heap : Heap) (store : Store) where
  scan_service-Keeps :
      (upstream : Backend) (server : Server) (loc : Location) (svc : Service)
      (ports : List ServicePort)
      → KeepsScanned loc (scan_service ext heap store upstream server loc svc ports)
  unfolding scan_service
  scan_service-Keeps upstream server loc svc [] = (refl, refl, inl refl)
  scan_service-Keeps upstream server loc svc (port ∷ ports) =
      with_custom-Keeps upstream svc loc
        (get_endpoints ext (some svc) (some port) "TCP" store.get_service_endpoints)

  scan_location-Keeps :
      (upstream : Backend) (server : Server) (loc : Location)
      → KeepsScanned loc (scan_location ext heap store upstream server loc)
  unfolding scan_location
  scan_location-Keeps upstream server loc = elim (Bool-cases (should_create upstream loc)) [
    | inr unchanged ↦ rw unchanged (refl, refl, inl refl)
    | inl creates ↦ rw creates (of_default loc.default_backend)
  ]
    where
      of_default :
          (p : Ptr Service)
          → KeepsScanned loc (elim p [
            | nil ↦ record { location = loc; backends = []; is_https = false }
            | at n ↦
                scan_service ext heap store upstream server loc
                  (heap.service n)
                  (heap.service n).ports
          ])
      of_default nil = (refl, refl, inl refl)
      of_default (at n) =
          scan_service-Keeps upstream server loc (heap.service n) (heap.service n).ports

  scan_locations-KeepsPaths :
      (upstream : Backend) (server : Server) (ls : List Location)
      → KeepsPaths ls (scan_locations ext heap store upstream server ls).scanned
  unfolding scan_locations
  scan_locations-KeepsPaths upstream server [] path type h = h
  scan_locations-KeepsPaths upstream server (l ∷ ls) path type (inr h) =
      inr (scan_locations-KeepsPaths upstream server ls path type h)
  scan_locations-KeepsPaths upstream server (l ∷ ls) path type (inl (e, t)) =
      let (p, q, _) = scan_location-Keeps upstream server l in inl (p ∙ e, rw q t)

  scan_locations-Backed :
      (Q : String → Type 0) (upstream : Backend) (server : Server) (ls : List Location)
      → Backed Q ls
      → Backed
          (OrNew Q (scan_locations ext heap store upstream server ls).new_backends)
          (scan_locations ext heap store upstream server ls).scanned
  unfolding scan_locations
  scan_locations-Backed Q upstream server [] a = tt
  scan_locations-Backed Q upstream server (l ∷ ls) (q, a) =
      let one = scan_location ext heap store upstream server l in
      let rest = scan_locations ext heap store upstream server ls in
      let (_, _, k) = scan_location-Keeps upstream server l in
      (
        elim k [
          | inl same ↦ inl (subst Q (sym same) q)
          | inr new ↦
              inr (InNames-append_left one.location.backend one.backends rest.new_backends new)
        ],
        All_map (λ m. OrNew-right Q one.backends rest.new_backends m.backend) rest.scanned
            (scan_locations-Backed Q upstream server ls a),
      )

  pub scan_servers-KeepsServers :
      (upstream : Backend) (u : Drafts)
      → KeepsServers u (scan_servers ext heap store upstream u).scanned
  unfolding scan_servers lookup
  scan_servers-KeepsServers upstream [] = KeepsServers-refl []
  scan_servers-KeepsServers upstream ((host, d) ∷ ds) = record {
    missing = λ k h. elim (Bool-cases (host == k)) [
      | inl here ↦ let clash = rw here at h in cc
      | inr other ↦ rw other ((scan_servers-KeepsServers upstream ds).missing k (rw other at h))
    ];
    kept = λ k e h. elim (Bool-cases (host == k)) [
      | inl here ↦ (
        record d {
          locations = (scan_locations ext heap store upstream d.server d.locations).scanned;
        },
        rw here refl,
        subst
            (λ (x : Draft).
              KeepsPaths x.locations
                (scan_locations ext heap store upstream d.server d.locations).scanned)
            (some_eq (rw here at h)) (scan_locations-KeepsPaths upstream d.server d.locations),
      )
      | inr other ↦
          let (f, i, j) = (scan_servers-KeepsServers upstream ds).kept k e (rw other at h) in
          (f, rw other i, j)
    ];
  }

  pub scan_servers-IsDraft :
      (Q : String → Type 0) (upstream : Backend) (u : Drafts)
      → All (λ e. IsDraft Q e.0 e.1) u
      → All
          (λ e. IsDraft (OrNew Q (scan_servers ext heap store upstream u).new_backends) e.0 e.1)
          (scan_servers ext heap store upstream u).scanned
  unfolding scan_servers
  scan_servers-IsDraft Q upstream [] a = tt
  scan_servers-IsDraft Q upstream ((host, d) ∷ ds) ((h, q), a) =
      let one = scan_locations ext heap store upstream d.server d.locations in
      let rest = scan_servers ext heap store upstream ds in
      (
        (
          h,
          All_map (λ m. OrNew-left Q one.new_backends rest.new_backends m.backend) one.scanned
              (scan_locations-Backed Q upstream d.server d.locations q),
        ),
        All_map
            (λ e k. (
              k.0,
              All_map (λ m. OrNew-right Q one.new_backends rest.new_backends m.backend)
                  e.1.locations k.1,
            ))
            rest.scanned (scan_servers-IsDraft Q upstream ds a),
      )
