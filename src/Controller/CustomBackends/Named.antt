-- ===== src/Controller/CustomBackends/Named.antt =====
-- The loop over the upstreams as a whole: no server, path or upstream is lost, and every location has
-- the name of a backend that is returned.
use panda_k8s.Api.Backends.{Backend}
use panda_k8s.Api.Heap.{Heap}
use panda_k8s.Controller.BackendServers.Backed.{IsDraft}
use panda_k8s.Controller.BackendServers.Covered.{
  KeepsServers, KeepsServers-refl, KeepsServers-trans,
}
use panda_k8s.Controller.Canary.{Upstreams, def_upstream_name}
use panda_k8s.Controller.CustomBackends.{scan_servers, scan_upstreams}
use panda_k8s.Controller.CustomBackends.Kept.{
  InNames, InNames-append_left, InNames-append_right, OrNew, scan_servers-KeepsServers,
  scan_servers-IsDraft,
}
use panda_k8s.Controller.Drafts.{Drafts}
use panda_k8s.Controller.Store.{Store}
use panda_k8s.Externals.{Externals}
use panda_k8s.Prelude.{
  String, ◌==◌, ◌≡◌, ◌||◌, refl, List, [], ◌∷◌, ◌++◌, lookup, some, some_eq, ap, All, All_map, inl,
  inr, Bool-cases,
}

module _ (ext : Externals) (heap : Heap) (store : Store) where
  -- No server and no path is lost.
  pub scan_upstreams-KeepsServers :
      (upstreams : Upstreams) (u : Drafts)
      → KeepsServers u (scan_upstreams ext heap store upstreams u).1
  unfolding scan_upstreams
  scan_upstreams-KeepsServers [] u = KeepsServers-refl u
  scan_upstreams-KeepsServers ((name, upstream) ∷ rest) u =
      elim (Bool-cases (upstream.name == def_upstream_name)) [
        | inl default ↦ rw default (scan_upstreams-KeepsServers rest u)
        | inr other ↦
            let v = (scan_servers ext heap store upstream u).scanned in
            rw other (
              KeepsServers-trans u v (scan_upstreams ext heap store rest v).1
                (scan_servers-KeepsServers ext heap store upstream u)
                (scan_upstreams-KeepsServers rest v))
      ]

  -- Every upstream is returned, under its name.
  pub scan_upstreams-InNames :
      (name : String) (b : Backend) (upstreams : Upstreams) (u : Drafts)
      → lookup name upstreams ≡ some b
      → InNames b.name (scan_upstreams ext heap store upstreams u).0
  unfolding scan_upstreams lookup
  scan_upstreams-InNames name b [] u h = cc
  scan_upstreams-InNames name b ((key, upstream) ∷ rest) u h = elim (Bool-cases (key == name)) [
    | inl here ↦ elim (Bool-cases (upstream.name == def_upstream_name)) [
      | inl default ↦
          rw default (_, inl refl, ap (λ (x : Backend). x.name) (some_eq (rw here at h)))
      | inr other ↦ rw other (_, inl refl, ap (λ (x : Backend). x.name) (some_eq (rw here at h)))
    ]
    | inr later ↦ elim (Bool-cases (upstream.name == def_upstream_name)) [
      | inl default ↦
          let (c, i, e) = scan_upstreams-InNames name b rest u (rw later at h) in
          rw default (c, inr i, e)
      | inr other ↦
          let found = scan_servers ext heap store upstream u in
          let (c, i, e) =
            InNames-append_right b.name found.new_backends
              (scan_upstreams ext heap store rest found.scanned).0
              (scan_upstreams-InNames name b rest found.scanned (rw later at h)) in
          rw other (c, inr i, e)
    ]
  ]

  -- a backend in front
  OrNew-cons :
      (Q : String → Type 0) (b : Backend) (bs cs : List Backend) (s : String)
      → OrNew (OrNew Q bs) cs s
      → OrNew Q (b ∷ bs ++ cs) s
  OrNew-cons Q b bs cs s (inl (inl q)) = inl q
  OrNew-cons Q b bs cs s (inl (inr i)) =
      let (c, j, e) = InNames-append_left s bs cs i in inr (c, inr j, e)
  OrNew-cons Q b bs cs s (inr i) =
      let (c, j, e) = InNames-append_right s bs cs i in inr (c, inr j, e)

  -- The backend of a location is one that it could have before, or is returned.
  pub scan_upstreams-IsDraft :
      (Q : String → Type 0) (upstreams : Upstreams) (u : Drafts)
      → All (λ e. IsDraft Q e.0 e.1) u
      → All
          (λ e. IsDraft (OrNew Q (scan_upstreams ext heap store upstreams u).0) e.0 e.1)
          (scan_upstreams ext heap store upstreams u).1
  unfolding scan_upstreams
  scan_upstreams-IsDraft Q [] u a =
      All_map (λ e k. (k.0, All_map (λ m q. inl q) e.1.locations k.1)) u a
  scan_upstreams-IsDraft Q ((name, upstream) ∷ rest) u a =
      elim (Bool-cases (upstream.name == def_upstream_name)) [
        | inl default ↦ rw default (
            All_map
              (λ e k. (
                k.0,
                All_map
                    (λ m.
                      OrNew-cons Q upstream [] (scan_upstreams ext heap store rest u).0 m.backend)
                    e.1.locations
                    (All_map (λ m q. elim q [ inl h ↦ inl (inl h) | inr i ↦ inr i ]) e.1.locations
                      k.1),
              ))
              (scan_upstreams ext heap store rest u).1 (scan_upstreams-IsDraft Q rest u a))
        | inr other ↦
            let found = scan_servers ext heap store upstream u in
            rw other (
              All_map
                (λ e k. (
                  k.0,
                  All_map
                      (λ m.
                        OrNew-cons Q
                          (record upstream {
                            ssl_passthrough = upstream.ssl_passthrough || found.any_https;
                          })
                          found.new_backends (scan_upstreams ext heap store rest found.scanned).0
                          m.backend)
                      e.1.locations k.1,
                ))
                (scan_upstreams ext heap store rest found.scanned).1
                (scan_upstreams-IsDraft (OrNew Q found.new_backends) rest found.scanned
                  (scan_servers-IsDraft ext heap store Q upstream u a)))
      ]
