-- ===== src/Controller/Canary/Total.antt =====
-- When `mergeAlternativeBackends` does not panic.
use panda_k8s.Api.Backends.{Backend}
use panda_k8s.Api.Heap.{Heap}
use panda_k8s.Api.Ingresses.{Ingress, IngressRule, HttpIngressPath, ServiceBackend}
use panda_k8s.Api.Servers.{Location, Server}
use panda_k8s.Controller.Canary.{
  Upstreams, Progress, can_merge_backend, merge_alternative_backend, load_location, merge_round,
  merge_locations, matches_path, finish_merge, merge_path, merge_paths, merge_rules,
  merge_alternative_backends, def_server_name,
}
use panda_k8s.Controller.Canary.Invariant.{IsFit, IsFitAll, Steps-IsFitAll}
use panda_k8s.Controller.Canary.Steps.{merge_path-Steps}
use panda_k8s.Controller.Upstreams.{upstream_name}
use panda_k8s.Kube.{PathType, path_type_eq}
use panda_k8s.Pointers.{Ptr}
use panda_k8s.Prelude.{
  String, Bool, true, false, not, ◌&&◌, ◌==◌, ==_iff, ◌≡◌, refl, inl, inr, List, [], ◌∷◌, none,
  some, In, All, lookup, lookup-All, store, remove, lookup-store, lookup-remove, Bool-cases,
  Option-cases, arith, if◌then◌else◌,
}
use panda_k8s.Sets.Slices.{elems}

module _ (keys : List String) where
  -- the upstreams have all these keys
  abbrev pub Has : Upstreams → Type 0
  Has u = (k : String) → In k keys → (b : Backend) × (lookup k u ≡ some b)

  store-Has : (u : Upstreams) (j : String) (v : Backend) → Has u → Has (store j v u)
  store-Has u j v h k m = elim (Bool-cases (j == k)) [
    | inl same ↦ (v, rw (lookup-store j k v u, same) refl)
    | inr other ↦ let (b, e) = h k m in (b, rw (lookup-store j k v u, other) e)
  ]

  remove-Has :
      (u : Upstreams) (j : String)
      → ((k : String) → In k keys → (j == k) ≡ false)
      → Has u
      → Has (remove j u)
  remove-Has u j apart h k m = let (b, e) = h k m in (b, rw (lookup-remove j k u, apart k m) e)

  module _ (heap : Heap) (ing : Ingress) where
    -- a location with a path type, whose backend is one of the keys
    abbrev pub Served : Ptr Location → Type 0
    Served p =
        (loc : Location) × (t : PathType) × (load_location heap p ≡ some loc)
        × (loc.path_type ≡ some t)
        × In loc.backend keys

    module _ (ups_name : String) (path : HttpIngressPath) (pt : PathType)
        (typed : path.path_type ≡ some pt) where
      matches_total :
          (loc : Location) (t : PathType)
          → loc.path_type ≡ some t
          → (b : Bool) × (matches_path heap path loc ≡ some b)
      unfolding matches_path
      matches_total loc t h = elim (Bool-cases (loc.path == path.path)) [
        | inl same ↦ (path_type_eq t pt, ground arith)
        | inr other ↦ (false, ground arith)
      ]

      round_total :
          (loc : Location) (t : PathType) (pri alt : Backend) (u : Upstreams) (merged : Bool)
          → loc.path_type ≡ some t
          → Has u
          → lookup ups_name u ≡ some alt
          → (p : Progress) × (a : Backend) × (merge_round heap ing ups_name
                (matches_path heap path)
                loc
                pri
                alt
                u
                merged
              ≡ some p)
            × Has p.upstreams
            × (lookup ups_name p.upstreams ≡ some a)
      unfolding merge_round
      round_total loc t pri alt u merged h k i =
          elim (Bool-cases (can_merge_backend pri (some alt))) [
            | inr unfit ↦ (
              record { upstreams = u; merged = merged; alt_equals_pri = false },
              alt,
              rw unfit refl,
              k,
              i,
            )
            | inl fit ↦
                let (b, e) = matches_total loc t h in
                let m = merge_alternative_backend ing pri alt in
                let v = store loc.backend m.primary u in
                elim (Bool-cases b) [
                  | inr passed ↦ (
                    record { upstreams = u; merged = merged; alt_equals_pri = false },
                    alt,
                    rw fit (rw e (rw passed refl)),
                    k,
                    i,
                  )
                  | inl picked ↦ (
                    record {
                      upstreams = store ups_name m.alternative v;
                      merged = m.merged;
                      alt_equals_pri = false;
                    },
                    m.alternative,
                    rw fit (rw e (rw picked refl)),
                    store-Has v ups_name m.alternative (store-Has u loc.backend m.primary k),
                    ground (
                      arith,
                      lookup-store ups_name ups_name m.alternative v,
                      ==_iff ups_name ups_name,
                    ),
                  )
                ]
          ]

      merge_locations_total :
          (ps : List (Ptr Location)) (u : Upstreams) (merged : Bool) (alt : Backend)
          → All Served ps
          → Has u
          → lookup ups_name u ≡ some alt
          → (p : Progress) × (merge_locations heap ing ups_name (matches_path heap path) ps u merged
              ≡ some p)
            × Has p.upstreams
      unfolding merge_locations
      merge_locations_total [] u merged alt a k i =
          (record { upstreams = u; merged = merged; alt_equals_pri = false }, refl, k)
      merge_locations_total (q ∷ ps) u merged alt ((loc, t, l, h, m), a) k i =
          let (pri, j) = k loc.backend m in
          let (p, b, e, k', i') = round_total loc t pri alt u merged h k i in
          let (r, f, g) = merge_locations_total ps p.upstreams p.merged b a k' i' in
          elim (Bool-cases (alt.name == pri.name)) [
            | inl same ↦ (
              record { upstreams = u; merged = merged; alt_equals_pri = true },
              rw l (rw i (rw j (rw same refl))),
              k,
            )
            | inr other ↦ (r, rw l (rw i (rw j (rw other (rw e f)))), g)
          ]

    -- a canary path with a path type, whose backend is none of the keys
    abbrev pub Aside : HttpIngressPath → Type 0
    Aside path =
        ((pt : PathType) × (path.path_type ≡ some pt))
        × ((service : ServiceBackend) (k : String)
            → path.service ≡ some service
            → In k keys
            → (upstream_name ing.namespace (some service) == k) ≡ false)

    -- a rule with paths, all of them aside
    abbrev pub AsideRule : IngressRule → Type 0
    AsideRule rule = (paths : List HttpIngressPath) × (rule.http ≡ some paths) × All Aside paths

    module _ (servers : List (String × Server))
        (served : All (λ e. All Served (elems e.1.locations)) servers) where
      merge_path_total :
          (host : String) (path : HttpIngressPath) (u : Upstreams)
          → Aside path
          → Has u
          → IsFitAll u
          → (w : Upstreams) × (merge_path heap ing servers host path u ≡ some w) × Has w
      unfolding merge_path finish_merge
      merge_path_total host path u ((pt, typed), apart) k f = elim (Option-cases path.service) [
        | inl absent ↦ (u, simp (absent, merge_path), k)
        | inr (service, given) ↦
            let name = upstream_name ing.namespace (some service) in
            elim (Option-cases (lookup name u)) [
              | inl missed ↦ (u, simp (given, missed, merge_path), k)
              | inr (alt, hit) ↦ elim (Option-cases (lookup host servers)) [
                | inl unknown ↦ (u, simp (given, hit, unknown, merge_path), k)
                | inr (server, known) ↦
                    let (p, e, h) =
                      merge_locations_total name path pt typed (elems server.locations) u false alt
                        (lookup-All (λ _ (s : Server). All Served (elems s.locations)) host server
                          servers served known)
                        k hit in
                    let named = (lookup-All IsFit name alt u f hit).named in
                    (
                      finish_merge heap alt p,
                      simp (given, hit, known, e, merge_path),
                      elim (Bool-cases (not p.alt_equals_pri && not p.merged)) [
                        | inl lost ↦ rw lost (
                            remove-Has p.upstreams alt.name
                              (λ j m. rw named (apart service j given m)) h)
                        | inr kept ↦ rw kept h
                      ],
                    )
              ]
            ]
      ]

      merge_paths_total :
          (host : String) (paths : List HttpIngressPath) (u : Upstreams)
          → All Aside paths
          → Has u
          → IsFitAll u
          → (w : Upstreams) × (merge_paths heap ing servers host paths u ≡ some w)
            × Has w
            × IsFitAll w
      unfolding merge_paths
      merge_paths_total host [] u a k f = (u, refl, k, f)
      merge_paths_total host (path ∷ paths) u (a, as') k f =
          let (v, e, k') = merge_path_total host path u a k f in
          let f' = Steps-IsFitAll ing (merge_path-Steps ing heap servers host path u v e) f in
          let (w, d, k2, f2) = merge_paths_total host paths v as' k' f' in (w, rw e d, k2, f2)

      merge_rules_total :
          (rules : List IngressRule) (u : Upstreams)
          → All AsideRule rules
          → Has u
          → IsFitAll u
          → (w : Upstreams) × (merge_rules heap ing servers rules u ≡ some w)
      unfolding merge_rules
      merge_rules_total [] u a k f = (u, refl)
      merge_rules_total (rule ∷ rules) u ((paths, given, a), as') k f =
          let (v, e, k', f') =
            merge_paths_total (if rule.host == "" then def_server_name else rule.host) paths u a k
              f in
          let (w, d) = merge_rules_total rules v as' k' f' in (w, simp (given, e, merge_rules) d)

      -- `mergeAlternativeBackends` does not panic for an Ingress without a default backend, if every
      -- rule has paths, every path and every location has a path type, no pointer to a location is
      -- nil, every backend of the map stands under its name, is not among its own alternatives and
      -- has no alternative twice, the backend of every location is in the map, and none of the
      -- backends of the paths is the backend of a location.
      pub merge_alternative_backends_total :
          (u : Upstreams)
          → ing.default_backend ≡ none
          → All AsideRule ing.rules
          → Has u
          → IsFitAll u
          → (w : Upstreams) × (merge_alternative_backends heap ing servers u ≡ some w)
      unfolding merge_alternative_backends
      merge_alternative_backends_total u d a k f =
          let (w, e) = merge_rules_total ing.rules u a k f in
          (w, simp (d, merge_alternative_backends) e)
