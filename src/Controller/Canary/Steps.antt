-- ===== src/Controller/Canary/Steps.antt =====
-- The merges and deletions that `mergeAlternativeBackends` consists of, as a step relation.
use mathlib.Core.Path.{subst}
use panda_k8s.Api.Backends.{Backend}
use panda_k8s.Api.Heap.{Heap}
use panda_k8s.Api.Ingresses.{Ingress, IngressRule, HttpIngressPath, IngressBackend}
use panda_k8s.Api.Servers.{Location, Server}
use panda_k8s.Controller.Canary.{
  Upstreams, Progress, can_merge_backend, merge_alternative_backend, load_location, merge_round,
  merge_locations, finish_merge, merge_default, merge_path, merge_paths, merge_rules,
  merge_alternative_backends, def_server_name, matches_path,
}
use panda_k8s.Controller.Upstreams.{upstream_name}
use panda_k8s.Pointers.{Ptr}
use panda_k8s.Prelude.{
  some_of_bind, some_eq, ◌∙◌, ap, String, Bool, true, false, not, ◌&&◌, ◌==◌, ◌≡◌, refl, inl, inr,
  List, [], ◌∷◌, Option, some, lookup, store, remove, if◌then◌else◌, Bool-cases, Option-cases,
}
use panda_k8s.Sets.Slices.{elems}

only_if : (b : Bool) (o : Option Bool) → (if b then o else some false) ≡ some true → b ≡ true
only_if true o h = refl
only_if false o h = cc

module _ (ing : Ingress) where
  -- One change of the upstreams: a backend of the map is merged into another that it may be merged
  -- into, or one is removed.
  pub data Step : Upstreams → Upstreams → Type 0 where
    merge :
        (u : Upstreams) (pri_key alt_key : String) (pri alt : Backend)
        → lookup pri_key u ≡ some pri
        → lookup alt_key u ≡ some alt
        → can_merge_backend pri (some alt) ≡ true
        → Step u (
            store alt_key
              (merge_alternative_backend ing pri alt).alternative
              (store pri_key (merge_alternative_backend ing pri alt).primary u))
    gone : (u : Upstreams) (key : String) → Step u (remove key u)

  pub data Steps : Upstreams → Upstreams → Type 0 where
    here : {u : Upstreams} → Steps u u
    next : {u v w : Upstreams} → Step u v → Steps v w → Steps u w

  Steps-trans : {u v w : Upstreams} → Steps u v → Steps v w → Steps u w
  Steps-trans here k = k
  Steps-trans (next s h) k = next s (Steps-trans h k)

  module _ (heap : Heap) (ups_name : String) (matches : Location → Option Bool) where
    merge_round-Steps :
        (loc : Location) (pri alt : Backend) (u : Upstreams) (merged : Bool) (p : Progress)
        → lookup loc.backend u ≡ some pri
        → lookup ups_name u ≡ some alt
        → merge_round heap ing ups_name matches loc pri alt u merged ≡ some p
        → Steps u p.upstreams
    unfolding merge_round
    merge_round-Steps loc pri alt u merged p i j h =
        let (chosen, c, e) =
          some_of_bind (if can_merge_backend pri (some alt) then matches loc else some false)
            (λ chosen. some _) p h in
        subst (λ (q : Progress). Steps u q.upstreams) (some_eq e)
          (elim (Bool-cases chosen) [
            | inl picked ↦ rw picked (
                next
                  (merge u loc.backend ups_name pri alt i j
                    (only_if (can_merge_backend pri (some alt)) (matches loc) (c ∙ ap some picked)))
                  here)
            | inr passed ↦ rw passed here
          ])

    merge_locations-Steps :
        (ps : List (Ptr Location)) (u : Upstreams) (merged : Bool) (p : Progress)
        → merge_locations heap ing ups_name matches ps u merged ≡ some p
        → Steps u p.upstreams
    unfolding merge_locations
    merge_locations-Steps [] u merged p h =
        subst (λ (q : Progress). Steps u q.upstreams) (some_eq h) here
    merge_locations-Steps (l ∷ ps) u merged p h =
        let (loc, i, h1) = some_of_bind (load_location heap l) (λ loc. _) p h in
        let (alt, j, h2) = some_of_bind (lookup ups_name u) (λ alt. _) p h1 in
        let (pri, k, h3) = some_of_bind (lookup loc.backend u) (λ pri. _) p h2 in
        elim (Bool-cases (alt.name == pri.name)) [
          | inl same ↦ subst (λ (q : Progress). Steps u q.upstreams) (some_eq (rw same at h3)) here
          | inr other ↦
              let (r, a, h4) =
                some_of_bind (merge_round heap ing ups_name matches loc pri alt u merged)
                  (λ r. merge_locations heap ing ups_name matches ps r.upstreams r.merged) p
                  (rw other at h3) in
              Steps-trans (merge_round-Steps loc pri alt u merged r k j a)
                (merge_locations-Steps ps r.upstreams r.merged p h4)
        ]

  finish_merge-Steps :
      (heap : Heap) (alt : Backend) (p : Progress) (u : Upstreams)
      → Steps u p.upstreams
      → Steps u (finish_merge heap alt p)
  unfolding finish_merge
  finish_merge-Steps heap alt p u h = elim (Bool-cases (not p.alt_equals_pri && not p.merged)) [
    | inl lost ↦ rw lost (Steps-trans h (next (gone p.upstreams alt.name) here))
    | inr kept ↦ rw kept h
  ]

  module _ (heap : Heap) (servers : List (String × Server)) where
    merge_default-Steps :
        (b : IngressBackend) (u w : Upstreams)
        → merge_default heap ing servers b u ≡ some w
        → Steps u w
    unfolding merge_default
    merge_default-Steps b u w h =
        let ups_name = upstream_name ing.namespace b.service in
        elim (Option-cases (lookup ups_name u)) [
          | inl missed ↦ subst (Steps u) (some_eq (rw (missed, merge_default) at h)) here
          | inr (alt, hit) ↦
              let (server, i, h1) =
                some_of_bind (lookup def_server_name servers) (λ s. _) w
                  (rw (hit, merge_default) at h) in
              let (p, j, h2) =
                some_of_bind
                  (merge_locations heap ing ups_name (λ loc. some true) (elems server.locations) u
                    false)
                  (λ q. some (finish_merge heap alt q)) w h1 in
              subst (Steps u) (some_eq h2) (
                finish_merge-Steps heap alt p u (
                  merge_locations-Steps heap ups_name (λ loc. some true) (elems server.locations) u
                    false p j))
        ]

    pub merge_path-Steps :
        (host : String) (path : HttpIngressPath) (u w : Upstreams)
        → merge_path heap ing servers host path u ≡ some w
        → Steps u w
    unfolding merge_path
    merge_path-Steps host path u w h = elim (Option-cases path.service) [
      | inl none_given ↦ subst (Steps u) (some_eq (rw none_given at h)) here
      | inr (service, given) ↦
          let ups_name = upstream_name ing.namespace (some service) in
          elim (Option-cases (lookup ups_name u)) [
            | inl missed ↦ subst (Steps u) (some_eq (rw (given, missed, merge_path) at h)) here
            | inr (alt, hit) ↦ elim (Option-cases (lookup host servers)) [
              | inl unknown ↦
                  subst (Steps u) (some_eq (rw (given, hit, unknown, merge_path) at h)) here
              | inr (server, known) ↦
                  let (p, j, h2) =
                    some_of_bind
                      (merge_locations heap ing ups_name (matches_path heap path)
                        (elems server.locations) u false)
                      (λ q. some (finish_merge heap alt q)) w
                      (rw (given, hit, known, merge_path) at h) in
                  subst (Steps u) (some_eq h2) (
                    finish_merge-Steps heap alt p u (
                      merge_locations-Steps heap ups_name (matches_path heap path)
                        (elems server.locations) u false p j))
            ]
          ]
    ]

    merge_paths-Steps :
        (host : String) (ps : List HttpIngressPath) (u w : Upstreams)
        → merge_paths heap ing servers host ps u ≡ some w
        → Steps u w
    unfolding merge_paths
    merge_paths-Steps host [] u w h = subst (Steps u) (some_eq h) here
    merge_paths-Steps host (path ∷ ps) u w h =
        let (v, i, k) =
          some_of_bind (merge_path heap ing servers host path u)
            (merge_paths heap ing servers host ps) w h in
        Steps-trans (merge_path-Steps host path u v i) (merge_paths-Steps host ps v w k)

    merge_rules-Steps :
        (rules : List IngressRule) (u w : Upstreams)
        → merge_rules heap ing servers rules u ≡ some w
        → Steps u w
    unfolding merge_rules
    merge_rules-Steps [] u w h = subst (Steps u) (some_eq h) here
    merge_rules-Steps (rule ∷ rules) u w h =
        let (paths, i, h1) = some_of_bind rule.http (λ paths. _) w h in
        let (v, j, k) =
          some_of_bind
            (merge_paths heap ing servers (if rule.host == "" then def_server_name else rule.host)
              paths u)
            (merge_rules heap ing servers rules) w h1 in
        Steps-trans
          (merge_paths-Steps (if rule.host == "" then def_server_name else rule.host) paths u v j)
          (merge_rules-Steps rules v w k)

    -- Whatever the Ingress, the servers and the upstreams: what `mergeAlternativeBackends` makes of
    -- the upstreams, if it does not panic, is the result of merges that `canMergeBackend` allows and
    -- of removals, one after the other.
    pub merge_alternative_backends-Steps :
        (u w : Upstreams) → merge_alternative_backends heap ing servers u ≡ some w → Steps u w
    unfolding merge_alternative_backends
    merge_alternative_backends-Steps u w h = elim (Option-cases ing.default_backend) [
      | inl none_given ↦ merge_rules-Steps ing.rules u w (rw none_given at h)
      | inr (b, given) ↦
          let (v, i, k) =
            some_of_bind (merge_default heap ing servers b u)
              (merge_rules heap ing servers ing.rules) w (rw given at h) in
          Steps-trans (merge_default-Steps b u v i) (merge_rules-Steps ing.rules v w k)
    ]
