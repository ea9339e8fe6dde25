-- ===== src/Controller/BackendServers/Backed.antt =====
-- What the loops of `getBackendServers` over the Ingresses keep: servers and upstreams stand under
-- their names, and the backend of every location is an upstream.
use panda_k8s.Annotations.Parsed.{ParsedAnnotations}
use panda_k8s.Api.Backends.{Backend}
use panda_k8s.Api.Heap.{Heap}
use panda_k8s.Api.Ingresses.{Ingress, IngressRule, HttpIngressPath}
use panda_k8s.Api.Servers.{Location}
use panda_k8s.Controller.BackendServers.{
  with_auth, with_affinity, with_path, with_upstream, Built, add_path, add_paths, Backends,
  server_key, add_rule, add_rules, add_ingresses,
}
use panda_k8s.Controller.Places.{
  same_type, nginx_path, Placement, find_place, take_over, new_location, place_path,
}
use panda_k8s.Controller.BackendServers.Covered.{else_of}
use panda_k8s.Controller.BackendServers.Paths.{before_all-some}
use panda_k8s.Controller.Canary.{Upstreams, def_server_name}
use panda_k8s.Controller.CreateServers.Backed.{Backed}
use panda_k8s.Controller.Drafts.{Draft, annotations_of, host_of, location_apply_annotations}
use panda_k8s.Controller.Store.{Store}
use panda_k8s.Controller.Upstreams.{upstream_name}
use panda_k8s.Kube.{PathType}
use panda_k8s.Prelude.{
  ℕ, String, Bool, true, false, not, ◌==◌, ◌≡◌, subst, List, [], ◌∷◌, Option, some, some_eq,
  some_of_bind, lookup, lookup-All, store-All, All, All-append, if_holds, if◌then◌else◌, inl, inr,
  Bool-cases, Option-cases,
}
use panda_k8s.Sets.Slices.{elems}

module _ (Q : String → Type 0) where
  placed-Backed :
      (take : Location → Location) (l : Location) (ls : List Location) (free : Bool) (p : Placement)
      → ((l : Location) → Q (take l).backend)
      → Backed Q (l ∷ ls)
      → (if not free
          then some (record { locations = l ∷ ls; from_to_www = false })
          else some
              (record { locations = take l ∷ ls; from_to_www = (take l).redirect.from_to_www }))
        ≡ some p
      → Backed Q p.locations
  placed-Backed take l ls false p k a h =
      subst (λ (q : Placement). Backed Q q.locations) (some_eq h) a
  placed-Backed take l ls true p k a h =
      subst (λ (q : Placement). Backed Q q.locations) (some_eq h) (k l, a.1)

  find_place-Backed :
      (path : String) (type : Option PathType) (take : Location → Location) (ls : List Location)
      (p : Placement)
      → ((l : Location) → Q (take l).backend)
      → Backed Q ls
      → find_place path type take ls ≡ some p
      → Backed Q p.locations
  unfolding find_place
  find_place-Backed path type take [] p k a h = cc
  find_place-Backed path type take (l ∷ ls) p k a h = elim (Bool-cases (l.path == path)) [
    | inr other ↦
        let (q, i, e) = before_all-some l (find_place path type take ls) p (rw other at h) in
        subst (Backed Q) e (a.0, find_place-Backed path type take ls q k a.1 i)
    | inl here ↦ elim (Bool-cases (same_type l.path_type type)) [
      | inr unlike ↦ let clash = rw (here, unlike) at h in cc
      | inl alike ↦ placed-Backed take l ls l.is_def_backend p k a (rw (here, alike) at h)
    ]
  ]

  place_path-Backed :
      (n : ℕ) (anns : ParsedAnnotations) (ups : Backend) (path : HttpIngressPath)
      (ls : List Location)
      → Q ups.name
      → Backed Q ls
      → Backed Q (place_path n anns ups path ls).locations
  unfolding place_path take_over new_location location_apply_annotations
  place_path-Backed n anns ups path ls q a =
      elim (Option-cases (find_place (nginx_path path) path.path_type (take_over n anns ups) ls)) [
        | inr (p, found) ↦
            rw (found, place_path)
              (find_place-Backed (nginx_path path) path.path_type (take_over n anns ups) ls p
                (λ l. q) a found)
        | inl missing ↦
            rw (missing, place_path)
              (All-append (λ l. Q l.backend) ls (new_location n anns ups path ∷ []) a (q, tt))
      ]

  -- A server stands under its hostname, and the backends of its locations have the property.
  abbrev pub IsDraft : String → Draft → Type 0
  IsDraft host d = (d.server.hostname ≡ host) × Backed Q d.locations

  -- An upstream stands under its name, which has the property.
  abbrev pub IsUpstream : String → Backend → Type 0
  IsUpstream name b = (b.name ≡ name) × Q b.name

  abbrev pub IsUpstreamAll : Upstreams → Type 0
  IsUpstreamAll = All (λ e. IsUpstream e.0 e.1)

  -- both, of all servers and upstreams
  abbrev pub IsBacked : Backends → Type 0
  IsBacked b = All (λ e. IsDraft e.0 e.1) b.servers × IsUpstreamAll b.upstreams

  module _ (n : ℕ) (ing : Ingress) (anns : ParsedAnnotations) (host key : String) where
    abbrev IsBuilt : Built → Type 0
    IsBuilt b = IsDraft key b.draft × IsUpstreamAll b.upstreams

    with_upstream-IsBuilt :
        (path : HttpIngressPath) (name : String) (ups : Backend) (b c : Built)
        → IsBuilt b
        → IsUpstream name ups
        → with_upstream n anns host path name ups b ≡ some c
        → IsBuilt c
    unfolding with_upstream with_path
    with_upstream-IsBuilt path name ups b c ((h, a), u) q e = elim (Bool-cases ups.no_server) [
      | inl serverless ↦ subst IsBuilt (some_eq (rw serverless at e)) ((h, a), u)
      | inr served ↦
          let (affinity, _, j) =
            some_of_bind
              (with_affinity anns.session_affinity path.path (host ∷ elems b.draft.server.aliases)
                ups.session_affinity)
              (λ affinity. _) c (else_of ups.no_server _ _ _ served e) in
          subst IsBuilt (some_eq j) (
            (h, place_path-Backed n anns ups path b.draft.locations q.1 a),
            store-All IsUpstream name (record ups { session_affinity = affinity }) b.upstreams u q,
          )
    ]

    add_path-IsBuilt :
        (path : HttpIngressPath) (b c : Built)
        → IsBuilt b
        → add_path n ing anns host path b ≡ some c
        → IsBuilt c
    unfolding add_path
    add_path-IsBuilt path b c a h = elim (Option-cases path.service) [
      | inl nothing ↦ subst IsBuilt (some_eq (rw (nothing, add_path) at h)) a
      | inr (s, named) ↦
          let name = upstream_name ing.namespace (some s) in
          let (ups, i, j) =
            some_of_bind (lookup name b.upstreams) (λ ups. _) c (rw (named, add_path) at h) in
          with_upstream-IsBuilt path name ups b c a
            (lookup-All IsUpstream name ups b.upstreams a.1 i) j
    ]

    add_paths-IsBuilt :
        (paths : List HttpIngressPath) (b c : Built)
        → IsBuilt b
        → add_paths n ing anns host paths b ≡ some c
        → IsBuilt c
    unfolding add_paths
    add_paths-IsBuilt [] b c a h = subst IsBuilt (some_eq h) a
    add_paths-IsBuilt (p ∷ ps) b c a h =
        let (m, i, j) =
          some_of_bind (add_path n ing anns host p b) (add_paths n ing anns host ps) c h in
        add_paths-IsBuilt ps m c (add_path-IsBuilt p b m a i) j

  module _ (location_only : Bool) (n : ℕ) (ing : Ingress) (anns : ParsedAnnotations) where
    add_rule-IsBacked :
        (rule : IngressRule) (b c : Backends)
        → IsBacked b
        → add_rule location_only n ing anns rule b ≡ some c
        → IsBacked c
    unfolding add_rule with_auth
    add_rule-IsBacked rule b c (s, u) h =
        let key = server_key (host_of rule) b.servers in
        let (d, i, j) = some_of_bind (lookup key b.servers) (λ d. _) c h in
        let e : Draft = record d { server = with_auth location_only anns d.server } in
        let is_draft : IsDraft key e = lookup-All IsDraft key d b.servers s i in
        elim (Option-cases rule.http) [
          | inl nothing ↦ subst IsBacked (some_eq (rw nothing at j)) (
              if_holds IsBacked (host_of rule == def_server_name) _ b
                (λ default. (store-All IsDraft key e b.servers s is_draft, u)) (λ other. (s, u)))
          | inr (paths, some_paths) ↦
              let (built, k, l) =
                some_of_bind
                  (add_paths n ing anns (host_of rule) paths
                    (record { draft = e; upstreams = b.upstreams }))
                  (λ built. _) c (rw some_paths at j) in
              let (f, v) =
                add_paths-IsBuilt n ing anns (host_of rule) key paths
                  (record { draft = e; upstreams = b.upstreams }) built (is_draft, u) k in
              subst IsBacked (some_eq l) (store-All IsDraft key built.draft b.servers s f, v)
        ]

    add_rules-IsBacked :
        (rules : List IngressRule) (b c : Backends)
        → IsBacked b
        → add_rules location_only n ing anns rules b ≡ some c
        → IsBacked c
    unfolding add_rules
    add_rules-IsBacked [] b c a h = subst IsBacked (some_eq h) a
    add_rules-IsBacked (r ∷ rs) b c a h =
        let (m, i, j) =
          some_of_bind (add_rule location_only n ing anns r b)
            (add_rules location_only n ing anns rs) c h in
        add_rules-IsBacked rs m c (add_rule-IsBacked r b m a i) j

  pub add_ingresses-IsBacked :
      (heap : Heap) (store : Store) (ns : List ℕ) (b c : Backends)
      → IsBacked b
      → add_ingresses heap store ns b ≡ some c
      → IsBacked c
  unfolding add_ingresses
  add_ingresses-IsBacked heap store [] b c a h = subst IsBacked (some_eq h) a
  add_ingresses-IsBacked heap store (n ∷ ns) b c a h =
      let (anns, _, i) = some_of_bind (annotations_of store (heap.ingress n)) (λ anns. _) c h in
      let (m, j, k) =
        some_of_bind
          (add_rules store.proxy_ssl_location_only n (heap.ingress n) anns (heap.ingress n).rules b)
          (add_ingresses heap store ns) c i in
      add_ingresses-IsBacked heap store ns m c
        (add_rules-IsBacked store.proxy_ssl_location_only n (heap.ingress n) anns
          (heap.ingress n).rules b m a j)
        k
