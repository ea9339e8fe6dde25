-- ===== src/Controller/CreateServers/Backed.antt =====
-- The backends that `createServers` gives to the locations of new servers are upstreams.
use panda_k8s.Annotations.Parsed.{ParsedAnnotations}
use panda_k8s.Api.Backends.{Backend}
use panda_k8s.Api.Heap.{Heap}
use panda_k8s.Api.Ingresses.{IngressRule}
use panda_k8s.Api.Servers.{Location}
use panda_k8s.Controller.Canary.{Upstreams, def_server_name}
use panda_k8s.Controller.CreateServers.{
  new_server, add_host, add_hosts, add_default, add_servers, add_all_servers,
}
use panda_k8s.Controller.CreateUpstreams.{default_service_of, is_no_list}
use panda_k8s.Controller.Drafts.{
  Draft, Drafts, annotations_of, host_of, location_apply_annotations, default_location,
  first_updated, update_first,
}
use panda_k8s.Controller.Store.{Store, Options}
use panda_k8s.Controller.Upstreams.{upstream_name}
use panda_k8s.Externals.{Externals}
use panda_k8s.Prelude.{
  ℕ, String, Bool, ◌&&◌, ◌≡◌, refl, sym, subst, List, [], ◌∷◌, some, some_eq, some_of_bind, lookup,
  lookup-All, store as put, store-All, All, inl, inr, Bool-cases, Option-cases,
}

-- a property of the names that backends have
module _ (Q : String → Type 0) where
  -- the backend of every location has the property
  abbrev pub Backed : List Location → Type 0
  Backed = All (λ l. Q l.backend)

  abbrev pub BackedAll : Drafts → Type 0
  BackedAll = All (λ e. Backed e.1.locations)

  -- every upstream has a name with the property
  abbrev pub NamedAll : Upstreams → Type 0
  NamedAll = All (λ e. Q e.1.name)

  pub put-BackedAll :
      (key : String) (d : Draft) (u : Drafts)
      → BackedAll u
      → Backed d.locations
      → BackedAll (put key d u)
  put-BackedAll key d u a h = store-All (λ _ e. Backed e.locations) key d u a h

  pub lookup-Backed :
      (key : String) (d : Draft) (u : Drafts)
      → BackedAll u
      → lookup key u ≡ some d
      → Backed d.locations
  lookup-Backed key d u a h = lookup-All (λ _ e. Backed e.locations) key d u a h

  default_location-backend :
      (n : ℕ) (bare : Bool) (anns : ParsedAnnotations) (b : Backend) (l : Location)
      → (default_location n bare anns b l).backend ≡ b.name
  unfolding default_location location_apply_annotations
  default_location-backend n bare anns b l = elim (Bool-cases (l.is_def_backend && bare)) [
    | inl first ↦ rw first refl
    | inr other ↦ rw other refl
  ]

  first_updated-Backed :
      (f : Location → Location) (ls ms : List Location)
      → ((l : Location) → Q (f l).backend)
      → Backed ls
      → first_updated f ls ≡ some ms
      → Backed ms
  first_updated-Backed f [] ms k h e = cc
  first_updated-Backed f (l ∷ ls) ms k h e = subst Backed (some_eq e) (k l, h.1)

  update_first-Backed :
      (f : Location → Location) (d e : Draft)
      → ((l : Location) → Q (f l).backend)
      → Backed d.locations
      → update_first f d ≡ some e
      → Backed e.locations
  unfolding update_first
  update_first-Backed f d e k h eq =
      let (ls, i, j) = some_of_bind (first_updated f d.locations) (λ ls. _) e eq in
      subst (λ (x : Draft). Backed x.locations) (some_eq j)
        (first_updated-Backed f d.locations ls k h i)

  module _ (ext : Externals) (heap : Heap) (store : Store) (cfg : Options) where
    add_hosts-Backed :
        (un : String) (n : ℕ) (anns : ParsedAnnotations) (rules : List IngressRule) (u : Drafts)
        → Q un
        → BackedAll u
        → BackedAll (add_hosts ext heap store cfg un n anns rules u)
    unfolding add_hosts add_host new_server location_apply_annotations
    add_hosts-Backed un n anns [] u q a = a
    add_hosts-Backed un n anns (r ∷ rs) u q a =
        add_hosts-Backed un n anns rs (add_host ext heap store cfg un n anns (host_of r) u) q added
      where
        added : BackedAll (add_host ext heap store cfg un n anns (host_of r) u)
        added = elim (Option-cases (lookup (host_of r) u)) [
          | inl missing ↦
              rw (missing, add_host)
                (put-BackedAll (host_of r) (new_server ext heap store cfg un n (host_of r) anns) u a
                  (q, tt))
          | inr (d, found) ↦ rw (found, add_host) a
        ]

    module _ (upstreams : Upstreams) (du : Backend) (named : NamedAll upstreams)
        (q : Q du.name) where
      add_default-Backed :
          (n : ℕ) (anns : ParsedAnnotations) (u w : Drafts) (un : String)
          → BackedAll u
          → add_default ext heap store cfg n anns upstreams du u ≡ some (un, w)
          → Q un × BackedAll w
      unfolding add_default
      add_default-Backed n anns u w un a h =
          let ing = heap.ingress n in
          elim (Option-cases (default_service_of ing)) [
            | inl nothing ↦ result (some_eq (rw (nothing, add_default) at h)) (q, a)
            | inr (s, has) ↦
                elim (Option-cases (lookup (upstream_name ing.namespace (some s)) upstreams)) [
                  | inl missing ↦ result (some_eq (rw (has, missing, add_default) at h)) (q, a)
                  | inr (b, found) ↦
                      let (d, i, j) =
                        some_of_bind (lookup def_server_name u) (λ d. _) (un, w)
                          (rw (has, found, add_default) at h) in
                      let f = default_location n (is_no_list ing.rules) anns b in
                      let (e, k, l) = some_of_bind (update_first f d) (λ e. _) (un, w) j in
                      let name : Q b.name =
                        lookup-All (λ _ x. Q x.name) (upstream_name ing.namespace (some s)) b
                          upstreams named found in
                      result (some_eq l) (
                        name,
                        put-BackedAll def_server_name e u a (
                            update_first-Backed f d e
                              (λ m.
                                subst Q
                                  (sym (default_location-backend n (is_no_list ing.rules) anns b m))
                                  name)
                              (lookup-Backed def_server_name d u a i) k),
                      )
                ]
          ]
        where
          result : {p : String × Drafts} → p ≡ (un, w) → Q p.0 × BackedAll p.1 → Q un × BackedAll w
          result e h = subst (λ (p : String × Drafts). Q p.0 × BackedAll p.1) e h

      pub add_all_servers-Backed :
          (ns : List ℕ) (u w : Drafts)
          → BackedAll u
          → add_all_servers ext heap store cfg ns upstreams du u ≡ some w
          → BackedAll w
      unfolding add_all_servers add_servers
      add_all_servers-Backed [] u w a h = subst BackedAll (some_eq h) a
      add_all_servers-Backed (n ∷ ns) u w a h =
          let (v, i, j) =
            some_of_bind (add_servers ext heap store cfg n upstreams du u)
              (add_all_servers ext heap store cfg ns upstreams du) w h in
          let (anns, _, k) = some_of_bind (annotations_of store (heap.ingress n)) (λ anns. _) v i in
          add_all_servers-Backed ns v w
            (elim (Bool-cases anns.canary.enabled) [
              | inl on ↦ subst BackedAll (some_eq (rw on at k)) a
              | inr off ↦
                  let ((un, next), l, m) =
                    some_of_bind (add_default ext heap store cfg n anns upstreams du u) (λ p. _) v
                      (rw off at k) in
                  let (name, b) = add_default-Backed n anns u next un a l in
                  subst BackedAll (some_eq m)
                    (add_hosts-Backed un n anns (heap.ingress n).rules next name b)
            ])
            j
