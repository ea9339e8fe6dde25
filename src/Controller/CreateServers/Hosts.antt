-- ===== src/Controller/CreateServers/Hosts.antt =====
-- The servers that `createServers` builds: one for every host, under its hostname and with the root
-- location.
use panda_k8s.Annotations.Parsed.{ParsedAnnotations}
use panda_k8s.Api.Backends.{Backend}
use panda_k8s.Api.Heap.{Heap}
use panda_k8s.Api.Ingresses.{IngressRule}
use panda_k8s.Api.Servers.{Location}
use panda_k8s.Controller.Canary.{Upstreams, def_server_name}
use panda_k8s.Controller.CreateServers.{
  add_host, new_server, add_hosts, add_default, add_servers, add_all_servers,
}
use panda_k8s.Controller.Drafts.{
  Draft, Drafts, annotations_of, host_of, location_apply_annotations, default_location,
  first_updated, update_first,
}
use panda_k8s.Controller.CreateUpstreams.{default_service_of, is_no_list}
use panda_k8s.Controller.Locations.{root_location}
use panda_k8s.Controller.Store.{Store, Options}
use panda_k8s.Controller.Upstreams.{upstream_name}
use panda_k8s.Externals.{Externals}
use panda_k8s.Kube.{prefix}
use panda_k8s.Prelude.{
  ℕ, String, Bool, false, ◌&&◌, ◌≡◌, refl, sym, subst, ap, ◌∙◌, List, [], ◌∷◌, some, some_eq,
  some_of_bind, lookup, lookup-All, store as put, All, All_map, HasKey, stored-HasKey, Grows,
  then_Grows, Grows-HasKey, Grows-All, inl, inr, Bool-cases, Option-cases,
}
use panda_k8s.Sets.Slices.{nil}

-- the first location is the root, of type Prefix
abbrev pub HasRoot : List Location → Type 0
HasRoot [] = ⊥
HasRoot (l ∷ ls) = (l.path ≡ root_location) × (l.path_type ≡ some prefix)

-- A server stands under its hostname, and its first location is the root.
abbrev pub IsServer : String → Draft → Type 0
IsServer host d = (d.server.hostname ≡ host) × HasRoot d.locations

abbrev pub IsServerAll : Drafts → Type 0
IsServerAll = All (λ e. IsServer e.0 e.1)

-- as it is created, without aliases
abbrev pub IsNewServer : String → Draft → Type 0
IsNewServer host d = (d.server.hostname ≡ host) × (d.server.aliases ≡ nil) × HasRoot d.locations

abbrev pub GrowsServers : Drafts → Drafts → Type 0
GrowsServers = Grows IsNewServer

abbrev pub IsNewServerAll : Drafts → Type 0
IsNewServerAll = All (λ e. IsNewServer e.0 e.1)

default_location-HasRoot :
    (n : ℕ) (bare : Bool) (anns : ParsedAnnotations) (b : Backend) (l : Location)
    (ls : List Location)
    → HasRoot (l ∷ ls)
    → HasRoot (default_location n bare anns b l ∷ ls)
unfolding default_location location_apply_annotations
default_location-HasRoot n bare anns b l ls h = elim (Bool-cases (l.is_def_backend && bare)) [
  | inl first ↦ rw first h
  | inr other ↦ rw other h
]

first_updated-HasRoot :
    (f : Location → Location) (ls ms : List Location)
    → ((l : Location) (ls : List Location) → HasRoot (l ∷ ls) → HasRoot (f l ∷ ls))
    → HasRoot ls
    → first_updated f ls ≡ some ms
    → HasRoot ms
first_updated-HasRoot f [] ms k h e = absurd h
first_updated-HasRoot f (l ∷ ls) ms k h e = subst HasRoot (some_eq e) (k l ls h)

update_first-IsNewServer :
    (host : String) (f : Location → Location) (d e : Draft)
    → ((l : Location) (ls : List Location) → HasRoot (l ∷ ls) → HasRoot (f l ∷ ls))
    → IsNewServer host d
    → update_first f d ≡ some e
    → IsNewServer host e
unfolding update_first
update_first-IsNewServer host f d e k (n, a, r) eq =
    let (ls, i, j) = some_of_bind (first_updated f d.locations) (λ ls. _) e eq in
    subst (IsNewServer host) (some_eq j) (n, a, first_updated-HasRoot f d.locations ls k r i)

module _ (ext : Externals) (heap : Heap) (store : Store) (cfg : Options) where
  new_server-IsNewServer :
      (un : String) (n : ℕ) (host : String) (anns : ParsedAnnotations)
      → IsNewServer host (new_server ext heap store cfg un n host anns)
  unfolding new_server location_apply_annotations
  new_server-IsNewServer un n host anns = (refl, refl, (refl, refl))

  add_host-Grows :
      (un : String) (n : ℕ) (anns : ParsedAnnotations) (host : String) (u : Drafts)
      → GrowsServers u (add_host ext heap store cfg un n anns host u)
        × HasKey host (add_host ext heap store cfg un n anns host u)
  unfolding add_host
  add_host-Grows un n anns host u = elim (Option-cases (lookup host u)) [
    | inl missing ↦
        rw (missing, add_host)
          (
            Grows.added host (new_server ext heap store cfg un n host anns)
                (new_server-IsNewServer un n host anns) Grows.same,
            stored-HasKey host (new_server ext heap store cfg un n host anns) u,
          )
    | inr (d, found) ↦ rw (found, add_host) (Grows.same, (d, found))
  ]

  add_hosts-Grows :
      (un : String) (n : ℕ) (anns : ParsedAnnotations) (rules : List IngressRule) (u : Drafts)
      → GrowsServers u (add_hosts ext heap store cfg un n anns rules u)
        × All (λ r. HasKey (host_of r) (add_hosts ext heap store cfg un n anns rules u)) rules
  unfolding add_hosts
  add_hosts-Grows un n anns [] u = (Grows.same, tt)
  add_hosts-Grows un n anns (r ∷ rs) u =
      let (g, k) = add_host-Grows un n anns (host_of r) u in
      let (h, a) =
        add_hosts-Grows un n anns rs (add_host ext heap store cfg un n anns (host_of r) u) in
      (then_Grows g h, (Grows-HasKey (host_of r) h k, a))

  add_default-Grows :
      (n : ℕ) (anns : ParsedAnnotations) (upstreams : Upstreams) (du : Backend) (u w : Drafts)
      (un : String)
      → IsNewServerAll u
      → add_default ext heap store cfg n anns upstreams du u ≡ some (un, w)
      → GrowsServers u w
  unfolding add_default
  add_default-Grows n anns upstreams du u w un a h =
      let ing = heap.ingress n in
      elim (Option-cases (default_service_of ing)) [
        | inl nothing ↦ unchanged (some_eq (rw (nothing, add_default) at h))
        | inr (s, named) ↦
            elim (Option-cases (lookup (upstream_name ing.namespace (some s)) upstreams)) [
              | inl missing ↦ unchanged (some_eq (rw (named, missing, add_default) at h))
              | inr (b, found) ↦
                  let (d, i, j) =
                    some_of_bind (lookup def_server_name u) (λ d. _) (un, w)
                      (rw (named, found, add_default) at h) in
                  let (e, k, l) =
                    some_of_bind (update_first (default_location n (is_no_list ing.rules) anns b) d)
                      (λ e. _) (un, w) j in
                  let same_servers : put def_server_name e u ≡ w =
                    ap (λ (p : String × Drafts). p.1) (some_eq l) in
                  subst (GrowsServers u) same_servers (
                    Grows.added def_server_name e
                      (update_first-IsNewServer def_server_name
                        (default_location n (is_no_list ing.rules) anns b) d e
                        (default_location-HasRoot n (is_no_list ing.rules) anns b)
                        (lookup-All IsNewServer def_server_name d u a i) k)
                      Grows.same)
            ]
      ]
    where
      unchanged : ◌≡◌ {A = String × Drafts} (du.name, u) (un, w) → GrowsServers u w
      unchanged e = subst (GrowsServers u) (ap (λ (p : String × Drafts). p.1) e) Grows.same

  -- the host of every rule has a server, unless the Ingress is a canary
  abbrev pub Hosts : Drafts → ℕ → Type 0
  Hosts w n =
      (anns : ParsedAnnotations)
      → annotations_of store (heap.ingress n) ≡ some anns
      → anns.canary.enabled ≡ false
      → All (λ r. HasKey (host_of r) w) (heap.ingress n).rules

  pub Grows-Hosts :
      {P : String → Draft → Type 0} (u w : Drafts) → Grows P u w → (n : ℕ) → Hosts u n → Hosts w n
  Grows-Hosts u w g n h anns e c =
      All_map (λ r. Grows-HasKey (host_of r) g) (heap.ingress n).rules (h anns e c)

  pub add_servers-Grows :
      (n : ℕ) (upstreams : Upstreams) (du : Backend) (u w : Drafts)
      → IsNewServerAll u
      → add_servers ext heap store cfg n upstreams du u ≡ some w
      → GrowsServers u w × Hosts w n
  unfolding add_servers
  add_servers-Grows n upstreams du u w a h =
      let (anns, i, j) = some_of_bind (annotations_of store (heap.ingress n)) (λ anns. _) w h in
      elim (Bool-cases anns.canary.enabled) [
        | inl on ↦
            let e : u ≡ w = some_eq (rw on at j) in
            (
              subst (GrowsServers u) e Grows.same,
              λ other k off.
                  let clash =
                    sym on
                    ∙ ap (λ (x : ParsedAnnotations). x.canary.enabled) (some_eq (sym i ∙ k))
                    ∙ off in
                  cc,
            )
        | inr off ↦
            let ((un, next), k, l) =
              some_of_bind (add_default ext heap store cfg n anns upstreams du u) (λ p. _) w
                (rw off at j) in
            let (g, b) = add_hosts-Grows un n anns (heap.ingress n).rules next in
            let e : add_hosts ext heap store cfg un n anns (heap.ingress n).rules next ≡ w =
              some_eq l in
            (
              subst (GrowsServers u) e
                  (then_Grows (add_default-Grows n anns upstreams du u next un a k) g),
              λ other _ _. subst (λ x. All (λ r. HasKey (host_of r) x) (heap.ingress n).rules) e b,
            )
      ]

  pub add_all_servers-Grows :
      (ns : List ℕ) (upstreams : Upstreams) (du : Backend) (u w : Drafts)
      → IsNewServerAll u
      → add_all_servers ext heap store cfg ns upstreams du u ≡ some w
      → GrowsServers u w × All (Hosts w) ns
  unfolding add_all_servers
  add_all_servers-Grows [] upstreams du u w a h =
      (subst (GrowsServers u) (some_eq h) Grows.same, tt)
  add_all_servers-Grows (n ∷ ns) upstreams du u w a h =
      let (v, i, j) =
        some_of_bind (add_servers ext heap store cfg n upstreams du u)
          (add_all_servers ext heap store cfg ns upstreams du) w h in
      let (g, b) = add_servers-Grows n upstreams du u v a i in
      let (k, c) = add_all_servers-Grows ns upstreams du v w (Grows-All g a) j in
      (then_Grows g k, (Grows-Hosts v w k n b, c))
