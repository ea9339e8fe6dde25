-- ===== src/Controller/CreateServers/Total.antt =====
-- When `createServers` does not panic.
use panda_k8s.Annotations.Parsed.{ParsedAnnotations}
use panda_k8s.Api.Backends.{Backend}
use panda_k8s.Api.Heap.{Heap}
use panda_k8s.Api.Ingresses.{Ingress, IngressRule}
use panda_k8s.Api.Servers.{Location}
use panda_k8s.Controller.Canary.{Upstreams, def_server_name}
use panda_k8s.Controller.CreateServers.{
  default_server, add_default, add_servers, add_all_servers, configure_server, configure_hosts,
  configure_servers, create_servers,
}
use panda_k8s.Controller.Drafts.{
  Draft, Drafts, annotations_of, host_of, default_location, first_updated, update_first, Configured,
  note_aliases,
}
use panda_k8s.Controller.CreateServers.Hosts.{
  HasRoot, IsNewServer, IsNewServerAll, Hosts, add_servers-Grows, add_all_servers-Grows,
}
use panda_k8s.Controller.CreateUpstreams.{default_service_of, is_no_list}
use panda_k8s.Controller.CreateUpstreams.Total.{HasAnnotations}
use panda_k8s.Controller.Store.{Store, Options}
use panda_k8s.Controller.Upstreams.{upstream_name}
use panda_k8s.Externals.{Externals}
use panda_k8s.Prelude.{
  ℕ, String, ◌≡◌, refl, sym, subst, ◌∙◌, ◌>>=◌, List, [], ◌∷◌, some, some_eq, bind_total, if_Yields,
  lookup, lookup-All, store as put, store-HasKey, All, All_map, HasKey, Grows-All, Grows-HasKey,
  inl, inr, Option-cases,
}
use panda_k8s.StringSets.{StringSets}

annotations_of_total :
    (store : Store) (ing : Ingress)
    → HasAnnotations ing
    → (anns : ParsedAnnotations) × (annotations_of store ing ≡ some anns)
unfolding annotations_of
annotations_of_total store ing h = bind_total ing.parsed_annotations _ h (λ anns e. (_, refl))

update_first_total :
    (f : Location → Location) (d : Draft)
    → HasRoot d.locations
    → (e : Draft) × (update_first f d ≡ some e)
unfolding update_first
update_first_total f d r = go d.locations r
  where
    go :
        (ls : List Location)
        → HasRoot ls
        → (e : Draft) × ((first_updated f ls
              >>= (λ locations. some (record d { locations = locations })))
            ≡ some e)
    go [] r = absurd r
    go (l ∷ ls) r = (record d { locations = f l ∷ ls }, refl)

abbrev Anything : Drafts → Type 0
Anything u = Unit

module _ (ext : Externals) (heap : Heap) (store : Store) (cfg : Options) where
  add_default_total :
      (n : ℕ) (anns : ParsedAnnotations) (upstreams : Upstreams) (du : Backend) (u : Drafts)
      → IsNewServerAll u
      → HasKey def_server_name u
      → (p : String × Drafts) × (add_default ext heap store cfg n anns upstreams du u ≡ some p)
  unfolding add_default
  add_default_total n anns upstreams du u a (d, h) =
      let ing = heap.ingress n in
      elim (Option-cases (default_service_of ing)) [
        | inl nothing ↦ ((du.name, u), rw (nothing, add_default) refl)
        | inr (s, named) ↦
            elim (Option-cases (lookup (upstream_name ing.namespace (some s)) upstreams)) [
              | inl missing ↦ ((du.name, u), rw (named, missing, add_default) refl)
              | inr (b, found) ↦
                  let (e, k) =
                    update_first_total (default_location n (is_no_list ing.rules) anns b) d
                      (lookup-All IsNewServer def_server_name d u a h).2 in
                  ((b.name, put def_server_name e u), rw (named, found, h, k, add_default) refl)
            ]
      ]

  add_servers_total :
      (n : ℕ) (upstreams : Upstreams) (du : Backend) (u : Drafts)
      → HasAnnotations (heap.ingress n)
      → IsNewServerAll u
      → HasKey def_server_name u
      → (w : Drafts) × (add_servers ext heap store cfg n upstreams du u ≡ some w)
  unfolding add_servers
  add_servers_total n upstreams du u h a k =
      bind_total (annotations_of store (heap.ingress n)) _
        (annotations_of_total store (heap.ingress n) h)
        (λ anns e.
          let (w, i, _) =
            if_Yields Anything anns.canary.enabled (some u) _ (λ on. (u, refl, tt))
              (λ off.
                let (w, i) =
                  bind_total (add_default ext heap store cfg n anns upstreams du u) _
                    (add_default_total n anns upstreams du u a k) (λ p i. (_, refl)) in
                (w, i, tt)) in
          (w, i))

  add_all_servers_total :
      (ns : List ℕ) (upstreams : Upstreams) (du : Backend) (u : Drafts)
      → All (λ n. HasAnnotations (heap.ingress n)) ns
      → IsNewServerAll u
      → HasKey def_server_name u
      → (w : Drafts) × (add_all_servers ext heap store cfg ns upstreams du u ≡ some w)
  unfolding add_all_servers
  add_all_servers_total [] upstreams du u h a k = (u, refl)
  add_all_servers_total (n ∷ ns) upstreams du u h a k =
      bind_total (add_servers ext heap store cfg n upstreams du u) _
        (add_servers_total n upstreams du u h.0 a k)
        (λ v e.
          let (g, _) = add_servers-Grows ext heap store cfg n upstreams du u v a e in
          add_all_servers_total ns upstreams du v h.1 (Grows-All g a)
            (Grows-HasKey def_server_name g k))

  configure_hosts_total :
      (ing : Ingress) (anns : ParsedAnnotations) (rules : List IngressRule) (c : Configured)
      → All (λ r. HasKey (host_of r) c.servers) rules
      → (d : Configured) × (configure_hosts ext heap store cfg ing anns rules c ≡ some d)
        × ((k : String) → HasKey k c.servers → HasKey k d.servers)
  unfolding configure_hosts
  configure_hosts_total ing anns [] c a = (c, refl, λ k h. h)
  configure_hosts_total ing anns (r ∷ rs) c ((s, i), a) =
      let t : Draft = record s {
        server = configure_server ext heap store cfg ing anns (host_of r) s.server;
      } in
      let next : Configured = record {
        servers = put (host_of r) t c.servers;
        all_aliases = note_aliases anns (host_of r) s.server c.all_aliases;
      } in
      let (d, e, k) =
        configure_hosts_total ing anns rs next
          (All_map (λ q. store-HasKey (host_of q) (host_of r) t c.servers) rs a) in
      (d, rw (i, configure_hosts) e, λ j h. k j (store-HasKey j (host_of r) t c.servers h))

  configure_servers_total :
      (ns : List ℕ) (c : Configured)
      → All (λ n. HasAnnotations (heap.ingress n)) ns
      → All (Hosts ext heap store cfg c.servers) ns
      → (d : Configured) × (configure_servers ext heap store cfg ns c ≡ some d)
  unfolding configure_servers
  configure_servers_total [] c h a = (c, refl)
  configure_servers_total (n ∷ ns) c h a =
      bind_total (annotations_of store (heap.ingress n)) _
        (annotations_of_total store (heap.ingress n) h.0)
        (λ anns e.
          let (v, i, k) =
            if_Yields Keeps anns.canary.enabled (some c) _ (λ on. (c, refl, λ j x. x))
              (λ off.
                configure_hosts_total (heap.ingress n) anns (heap.ingress n).rules c
                  (a.0 anns e off)) in
          bind_total _ (configure_servers ext heap store cfg ns) (v, i)
            (λ w l. configure_servers_total ns w h.1 (
              All_map
                (λ m b other f g.
                  All_map
                    (λ r y.
                      subst (λ (w : Configured). HasKey (host_of r) w.servers) (some_eq (sym i ∙ l))
                        (k (host_of r) y))
                    (heap.ingress m).rules (b other f g))
                ns a.1)))
    where
      Keeps : Configured → Type 0
      Keeps d = (k : String) → HasKey k c.servers → HasKey k d.servers

  -- createServers does not panic if the annotations of every Ingress have been parsed.
  pub create_servers_total :
      (sets : StringSets) (ns : List ℕ) (upstreams : Upstreams) (du : Backend)
      → All (λ n. HasAnnotations (heap.ingress n)) ns
      → (w : Drafts) × (create_servers ext heap store cfg sets ns upstreams du ≡ some w)
  unfolding create_servers default_server lookup
  create_servers_total sets ns upstreams du h =
      let first : Drafts = (def_server_name, default_server ext heap store cfg du) ∷ [] in
      let start : IsNewServerAll first = ((refl, refl, (refl, refl)), tt) in
      bind_total (add_all_servers ext heap store cfg ns upstreams du first) _
        (add_all_servers_total ns upstreams du first h start
          (default_server ext heap store cfg du, refl))
        (λ u e.
          bind_total
            (configure_servers ext heap store cfg ns (record { servers = u; all_aliases = [] })) _
            (configure_servers_total ns (record { servers = u; all_aliases = [] }) h
              (add_all_servers-Grows ext heap store cfg ns upstreams du first u start e).1)
            (λ c f. (_, refl)))
