-- ===== src/Controller/CreateServers/Complete.antt =====
-- `createServers` keeps the servers that it has while it sets their certificates and aliases: what it
-- returns.
use panda_k8s.Annotations.Parsed.{ParsedAnnotations}
use panda_k8s.Api.Backends.{Backend}
use panda_k8s.Api.Heap.{Heap}
use panda_k8s.Api.Ingresses.{Ingress, IngressRule}
use panda_k8s.Controller.Canary.{Upstreams, def_server_name}
use panda_k8s.Controller.CreateServers.Hosts.{
  IsServer, IsNewServerAll, IsServerAll, Hosts, Grows-Hosts, add_all_servers-Grows,
}
use panda_k8s.Controller.CreateServers.{
  default_server, add_all_servers, configure_server, configure_hosts, configure_servers, set_alias,
  set_aliases, create_servers,
}
use panda_k8s.Controller.Drafts.{Draft, Drafts, annotations_of, host_of, Configured, note_aliases}
use panda_k8s.Controller.Store.{Store, Options}
use panda_k8s.Externals.{Externals}
use panda_k8s.Prelude.{
  ℕ, String, true, ◌≡◌, refl, subst, List, [], ◌∷◌, some, some_eq, some_of_bind, lookup, lookup-All,
  store as put, All, All_map, HasKey, Grows, then_Grows, Grows-HasKey, Grows-All, distinct_keys,
  Grows-distinct_keys, inl, inr, Bool-cases, Option-cases,
}
use panda_k8s.StringSets.{StringSets}

module _ (ext : Externals) (heap : Heap) (store : Store) (cfg : Options) where
  configure_hosts-Grows :
      (ing : Ingress) (anns : ParsedAnnotations) (rules : List IngressRule) (c d : Configured)
      → IsServerAll c.servers
      → configure_hosts ext heap store cfg ing anns rules c ≡ some d
      → Grows IsServer c.servers d.servers
  unfolding configure_hosts configure_server
  configure_hosts-Grows ing anns [] c d a h =
      subst (λ x. Grows IsServer c.servers x.servers) (some_eq h) Grows.same
  configure_hosts-Grows ing anns (r ∷ rs) c d a h =
      let (s, i, j) = some_of_bind (lookup (host_of r) c.servers) (λ s. _) d h in
      let t : Draft = record s {
        server = configure_server ext heap store cfg ing anns (host_of r) s.server;
      } in
      let g : Grows IsServer c.servers (put (host_of r) t c.servers) =
        Grows.added (host_of r) t (lookup-All IsServer (host_of r) s c.servers a i) Grows.same in
      then_Grows g (
        configure_hosts-Grows ing anns rs
          (record {
            servers = put (host_of r) t c.servers;
            all_aliases = note_aliases anns (host_of r) s.server c.all_aliases;
          })
          d (Grows-All g a) j)

  configure_servers-Grows :
      (ns : List ℕ) (c d : Configured)
      → IsServerAll c.servers
      → configure_servers ext heap store cfg ns c ≡ some d
      → Grows IsServer c.servers d.servers
  unfolding configure_servers
  configure_servers-Grows [] c d a h =
      subst (λ x. Grows IsServer c.servers x.servers) (some_eq h) Grows.same
  configure_servers-Grows (n ∷ ns) c d a h =
      let (anns, i, j) = some_of_bind (annotations_of store (heap.ingress n)) (λ anns. _) d h in
      elim (Bool-cases anns.canary.enabled) [
        | inl on ↦ configure_servers-Grows ns c d a (rw on at j)
        | inr off ↦
            let (e, k, l) =
              some_of_bind
                (configure_hosts ext heap store cfg (heap.ingress n) anns (heap.ingress n).rules c)
                (configure_servers ext heap store cfg ns) d (rw off at j) in
            let g = configure_hosts-Grows (heap.ingress n) anns (heap.ingress n).rules c e a k in
            then_Grows g (configure_servers-Grows ns e d (Grows-All g a) l)
      ]

  module _ (sets : StringSets) where
    set_alias-Grows :
        (host : String) (aliases : List String) (u : Drafts)
        → IsServerAll u
        → Grows IsServer u (set_alias ext heap store cfg sets host aliases u)
    unfolding set_alias
    set_alias-Grows host aliases u a = elim (Option-cases (lookup host u)) [
      | inl missing ↦ rw (missing, set_alias) Grows.same
      | inr (d, found) ↦
          rw (found, set_alias)
            (Grows.added host _ (lookup-All IsServer host d u a found) Grows.same)
    ]

    set_aliases-Grows :
        (all : List (String × List String)) (u : Drafts)
        → IsServerAll u
        → Grows IsServer u (set_aliases ext heap store cfg sets all u)
    unfolding set_aliases
    set_aliases-Grows [] u a = Grows.same
    set_aliases-Grows ((host, aliases) ∷ rest) u a =
        let g = set_alias-Grows host aliases u a in
        then_Grows g (
          set_aliases-Grows rest (set_alias ext heap store cfg sets host aliases u) (Grows-All g a))

    -- createServers, if it does not panic, returns a server for the default host and one for the host
    -- of every rule of an Ingress that is no canary; each stands under its hostname, once, and its
    -- first location is the root, of type Prefix.
    pub create_servers-IsServerAll :
        (ns : List ℕ) (upstreams : Upstreams) (du : Backend) (w : Drafts)
        → create_servers ext heap store cfg sets ns upstreams du ≡ some w
        → IsServerAll w
          × (distinct_keys w ≡ true)
          × HasKey def_server_name w
          × All (Hosts ext heap store cfg w) ns
    unfolding create_servers default_server put distinct_keys lookup
    create_servers-IsServerAll ns upstreams du w h =
        let first : Drafts = (def_server_name, default_server ext heap store cfg du) ∷ [] in
        let start : IsNewServerAll first = ((refl, refl, (refl, refl)), tt) in
        let (u, i, j) =
          some_of_bind (add_all_servers ext heap store cfg ns upstreams du first) (λ u. _) w h in
        let (c, k, l) =
          some_of_bind
            (configure_servers ext heap store cfg ns (record { servers = u; all_aliases = [] }))
            (λ c. _) w j in
        let (g, hosts) = add_all_servers-Grows ext heap store cfg ns upstreams du first u start i in
        let built : IsServerAll u = All_map (λ e n. (n.0, n.2)) u (Grows-All g start) in
        let m = configure_servers-Grows ns (record { servers = u; all_aliases = [] }) c built k in
        let n = set_aliases-Grows c.all_aliases c.servers (Grows-All m built) in
        let all : Grows IsServer u (set_aliases ext heap store cfg sets c.all_aliases c.servers) =
          then_Grows m n in
        subst
          (λ w.
            IsServerAll w
            × (distinct_keys w ≡ true)
            × HasKey def_server_name w
            × All (Hosts ext heap store cfg w) ns)
          (some_eq l)
          (
            Grows-All all built,
            Grows-distinct_keys all (Grows-distinct_keys g refl),
            Grows-HasKey def_server_name all
                (Grows-HasKey def_server_name g (default_server ext heap store cfg du, refl)),
            All_map
                (Grows-Hosts ext heap store cfg u
                  (set_aliases ext heap store cfg sets c.all_aliases c.servers) all)
                ns hosts,
          )
