-- ===== src/Controller/CreateServers/Settled.antt =====
-- `createServers` sets certificates and aliases without touching the locations: the backends of the
-- locations that it returns are upstreams.
use panda_k8s.Annotations.Parsed.{ParsedAnnotations}
use panda_k8s.Api.Backends.{Backend}
use panda_k8s.Api.Heap.{Heap}
use panda_k8s.Api.Ingresses.{Ingress, IngressRule}
use panda_k8s.Controller.Canary.{Upstreams, def_server_name}
use panda_k8s.Controller.CreateServers.Backed.{
  BackedAll, NamedAll, put-BackedAll, lookup-Backed, add_all_servers-Backed,
}
use panda_k8s.Controller.CreateServers.{
  default_server, add_all_servers, configure_server, configure_hosts, configure_servers, set_alias,
  set_aliases, create_servers,
}
use panda_k8s.Controller.Drafts.{Draft, Drafts, annotations_of, host_of, Configured, note_aliases}
use panda_k8s.Controller.Store.{Store, Options}
use panda_k8s.Externals.{Externals}
use panda_k8s.Prelude.{
  ℕ, String, ◌≡◌, subst, List, [], ◌∷◌, some, some_eq, some_of_bind, lookup, store as put, inl, inr,
  Bool-cases, Option-cases,
}
use panda_k8s.StringSets.{StringSets}

module _ (Q : String → Type 0) where
  module _ (ext : Externals) (heap : Heap) (store : Store) (cfg : Options) where
    configure_hosts-Backed :
        (ing : Ingress) (anns : ParsedAnnotations) (rules : List IngressRule) (c d : Configured)
        → BackedAll Q c.servers
        → configure_hosts ext heap store cfg ing anns rules c ≡ some d
        → BackedAll Q d.servers
    unfolding configure_hosts
    configure_hosts-Backed ing anns [] c d a h =
        subst (λ (x : Configured). BackedAll Q x.servers) (some_eq h) a
    configure_hosts-Backed ing anns (r ∷ rs) c d a h =
        let (s, i, j) = some_of_bind (lookup (host_of r) c.servers) (λ s. _) d h in
        let t : Draft = record s {
          server = configure_server ext heap store cfg ing anns (host_of r) s.server;
        } in
        configure_hosts-Backed ing anns rs
          (record {
            servers = put (host_of r) t c.servers;
            all_aliases = note_aliases anns (host_of r) s.server c.all_aliases;
          })
          d
          (put-BackedAll Q (host_of r) t c.servers a (lookup-Backed Q (host_of r) s c.servers a i))
          j

    configure_servers-Backed :
        (ns : List ℕ) (c d : Configured)
        → BackedAll Q c.servers
        → configure_servers ext heap store cfg ns c ≡ some d
        → BackedAll Q d.servers
    unfolding configure_servers
    configure_servers-Backed [] c d a h =
        subst (λ (x : Configured). BackedAll Q x.servers) (some_eq h) a
    configure_servers-Backed (n ∷ ns) c d a h =
        let (anns, i, j) = some_of_bind (annotations_of store (heap.ingress n)) (λ anns. _) d h in
        elim (Bool-cases anns.canary.enabled) [
          | inl on ↦ configure_servers-Backed ns c d a (rw on at j)
          | inr off ↦
              let (e, k, l) =
                some_of_bind
                  (configure_hosts ext heap store cfg (heap.ingress n) anns (heap.ingress n).rules
                    c)
                  (configure_servers ext heap store cfg ns) d (rw off at j) in
              configure_servers-Backed ns e d
                (configure_hosts-Backed (heap.ingress n) anns (heap.ingress n).rules c e a k) l
        ]

    module _ (sets : StringSets) where
      set_aliases-Backed :
          (all : List (String × List String)) (u : Drafts)
          → BackedAll Q u
          → BackedAll Q (set_aliases ext heap store cfg sets all u)
      unfolding set_aliases set_alias
      set_aliases-Backed [] u a = a
      set_aliases-Backed ((host, aliases) ∷ rest) u a =
          set_aliases-Backed rest (set_alias ext heap store cfg sets host aliases u) kept
        where
          kept : BackedAll Q (set_alias ext heap store cfg sets host aliases u)
          kept = elim (Option-cases (lookup host u)) [
            | inl missing ↦ rw (missing, set_alias) a
            | inr (d, found) ↦
                rw (found, set_alias)
                  (put-BackedAll Q host _ u a (lookup-Backed Q host d u a found))
          ]

      pub create_servers-Backed :
          (ns : List ℕ) (upstreams : Upstreams) (du : Backend) (w : Drafts)
          → NamedAll Q upstreams
          → Q du.name
          → create_servers ext heap store cfg sets ns upstreams du ≡ some w
          → BackedAll Q w
      unfolding create_servers default_server
      create_servers-Backed ns upstreams du w named q h =
          let (u, i, j) =
            some_of_bind
              (add_all_servers ext heap store cfg ns upstreams du
                ((def_server_name, default_server ext heap store cfg du) ∷ []))
              (λ u. _) w h in
          let (c, k, l) =
            some_of_bind
              (configure_servers ext heap store cfg ns (record { servers = u; all_aliases = [] }))
              (λ c. _) w j in
          subst (BackedAll Q) (some_eq l) (
            set_aliases-Backed c.all_aliases c.servers (
              configure_servers-Backed ns (record { servers = u; all_aliases = [] }) c
                (add_all_servers-Backed Q ext heap store cfg upstreams du named q ns
                  ((def_server_name, default_server ext heap store cfg du) ∷ []) u ((q, tt), tt) i)
                k))
