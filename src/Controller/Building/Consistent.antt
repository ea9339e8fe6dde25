-- ===== src/Controller/Building/Consistent.antt =====
-- The parts of the configuration that `getConfiguration` returns fit together.
use panda_k8s.Api.Heap.{Heap}
use panda_k8s.Api.Servers.{Location}
use panda_k8s.Controller.Building.{
  canary_ingresses, get_backend_servers, get_stream_snippets, insert_all, hosts_of,
  root_passthrough, passthrough_of, update_servers, all_passthrough, BuiltConfiguration,
  get_configuration,
}
use panda_k8s.Controller.Building.Backed.{get_backend_servers_backed}
use panda_k8s.Controller.CreateServers.Backed.{Backed}
use panda_k8s.Controller.CustomBackends.Kept.{InNames}
use panda_k8s.Controller.Drafts.{Draft}
use panda_k8s.Controller.Locations.{
  root_location, needs_rewrite, update_location, update_locations, exact_locations,
  update_server_locations,
}
use panda_k8s.Controller.Store.{Store, Options}
use panda_k8s.Externals.{Externals}
use panda_k8s.Kube.{PathType, prefix, path_type_eq}
use panda_k8s.Prelude.{
  ℕ, String, Bool, not, ◌||◌, ◌==◌, ◌≡◌, refl, subst, List, [], ◌∷◌, some, some_eq, some_of_bind,
  any, All, All-append, if_holds, arith,
}
use panda_k8s.Sets.Slices.{elems}
use panda_k8s.StringSets.{StringSets}

module _ (Q : String → Type 0) where
  update_location-Backed :
      (exacts : List String) (t : PathType) (l : Location)
      → Q l.backend
      → Backed Q (update_location exacts t l)
  unfolding update_location
  update_location-Backed exacts t l q =
      let m : Location = record l { ingress_path = l.path } in
      if_holds (Backed Q) (l.path == root_location) _ _ (λ root. (q, tt))
        (λ other.
          if_holds (Backed Q) (not (path_type_eq t prefix)) _ _ (λ other. (q, tt))
            (λ is_prefix.
              if_holds (Backed Q) (needs_rewrite m || m.rewrite.use_regex) _ _ (λ other. (q, tt))
                (λ plain.
                  if_holds (Backed Q) (any (λ p. p == m.path) exacts) _ _ (λ there. (q, tt))
                    (λ missing. (q, (q, tt))))))

  update_locations-Backed :
      (exacts : List String) (ls ms : List Location)
      → Backed Q ls
      → update_locations exacts ls ≡ some ms
      → Backed Q ms
  unfolding update_locations
  update_locations-Backed exacts [] ms a h = subst (Backed Q) (some_eq h) tt
  update_locations-Backed exacts (l ∷ ls) ms a h =
      let (t, _, i) = some_of_bind l.path_type (λ t. _) ms h in
      let (rest, j, k) = some_of_bind (update_locations exacts ls) (λ rest. _) ms i in
      subst (Backed Q) (some_eq k) (
        All-append (λ m. Q m.backend) (update_location exacts t l) rest
          (update_location-Backed exacts t l a.0) (update_locations-Backed exacts ls rest a.1 j))

  abbrev BackedDrafts : List Draft → Type 0
  BackedDrafts = All (λ d. Backed Q d.locations)

  module _ (ext : Externals) (heap : Heap) (store : Store) (cfg : Options) (sets : StringSets) where
    update_servers-Backed :
        (ds es : List Draft)
        → BackedDrafts ds
        → update_servers ext heap store cfg sets ds ≡ some es
        → BackedDrafts es
    unfolding update_servers update_server_locations
    update_servers-Backed [] es a h = subst BackedDrafts (some_eq h) tt
    update_servers-Backed (d ∷ ds) es a h =
        let (ls, i, j) = some_of_bind (update_server_locations d.locations) (λ ls. _) es h in
        let (exacts, _, u) =
          some_of_bind (exact_locations d.locations) (λ exacts. update_locations exacts d.locations)
            ls i in
        let (rest, k, l) =
          some_of_bind (update_servers ext heap store cfg sets ds) (λ rest. _) es j in
        subst BackedDrafts (some_eq l)
          (update_locations-Backed exacts d.locations ls a.0 u, update_servers-Backed ds rest a.1 k)

    root_passthrough-named :
        (host : String) (ls : List Location)
        → Backed Q ls
        → All (λ p. Q p.backend) (root_passthrough ext heap store cfg sets host ls)
    root_passthrough-named host [] a = tt
    root_passthrough-named host (l ∷ ls) a =
        if_holds (All (λ p. Q p.backend)) (not (l.path == root_location)) _ _
          (λ other. root_passthrough-named host ls a.1) (λ root. (a.0, tt))

    all_passthrough-named :
        (ds : List Draft)
        → BackedDrafts ds
        → All (λ p. Q p.backend) (all_passthrough ext heap store cfg sets ds)
    all_passthrough-named [] a = tt
    all_passthrough-named (d ∷ ds) a =
        All-append (λ p. Q p.backend) (passthrough_of ext heap store cfg sets d)
          (all_passthrough ext heap store cfg sets ds)
          (if_holds (All (λ p. Q p.backend)) d.server.ssl_passthrough _ _
            (λ passed. root_passthrough-named d.server.hostname d.locations a.0) (λ ended. tt))
          (all_passthrough-named ds a.1)

-- the server has the name, as its host or as an alias
abbrev pub answers_to : String → Draft → Bool
answers_to x d = d.server.hostname == x || any (λ a. a == x) (elems d.server.aliases)

module _ (ext : Externals) (heap : Heap) (store : Store) (cfg : Options) (sets : StringSets) where
  open sets use {Set, empty, has, has-empty, has-insert}

  has-insert_all :
      (hs : List String) (s : Set) (x : String)
      → has (insert_all ext heap store cfg sets hs s) x ≡ (any (λ h. h == x) hs || has s x)
  has-insert_all [] s x = refl
  has-insert_all (h ∷ hs) s x =
      ground (arith, has-insert_all hs (sets.insert s h) x, has-insert s h x)

  has-hosts_of :
      (ds : List Draft) (s : Set) (x : String)
      → has (hosts_of ext heap store cfg sets ds s) x ≡ (any (answers_to x) ds || has s x)
  has-hosts_of [] s x = refl
  has-hosts_of (d ∷ ds) s x =
      let hs = d.server.hostname ∷ elems d.server.aliases in
      ground
        (arith, has-hosts_of ds (insert_all ext heap store cfg sets hs s) x, has-insert_all hs s x)

  -- Every location and every server whose TLS is passed through has the name of a backend, and the
  -- hosts are the names that the servers answer to.
  pub record IsConsistent (c : BuiltConfiguration ext heap store cfg sets) : Type 0 where
    pub locations : All (λ d. Backed (λ s. InNames s c.backends) d.locations) c.servers
    pub passthrough : All (λ p. InNames p.backend c.backends) c.passthrough_backends
    pub names : (x : String) → has c.hosts x ≡ any (answers_to x) c.servers

  -- Of Ingresses without a canary among them, getConfiguration, if it does not panic, returns a
  -- configuration in which every location and every passthrough backend has the name of a backend
  -- that is in it, and whose set of hosts has exactly the hostnames and aliases of its servers.
  pub get_configuration-IsConsistent :
      (ns : List ℕ) (c : BuiltConfiguration ext heap store cfg sets)
      → canary_ingresses ext heap store cfg sets ns ≡ []
      → get_configuration ext heap store cfg sets ns ≡ some c
      → IsConsistent c
  unfolding get_configuration
  get_configuration-IsConsistent ns c none h =
      let (found, i, j) =
        some_of_bind (get_backend_servers ext heap store cfg sets ns) (λ found. _) c h in
      let (servers, k, l) =
        some_of_bind (update_servers ext heap store cfg sets found.1) (λ servers. _) c j in
      let (snippets, _, m) =
        some_of_bind (get_stream_snippets ext heap store cfg sets ns) (λ snippets. _) c l in
      let backed =
        update_servers-Backed (λ s. InNames s found.0) ext heap store cfg sets found.1 servers
          (get_backend_servers_backed ext heap store cfg sets ns found.0 found.1 none i) k in
      subst IsConsistent (some_eq m) (record {
        locations = backed;
        passthrough =
            all_passthrough-named (λ s. InNames s found.0) ext heap store cfg sets servers backed;
        names = λ x. ground (arith, has-hosts_of servers empty x, has-empty x);
      })
