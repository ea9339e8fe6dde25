-- ===== src/Controller/Building/Order.antt =====
-- The order in which `getBackendServers` returns backends, servers and locations.
use panda_k8s.Api.Backends.{Backend}
use panda_k8s.Api.Heap.{Heap}
use panda_k8s.Controller.BackendServers.{add_ingresses, by_path, by_length}
use panda_k8s.Controller.BackendServers.Order.{sort_locations-IsSorted}
use panda_k8s.Controller.Building.{
  canary_ingresses, merge_canaries, non_canary_ingress_exists, with_sorted, sorted_result,
  get_backend_servers,
}
use panda_k8s.Controller.Canary.{Upstreams}
use panda_k8s.Controller.CreateServers.{create_servers}
use panda_k8s.Controller.CreateUpstreams.{get_default_upstream, create_upstreams}
use panda_k8s.Controller.CustomBackends.{scan_upstreams}
use panda_k8s.Controller.Drafts.{Draft, Drafts}
use panda_k8s.Controller.Store.{Store, Options}
use panda_k8s.Externals.{Externals}
use panda_k8s.Prelude.{
  ℕ, Bool, ◌≡◌, subst, List, some, some_eq, some_of_bind, map, sort-All, sort-IsSorted, IsSorted,
  then_by, text_lt, text_lt_asymmetric, text_lt_transitive, All, All-map, All_all, if◌then◌else◌,
}
use panda_k8s.StringSets.{StringSets}

-- the order of the backends, and of the servers
abbrev pub by_name : Backend → Backend → Bool
by_name a b = text_lt a.name b.name

abbrev pub by_hostname : Draft → Draft → Bool
by_hostname a b = text_lt a.server.hostname b.server.hostname

-- backends in order, servers in order, and the locations of each
abbrev pub InOrder : List Backend → List Draft → Type 0
InOrder backends drafts =
    IsSorted by_name backends
    × IsSorted by_hostname drafts
    × All (λ d. IsSorted (then_by by_length by_path) d.locations) drafts

module _ (ext : Externals) (heap : Heap) (store : Store) (cfg : Options) (sets : StringSets) where
  sorted_result-InOrder :
      (upstreams : Upstreams) (u : Drafts)
      → InOrder
          (sorted_result ext heap store cfg sets upstreams u).0
          (sorted_result ext heap store cfg sets upstreams u).1
  unfolding sorted_result
  sorted_result-InOrder upstreams u =
      let (backends, last) = scan_upstreams ext heap store upstreams u in
      let drafts = map (with_sorted ext heap store cfg sets) last in
      (
        sort-IsSorted by_name (λ a b. text_lt_asymmetric a.name b.name)
            (λ a b c. text_lt_transitive a.name b.name c.name) backends,
        sort-IsSorted by_hostname (λ a b. text_lt_asymmetric a.server.hostname b.server.hostname)
            (λ a b c. text_lt_transitive a.server.hostname b.server.hostname c.server.hostname)
            drafts,
        sort-All by_hostname (λ d. IsSorted (then_by by_length by_path) d.locations) drafts
            (All-map (with_sorted ext heap store cfg sets)
              (λ d. IsSorted (then_by by_length by_path) d.locations) last
              (All_all (λ e. (sort_locations-IsSorted e.1.locations).0) last)),
      )

  -- Whatever the Ingresses: what getBackendServers returns, if it does not panic, is in order, the
  -- backends by their names, the servers by their hostnames, and the locations of each server with
  -- longer paths first, and of those with paths of one length the ones whose paths are greater.
  pub get_backend_servers-InOrder :
      (ns : List ℕ) (backends : List Backend) (drafts : List Draft)
      → get_backend_servers ext heap store cfg sets ns ≡ some (backends, drafts)
      → InOrder backends drafts
  unfolding get_backend_servers
  get_backend_servers-InOrder ns backends drafts h =
      let result : List Backend × List Draft = (backends, drafts) in
      let (du, _, i) = some_of_bind (get_default_upstream ext heap store cfg) (λ du. _) result h in
      let (upstreams, _, j) =
        some_of_bind (create_upstreams ext heap store cfg (map heap.ingress ns) du) (λ upstreams. _)
          result i in
      let (servers, _, k) =
        some_of_bind (create_servers ext heap store cfg sets ns upstreams du) (λ servers. _) result
          j in
      let (b, _, l) =
        some_of_bind
          (add_ingresses heap store ns (record { servers = servers; upstreams = upstreams }))
          (λ b. _) result k in
      let (merged, _, m) =
        some_of_bind
          (if non_canary_ingress_exists ext heap store cfg sets ns
              (canary_ingresses ext heap store cfg sets ns)
            then merge_canaries ext heap store cfg sets b.servers
                (canary_ingresses ext heap store cfg sets ns) b.upstreams
            else some b.upstreams)
          (λ merged. _) result l in
      subst (λ (r : List Backend × List Draft). InOrder r.0 r.1) (some_eq m)
        (sorted_result-InOrder merged b.servers)
