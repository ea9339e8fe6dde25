-- ===== src/Controller/Building/Backed.antt =====
-- What `getBackendServers` returns, without canary Ingresses: no location is without a backend.
use panda_k8s.Api.Backends.{Backend}
use panda_k8s.Api.Heap.{Heap}
use panda_k8s.Controller.BackendServers.{Backends, sort_locations}
use panda_k8s.Controller.BackendServers.Backed.{
  IsDraft, IsUpstream, IsBacked, add_ingresses-IsBacked,
}
use panda_k8s.Controller.BackendServers.Located.{add_ingresses-Located}
use panda_k8s.Controller.BackendServers.Order.{sort_locations-IsSorted}
use panda_k8s.Controller.Building.{
  canary_ingresses, with_sorted, sorted_result, get_backend_servers,
}
use panda_k8s.Controller.Building.Order.{by_name, by_hostname}
use panda_k8s.Controller.Building.Parts.{IsPrimary, Parts, get_backend_servers-Parts}
use panda_k8s.Controller.Canary.{def_server_name}
use panda_k8s.Controller.CreateServers.Backed.{Backed}
use panda_k8s.Controller.CreateServers.Settled.{create_servers-Backed}
use panda_k8s.Controller.CreateServers.Complete.{create_servers-IsServerAll}
use panda_k8s.Controller.CreateServers.Hosts.{Hosts, IsServer, IsServerAll}
use panda_k8s.Controller.CustomBackends.{scan_upstreams}
use panda_k8s.Controller.CustomBackends.Kept.{OrNew, InNames}
use panda_k8s.Controller.CustomBackends.Named.{scan_upstreams-InNames, scan_upstreams-IsDraft}
use panda_k8s.Controller.Drafts.{Draft, Drafts}
use panda_k8s.Controller.Store.{Store, Options}
use panda_k8s.Externals.{Externals}
use panda_k8s.Prelude.{
  ℕ, String, true, All-In, All_of_In, distinct_keys, All_zip, All-HasKey, ◌≡◌, sym, subst, ap, List,
  [], some, lookup, lookup-All, lookup-In, map, sort, sort-All, In, In-map, In-sort, All, All_map,
  All-map, HasKey, inl, inr,
}
use panda_k8s.StringSets.{StringSets}

module _ (ext : Externals) (heap : Heap) (store : Store) (cfg : Options) (sets : StringSets) where
  module _ (ns : List ℕ) (backends : List Backend) (drafts : List Draft)
      (p : Parts ext heap store cfg sets ns backends drafts) where
    -- the servers and upstreams before the loop over the Ingresses
    abbrev pub start : Backends
    start = record { servers = p.servers; upstreams = p.upstreams }

    -- the servers that createServers returns
    pub servers_built :
        IsServerAll p.servers
        × (distinct_keys p.servers ≡ true)
        × HasKey def_server_name p.servers
        × All (Hosts ext heap store cfg p.servers) ns
    servers_built =
        create_servers-IsServerAll ext heap store cfg sets ns p.upstreams p.du p.servers p.created

    start-IsBacked : IsBacked (λ s. HasKey s p.upstreams) start
    start-IsBacked =
        let named : All (λ e. HasKey e.1.name p.upstreams) p.upstreams =
          All_map (λ e h. subst (λ s. HasKey s p.upstreams) (sym h.0.0.0) h.1) p.upstreams
            (All_zip (λ e. IsPrimary ext heap store cfg sets ns e.0 e.1)
              (λ e. HasKey e.0 p.upstreams) p.upstreams p.primary (All-HasKey p.upstreams)) in
        (
          All_map (λ e h. (h.0.0, h.1)) p.servers
              (All_zip (λ e. IsServer e.0 e.1)
                (λ e. Backed (λ s. HasKey s p.upstreams) e.1.locations) p.servers servers_built.0
                (create_servers-Backed (λ s. HasKey s p.upstreams) ext heap store cfg sets ns
                  p.upstreams p.du p.servers named
                  (subst (λ s. HasKey s p.upstreams) (sym p.default_new.0) p.default_there)
                  p.created)),
          All_map (λ e h. (h.0.0.0, h.1)) p.upstreams
              (All_zip (λ e. IsPrimary ext heap store cfg sets ns e.0 e.1)
                (λ e. HasKey e.1.name p.upstreams) p.upstreams p.primary named),
        )

    last-IsBacked : IsBacked (λ s. HasKey s p.upstreams) p.last
    last-IsBacked =
        add_ingresses-IsBacked (λ s. HasKey s p.upstreams) heap store ns start p.last start-IsBacked
          p.added

    -- the servers after the last loop
    abbrev pub scanned : Drafts
    scanned = (scan_upstreams ext heap store p.merged p.last.servers).1

    abbrev pub returned : List Backend
    returned = (scan_upstreams ext heap store p.merged p.last.servers).0

    -- A server stands under its hostname.
    pub scanned-hostname :
        (host : String) (d : Draft) → lookup host scanned ≡ some d → d.server.hostname ≡ host
    scanned-hostname host d h =
        (lookup-All (IsDraft (OrNew (λ s. HasKey s p.upstreams) returned)) host d scanned
          (scan_upstreams-IsDraft ext heap store (λ s. HasKey s p.upstreams) p.merged p.last.servers
            last-IsBacked.0)
          h).0

    drafts_sorted : sort by_hostname (map (with_sorted ext heap store cfg sets) scanned) ≡ drafts
    unfolding sorted_result
    drafts_sorted = ap (λ (r : List Backend × List Draft). r.1) p.sorted

    backends_sorted : sort by_name returned ≡ backends
    unfolding sorted_result
    backends_sorted = ap (λ (r : List Backend × List Draft). r.0) p.sorted

    pub In-drafts :
        (host : String) (d : Draft)
        → lookup host scanned ≡ some d
        → In (with_sorted ext heap store cfg sets (host, d)) drafts
    In-drafts host d h = subst (In (with_sorted ext heap store cfg sets (host, d))) drafts_sorted (
        (In-sort by_hostname (with_sorted ext heap store cfg sets (host, d))
            (map (with_sorted ext heap store cfg sets) scanned)).1
          (In-map (with_sorted ext heap store cfg sets) (host, d) scanned
            (lookup-In host d scanned h)))

    module _ (none : canary_ingresses ext heap store cfg sets ns ≡ []) where
      -- An upstream from the start is returned.
      upstream_returned : (s : String) → HasKey s p.upstreams → InNames s returned
      upstream_returned s (b, h) =
          let (_, kept) = (add_ingresses-Located heap store ns start p.last p.added).0 in
          let (c, found, _, _) = kept s b h in
          subst (λ name. InNames name returned)
            (lookup-All (IsUpstream (λ s. HasKey s p.upstreams)) s c p.last.upstreams
              last-IsBacked.1 found).0
            (scan_upstreams-InNames ext heap store s c p.merged p.last.servers
              (subst (λ u. lookup s u ≡ some c) (sym (p.merged_none none)) found))

      scanned-IsDraft : All (λ e. IsDraft (λ s. InNames s returned) e.0 e.1) scanned
      scanned-IsDraft =
          All_map
            (λ e h. (
              h.0,
              All_map (λ l o. elim o [ inl q ↦ upstream_returned l.backend q | inr new ↦ new ])
                  e.1.locations h.1,
            ))
            scanned
            (scan_upstreams-IsDraft ext heap store (λ s. HasKey s p.upstreams) p.merged
              p.last.servers last-IsBacked.0)

      InNames-backends : (s : String) → InNames s returned → InNames s backends
      InNames-backends s (b, i, e) =
          (b, subst (In b) backends_sorted ((In-sort by_name b returned).1 i), e)

      all_backed : All (λ d. Backed (λ s. InNames s backends) d.locations) drafts
      all_backed = subst (All (λ d. Backed (λ s. InNames s backends) d.locations)) drafts_sorted (
          sort-All by_hostname (λ d. Backed (λ s. InNames s backends) d.locations)
            (map (with_sorted ext heap store cfg sets) scanned)
            (All-map (with_sorted ext heap store cfg sets)
              (λ d. Backed (λ s. InNames s backends) d.locations) scanned
              (All_map
                (λ e h.
                  All_of_In (λ l. InNames l.backend backends) (sort_locations e.1.locations)
                    (λ l i. InNames-backends l.backend (
                      All-In (λ l. InNames l.backend returned) l e.1.locations h.1
                        (((sort_locations-IsSorted e.1.locations).1 l).0 i))))
                scanned scanned-IsDraft)))

  -- Of Ingresses without a canary among them, getBackendServers, if it does not panic, returns for
  -- every location of a server a backend of the name that the location has.
  pub get_backend_servers_backed :
      (ns : List ℕ) (backends : List Backend) (drafts : List Draft)
      → canary_ingresses ext heap store cfg sets ns ≡ []
      → get_backend_servers ext heap store cfg sets ns ≡ some (backends, drafts)
      → All (λ d. All (λ l. InNames l.backend backends) d.locations) drafts
  get_backend_servers_backed ns backends drafts none h =
      all_backed ns backends drafts
        (get_backend_servers-Parts ext heap store cfg sets ns backends drafts h) none
