-- ===== src/Controller/Building.antt =====
-- internal/ingress/controller/controller.go: the configuration that the Ingresses make
-- (`getBackendServers` from its start to its end, and `getConfiguration`). Servers, locations and
-- backends are lists of values. `none` is a panic.
pub mod Parts
pub mod Backed
pub mod Served
pub mod Order
pub mod Total
pub mod Consistent
use panda_k8s.Api.Backends.{Backend, L4Service}
use panda_k8s.Api.Heap.{Heap}
use panda_k8s.Api.Servers.{SslCert, Location, Server, SslPassthroughBackend}
use panda_k8s.Api.Zero.{no_location}
use panda_k8s.Controller.BackendServers.{add_ingresses, sort_locations}
use panda_k8s.Controller.Canary.{Upstreams, merge_alternative_backends}
use panda_k8s.Controller.Certificates.{get_default_ssl_certificate}
use panda_k8s.Controller.CreateServers.{create_servers}
use panda_k8s.Controller.Drafts.{Draft, Drafts, annotations_of}
use panda_k8s.Controller.CreateUpstreams.{get_default_upstream, create_upstreams}
use panda_k8s.Controller.CustomBackends.{scan_upstreams}
use panda_k8s.Controller.Locations.{root_location, update_server_locations}
use panda_k8s.Controller.Store.{Store, Options}
use panda_k8s.Controller.Streams.{get_stream_services}
use panda_k8s.Externals.{Externals}
use panda_k8s.Pointers.{Ptr, at}
use panda_k8s.Prelude.{
  ℕ, zero, suc, ◌+◌, String, Bool, not, ◌==◌, List, [], ◌∷◌, ◌++◌, Option, none, some, length, ltb,
  map, sort, text_lt, filter_map, if◌then◌else◌, ◌>>=◌,
}
use panda_k8s.Sets.Slices.{Slice, made, elems}
use panda_k8s.StringSets.{StringSets}

-- the addresses of the locations of a server, from the next free one on
abbrev addresses : ℕ → List Location → List (Ptr Location)
addresses n [] = []
addresses n (l ∷ ls) = at n ∷ addresses (suc n) ls

-- the servers with pointers to their locations, which stand in one list
abbrev pub published : ℕ → Drafts → List (String × Server)
published n [] = []
published n ((host, d) ∷ ds) =
    (host, record (d.server) { locations = made (addresses n d.locations) })
    ∷ published (n + length d.locations) ds

abbrev pub all_locations : Drafts → List Location
all_locations [] = []
all_locations ((host, d) ∷ ds) = d.locations ++ all_locations ds

abbrev location_at : List Location → ℕ → Location
location_at [] n = no_location
location_at (l ∷ ls) zero = l
location_at (l ∷ ls) (suc n) = location_at ls n

-- the heap with these locations
abbrev pub with_locations : Heap → Drafts → Heap
with_locations heap servers = record heap { location = location_at (all_locations servers) }

module _ (ext : Externals) (heap : Heap) (store : Store) (cfg : Options) (sets : StringSets) where
  -- `canaryIngresses`
  unfoldable pub canary_ingresses : List ℕ → List ℕ
  unfolding filter_map annotations_of
  canary_ingresses = filter_map (λ n. elim (annotations_of store (heap.ingress n)) [
    | none ↦ none
    | some anns ↦ if anns.canary.enabled then some n else none
  ])

  -- the loop over `canaryIngresses`
  unfoldable pub merge_canaries : Drafts → List ℕ → Upstreams → Option Upstreams
  unfolding merge_alternative_backends
  merge_canaries servers [] upstreams = some upstreams
  merge_canaries servers (n ∷ ns) upstreams =
      merge_alternative_backends (with_locations heap servers) (heap.ingress n)
        (published 0 servers) upstreams
      >>= merge_canaries servers ns

  -- `nonCanaryIngressExists`
  abbrev pub non_canary_ingress_exists : List ℕ → List ℕ → Bool
  non_canary_ingress_exists ns canaries = ltb (length canaries) (length ns)

  -- `sort.SliceStable` of the servers and their locations, and of the upstreams
  abbrev pub with_sorted : String × Draft → Draft
  with_sorted (host, d) = record d { locations = sort_locations d.locations }

  unfoldable pub sorted_result : Upstreams → Drafts → List Backend × List Draft
  unfolding scan_upstreams sort sort_locations
  sorted_result upstreams servers =
      let (backends, last) = scan_upstreams ext heap store upstreams servers in
      (
        sort (λ a b. text_lt a.name b.name) backends,
        sort (λ a b. text_lt a.server.hostname b.server.hostname) (map with_sorted last),
      )

  -- `getBackendServers`
  unfoldable pub get_backend_servers : List ℕ → Option (List Backend × List Draft)
  unfolding get_default_upstream create_upstreams create_servers add_ingresses canary_ingresses
      merge_canaries sorted_result
  get_backend_servers ns = do
    du ← get_default_upstream ext heap store cfg
    upstreams ← create_upstreams ext heap store cfg (map heap.ingress ns) du
    servers ← create_servers ext heap store cfg sets ns upstreams du
    b ← add_ingresses heap store ns (record { servers = servers; upstreams = upstreams })
    merged ←
        if non_canary_ingress_exists ns (canary_ingresses ns)
        then merge_canaries b.servers (canary_ingresses ns) b.upstreams
        else some b.upstreams
    some (sorted_result merged b.servers)

  -- `getStreamSnippets`
  unfoldable pub get_stream_snippets : List ℕ → Option (List String)
  unfolding annotations_of
  get_stream_snippets [] = some []
  get_stream_snippets (n ∷ ns) = do
    anns ← annotations_of store (heap.ingress n)
    rest ← get_stream_snippets ns
    some (if anns.stream_snippet == "" then rest else anns.stream_snippet ∷ rest)

  -- the set of hosts
  abbrev pub insert_all : List String → sets.Set → sets.Set
  insert_all [] hosts = hosts
  insert_all (h ∷ hs) hosts = insert_all hs (sets.insert hosts h)

  abbrev pub hosts_of : List Draft → sets.Set → sets.Set
  hosts_of [] hosts = hosts
  hosts_of (d ∷ ds) hosts =
      hosts_of ds (insert_all (d.server.hostname ∷ elems d.server.aliases) hosts)

  -- the first root location of a server whose TLS is passed through
  abbrev pub root_passthrough : String → List Location → List SslPassthroughBackend
  root_passthrough host [] = []
  root_passthrough host (l ∷ ls) =
      let rest = root_passthrough host ls in
      if not (l.path == root_location)
      then rest
      else record { service = l.service; port = l.port; backend = l.backend; hostname = host } ∷ []

  abbrev pub passthrough_of : Draft → List SslPassthroughBackend
  passthrough_of d =
      if d.server.ssl_passthrough then root_passthrough d.server.hostname d.locations else []

  -- `updateServerLocations`, for every server
  unfoldable pub update_servers : List Draft → Option (List Draft)
  unfolding update_server_locations
  update_servers [] = some []
  update_servers (d ∷ ds) = do
    locations ← update_server_locations d.locations
    rest ← update_servers ds
    some (record d { locations = locations } ∷ rest)

  abbrev pub all_passthrough : List Draft → List SslPassthroughBackend
  all_passthrough [] = []
  all_passthrough (d ∷ ds) = passthrough_of d ++ all_passthrough ds

  -- the hosts, and the fields of the configuration
  pub record BuiltConfiguration : Type 0 where
    pub hosts : sets.Set
    pub backends : List Backend
    pub servers : List Draft
    pub tcp_endpoints : Slice L4Service
    pub udp_endpoints : Slice L4Service
    pub passthrough_backends : List SslPassthroughBackend
    pub backend_config_checksum : String
    pub default_ssl_certificate : Ptr SslCert
    pub stream_snippets : List String

  -- `getConfiguration`
  unfoldable pub get_configuration : List ℕ → Option BuiltConfiguration
  unfolding get_backend_servers update_servers get_stream_services get_stream_snippets
      get_default_ssl_certificate
  get_configuration ns = do
    found ← get_backend_servers ns
    servers ← update_servers found.1
    snippets ← get_stream_snippets ns
    some (record {
      hosts = hosts_of servers sets.empty;
      backends = found.0;
      servers = servers;
      tcp_endpoints = get_stream_services cfg ext heap store "TCP" cfg.tcp_config_map_name;
      udp_endpoints = get_stream_services cfg ext heap store "UDP" cfg.udp_config_map_name;
      passthrough_backends = all_passthrough servers;
      backend_config_checksum = store.checksum;
      default_ssl_certificate = get_default_ssl_certificate ext heap store cfg;
      stream_snippets = snippets;
    })
