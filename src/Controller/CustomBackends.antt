-- ===== src/Controller/CustomBackends.antt =====
-- internal/ingress/controller/controller.go: the backends for the default backend that an annotation
-- names, in the last part of `getBackendServers`, in the order of the map.
pub mod Kept
pub mod Named
use panda_k8s.Api.Backends.{Endpoint, Backend}
use panda_k8s.Api.Heap.{Heap}
use panda_k8s.Api.Servers.{Location, Server}
use panda_k8s.Controller.Canary.{Upstreams, def_upstream_name}
use panda_k8s.Controller.Drafts.{Drafts}
use panda_k8s.Controller.CreateUpstreams.{is_no_list}
use panda_k8s.Controller.Endpoints.{get_endpoints}
use panda_k8s.Controller.Locations.{root_location}
use panda_k8s.Controller.Store.{Store}
use panda_k8s.Externals.{Externals}
use panda_k8s.Kube.{Service, ServicePort}
use panda_k8s.Pointers.{nil, at}
use panda_k8s.Prelude.{
  String, text_append, Bool, true, false, not, ◌&&◌, ◌||◌, ◌==◌, List, [], ◌∷◌, ◌++◌, some,
  if◌then◌else◌,
}
use panda_k8s.Sets.Slices.{made, elems}

-- `shouldCreateUpstreamForLocationDefaultBackend`
unfoldable pub should_create : Backend → Location → Bool
should_create upstream loc =
    upstream.name == loc.backend
    && (is_no_list (elems upstream.endpoints) || not (is_no_list (elems loc.custom_http_errors)))
    && elim loc.default_backend [ nil ↦ false | at n ↦ true ]

-- what became of a location: the backends that are new, and whether its server is in `isHTTPSfrom`
pub record Scanned : Type 0 where
  pub location : Location
  pub backends : List Backend
  pub is_https : Bool

-- a location with a backend of its own for errors
abbrev pub custom_name : Service → String
custom_name svc =
    text_append "custom-default-backend-" (text_append svc.namespace (text_append "-" svc.name))

-- once the endpoints of the default backend are read
unfoldable pub with_custom : Backend → Service → Location → List Endpoint → Location × List Backend
with_custom upstream svc loc [] = (loc, [])
with_custom upstream svc loc (e ∷ es) = (
  record loc {
    default_backend_upstream_name = custom_name svc;
    backend = if is_no_list (elems upstream.endpoints) then custom_name svc else loc.backend;
  },
  record upstream { name = custom_name svc; endpoints = made (e ∷ es) } ∷ [],
)

module _ (ext : Externals) (heap : Heap) (store : Store) where
  -- the first port of the default backend, and its endpoints
  unfoldable pub scan_service : Backend → Server → Location → Service → List ServicePort → Scanned
  unfolding with_custom get_endpoints
  scan_service upstream server loc svc [] = record {
    location = loc;
    backends = [];
    is_https = false;
  }
  scan_service upstream server loc svc (port ∷ ports) =
      let (loc', backends) =
        with_custom upstream svc loc
          (get_endpoints ext (some svc) (some port) "TCP" store.get_service_endpoints) in
      record {
        location = loc';
        backends = backends;
        is_https =
            server.ssl_passthrough
            && loc'.path == root_location
            && not (loc'.backend == def_upstream_name);
      }

  -- the body of the loop over the locations
  unfoldable pub scan_location : Backend → Server → Location → Scanned
  unfolding scan_service should_create
  scan_location upstream server loc =
      let unchanged : Scanned = record { location = loc; backends = []; is_https = false } in
      if not (should_create upstream loc) then unchanged else elim loc.default_backend [
        | nil ↦ unchanged
        | at n ↦ scan_service upstream server loc (heap.service n) (heap.service n).ports
      ]

  -- what became of servers
  pub record ScannedAll (A : Type 0) : Type 0 where
    pub scanned : A
    pub new_backends : List Backend
    pub any_https : Bool

  unfoldable pub scan_locations : Backend → Server → List Location → ScannedAll (List Location)
  unfolding scan_location
  scan_locations upstream server [] = record { scanned = []; new_backends = []; any_https = false }
  scan_locations upstream server (l ∷ ls) =
      let one = scan_location upstream server l in
      let rest = scan_locations upstream server ls in
      record {
        scanned = one.location ∷ rest.scanned;
        new_backends = one.backends ++ rest.new_backends;
        any_https = one.is_https || rest.any_https;
      }

  unfoldable pub scan_servers : Backend → Drafts → ScannedAll Drafts
  unfolding scan_locations
  scan_servers upstream [] = record { scanned = []; new_backends = []; any_https = false }
  scan_servers upstream ((host, d) ∷ ds) =
      let one = scan_locations upstream d.server d.locations in
      let rest = scan_servers upstream ds in
      record {
        scanned = (host, record d { locations = one.scanned }) ∷ rest.scanned;
        new_backends = one.new_backends ++ rest.new_backends;
        any_https = one.any_https || rest.any_https;
      }

  -- the loop over the upstreams: `aUpstreams`, and the servers after it
  unfoldable pub scan_upstreams : Upstreams → Drafts → List Backend × Drafts
  unfolding scan_servers
  scan_upstreams [] servers = ([], servers)
  scan_upstreams ((name, upstream) ∷ rest) servers =
      let found = scan_servers upstream servers in
      let next = if upstream.name == def_upstream_name then servers else found.scanned in
      let (backends, last) = scan_upstreams rest next in
      (
        if upstream.name == def_upstream_name
            then upstream ∷ backends
            else record upstream { ssl_passthrough = upstream.ssl_passthrough || found.any_https }
              ∷ (found.new_backends ++ backends),
        last,
      )
