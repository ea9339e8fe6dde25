-- ===== src/Controller/BackendServers.antt =====
-- internal/ingress/controller/controller.go: the upstreams and the servers with all their locations
-- (`getBackendServers`), by value as in CreateServers. `none` is a panic.
pub mod Paths
pub mod Covered
pub mod Located
pub mod Duplicates
pub mod Order
pub mod Backed
pub mod Total
use panda_k8s.Annotations.Parsed.{ParsedAnnotations}
use panda_k8s.Annotations.SessionAffinity
use panda_k8s.Api.Backends.{Backend, CookieSessionAffinity, SessionAffinityConfig}
use panda_k8s.Api.Heap.{Heap}
use panda_k8s.Api.Ingresses.{Ingress, IngressRule, HttpIngressPath}
use panda_k8s.Api.Servers.{Location, Server}
use panda_k8s.Api.Zero.{no_location}
use panda_k8s.Controller.Canary.{Upstreams, def_server_name}
use panda_k8s.Controller.Drafts.{Draft, Drafts, annotations_of, host_of, location_apply_annotations}
use panda_k8s.Controller.CreateUpstreams.{is_no_list}
use panda_k8s.Controller.Locations.{root_location}
use panda_k8s.Controller.Places.{place_path}
use panda_k8s.Controller.Store.{Store}
use panda_k8s.Controller.Upstreams.{upstream_name}
use panda_k8s.Kube.{PathType, path_type_eq}
use panda_k8s.Pointers.{at}
use panda_k8s.Prelude.{
  ℕ, String, Bool, true, false, not, ◌&&◌, ◌||◌, ◌==◌, List, [], ◌∷◌, ◌++◌, Option, none, some,
  is_empty, lookup, sort, ltb, byte_length, text_lt, store as put, if◌then◌else◌, ◌>>=◌,
}
use panda_k8s.Sets.Slices.{elems}

-- the authentication of a server by certificates
unfoldable pub with_auth : Bool → ParsedAnnotations → Server → Server
with_auth location_only anns s = record s {
  auth_tls_error =
      if s.auth_tls_error == "" then anns.certificate_auth.auth_tls_error else s.auth_tls_error;
  certificate_auth =
      if s.certificate_auth.auth_ssl_cert.ca_file_name == ""
      then anns.certificate_auth
      else s.certificate_auth;
  proxy_ssl =
      if not location_only && s.proxy_ssl.auth_ssl_cert.ca_file_name == ""
      then anns.proxy_ssl
      else s.proxy_ssl;
}

-- `locs[host] = append(locs[host], path)`
abbrev pub add_cookie_path :
    String → String → List (String × List String) → List (String × List String)
add_cookie_path path host locs =
    put host (elim (lookup host locs) [ none ↦ path ∷ [] | some paths ↦ paths ++ path ∷ [] ]) locs

abbrev pub add_cookie_paths :
    String → List String → List (String × List String) → List (String × List String)
add_cookie_paths path [] locs = locs
add_cookie_paths path (host ∷ hosts) locs =
    add_cookie_paths path hosts (add_cookie_path path host locs)

-- the cookie's part of it; to write into a nil map panics
unfoldable pub with_cookie :
    SessionAffinity.Config
    → String
    → List String
    → CookieSessionAffinity
    → Option CookieSessionAffinity
with_cookie a path hosts c =
    if a.type == "cookie"
    then c.locations >>= (λ locs. some (record {
      name = a.cookie.name;
      expires = a.cookie.expires;
      max_age = a.cookie.max_age;
      locations = some (add_cookie_paths path hosts locs);
      secure = a.cookie.secure;
      path = a.cookie.path;
      same_site = a.cookie.same_site;
      conditional_same_site_none = a.cookie.conditional_same_site_none;
      change_on_failure = a.cookie.change_on_failure;
    }))
    else some c

-- the session affinity of the upstream, after a path of a host with aliases
unfoldable pub with_affinity :
    SessionAffinity.Config
    → String
    → List String
    → SessionAffinityConfig
    → Option SessionAffinityConfig
unfolding with_cookie
with_affinity a path hosts s = do
  cookie ← with_cookie a path hosts s.cookie_session_affinity
  some (record {
    affinity_type = if s.affinity_type == "" then a.type else s.affinity_type;
    affinity_mode = if s.affinity_mode == "" then a.mode else s.affinity_mode;
    cookie_session_affinity = cookie;
  })

-- the server of a rule and the upstreams
pub record Built : Type 0 where
  pub draft : Draft
  pub upstreams : Upstreams

-- the server and the upstream after a path
unfoldable pub with_path :
    ℕ → ParsedAnnotations → String → HttpIngressPath → Backend → Draft → Draft
unfolding place_path
with_path n anns host path ups d =
    let p = place_path n anns ups path d.locations in
    record {
      server = record (d.server) {
        redirect_from_to_www = p.from_to_www || d.server.redirect_from_to_www;
      };
      locations = p.locations;
    }

-- the server and the upstreams after a path whose upstream has the name
unfoldable pub with_upstream :
    ℕ → ParsedAnnotations → String → HttpIngressPath → String → Backend → Built → Option Built
unfolding with_path with_affinity
with_upstream n anns host path name ups b = if ups.no_server then some b else (do
  affinity ←
      with_affinity anns.session_affinity path.path (host ∷ elems b.draft.server.aliases)
        ups.session_affinity
  some (record {
    draft = with_path n anns host path ups b.draft;
    upstreams = put name (record ups { session_affinity = affinity }) b.upstreams;
  }))

-- one round of the loop over the paths of a rule
unfoldable pub add_path :
    ℕ → Ingress → ParsedAnnotations → String → HttpIngressPath → Built → Option Built
unfolding with_upstream
add_path n ing anns host path b = elim path.service [
  | none ↦ some b
  | some service ↦
      let name = upstream_name ing.namespace (some service) in
      do ups ← lookup name b.upstreams; with_upstream n anns host path name ups b
]

unfoldable pub add_paths :
    ℕ → Ingress → ParsedAnnotations → String → List HttpIngressPath → Built → Option Built
unfolding add_path
add_paths n ing anns host [] b = some b
add_paths n ing anns host (p ∷ ps) b = add_path n ing anns host p b >>= add_paths n ing anns host ps

-- the servers and the upstreams
pub record Backends : Type 0 where
  pub servers : Drafts
  pub upstreams : Upstreams

-- the key of the server of a host
abbrev pub server_key : String → Drafts → String
server_key host servers = elim (lookup host servers) [ some d ↦ host | none ↦ def_server_name ]

-- one round of the loop over the rules
unfoldable pub add_rule :
    Bool → ℕ → Ingress → ParsedAnnotations → IngressRule → Backends → Option Backends
unfolding with_auth add_paths
add_rule location_only n ing anns rule b =
    let host = host_of rule in
    let key = server_key host b.servers in
    do
      d ← lookup key b.servers
      let e : Draft = record d { server = with_auth location_only anns d.server } in
          elim rule.http [
            | none ↦ some (
                if host == def_server_name
                then record { servers = put key e b.servers; upstreams = b.upstreams }
                else b)
            | some paths ↦ do
              built ←
                  add_paths n ing anns host paths (record { draft = e; upstreams = b.upstreams })
              some (record { servers = put key built.draft b.servers; upstreams = built.upstreams })
          ]

unfoldable pub add_rules :
    Bool → ℕ → Ingress → ParsedAnnotations → List IngressRule → Backends → Option Backends
unfolding add_rule
add_rules location_only n ing anns [] b = some b
add_rules location_only n ing anns (r ∷ rs) b =
    add_rule location_only n ing anns r b >>= add_rules location_only n ing anns rs

module _ (heap : Heap) (store : Store) where
  -- the loop over the Ingresses
  unfoldable pub add_ingresses : List ℕ → Backends → Option Backends
  unfolding annotations_of add_rules
  add_ingresses [] b = some b
  add_ingresses (n ∷ ns) b = do
    anns ← annotations_of store (heap.ingress n)
    next ← add_rules store.proxy_ssl_location_only n (heap.ingress n) anns (heap.ingress n).rules b
    add_ingresses ns next

-- the order of the locations: descending by path, and then stably by length
abbrev pub by_path : Location → Location → Bool
by_path a b = text_lt b.path a.path

abbrev pub by_length : Location → Location → Bool
by_length a b = ltb (byte_length b.path) (byte_length a.path)

unfoldable pub sort_locations : List Location → List Location
unfolding sort
sort_locations locations = sort by_length (sort by_path locations)
