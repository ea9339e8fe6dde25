-- ===== src/Tests/Servers.antt =====
-- `createUpstreams`, `createServers` and the locations of the paths, for one Ingress.
use panda_k8s.Api.Backends.{Backend}
use panda_k8s.Api.Servers.{Location}
use panda_k8s.Api.Zero.{no_backend, no_location, no_server}
use panda_k8s.Controller.BackendServers.{Backends, add_ingresses}
use panda_k8s.Controller.Places.{place_path}
use panda_k8s.Controller.BackendServers.Duplicates.{count_path, place_path_duplicate}
use panda_k8s.Controller.BackendServers.Located.{Keeps, LocatedRule, add_ingresses-Located}
use panda_k8s.Controller.Canary.{Upstreams, def_upstream_name, def_server_name}
use panda_k8s.Controller.Certificates.{match_hostnames}
use panda_k8s.Controller.Certificates.Wildcards.{dotted, match_hostnames_wildcard}
use panda_k8s.Controller.CreateServers.{create_servers}
use panda_k8s.Controller.Drafts.{Draft, Drafts}
use panda_k8s.Controller.CreateServers.Aliases.{IsAliased, create_servers-IsAliased}
use panda_k8s.Controller.CreateServers.Complete.{create_servers-IsServerAll}
use panda_k8s.Controller.CreateServers.Hosts.{IsServerAll, Hosts}
use panda_k8s.Controller.CreateUpstreams.{create_upstreams}
use panda_k8s.Controller.CreateUpstreams.Built.{IsNew}
use panda_k8s.Controller.CreateUpstreams.Grows.{CoversIngress, create_upstreams_covers}
use panda_k8s.Controller.Upstreams.{upstream_name}
use panda_k8s.Kube.{exact, prefix}
use panda_k8s.Prelude.{
  ℕ, ◌+◌, String, true, false, ◌≡◌, ◌↔◌, refl, List, [], ◌∷◌, Option, none, some, map, All, HasKey,
  lookup, distinct_keys, store, itoa, contains_char, trim_dot,
}
use panda_k8s.Sets.Slices.{elems}
use panda_k8s.StringSets.{list_sets}
use panda_k8s.Tests.Cluster.{path_a, annotations, ingress, heap, stored, options}
use panda_k8s.Tests.Endpoints.{two_addresses}

abbrev default_upstream : Backend
default_upstream = record no_backend { name = def_upstream_name }

abbrev upstreams : Option Upstreams
upstreams = create_upstreams two_addresses heap stored options (ingress ∷ []) default_upstream

abbrev names : Option Upstreams → List String
names none = []
names (some u) = map (λ e. e.0) u

upstreams_run : names upstreams ≡ "upstream-default-backend" ∷ "ns-web-80" ∷ []
unfolding create_upstreams lookup upstream_name itoa store
upstreams_run = refl

abbrev servers : Option Drafts
servers = create_servers two_addresses heap stored options list_sets (1 ∷ []) [] default_upstream

abbrev aliases : Option Drafts → List (String × List String)
aliases none = []
aliases (some w) = map (λ e. (e.0, elems e.1.server.aliases)) w

servers_run : aliases servers ≡ ("_", []) ∷ ("h", "other" ∷ []) ∷ []
unfolding create_servers lookup store
servers_run = refl

abbrev or_else : {A : Type 0} → A → Option A → A
or_else a none = a
or_else a (some b) = b

create_upstreams_covers_example :
    All (λ e. IsNew e.0 e.1) (or_else [] upstreams)
    × HasKey def_upstream_name (or_else [] upstreams)
    × All (CoversIngress two_addresses heap stored options (or_else [] upstreams)) (ingress ∷ [])
unfolding create_upstreams lookup upstream_name itoa store
create_upstreams_covers_example =
    create_upstreams_covers two_addresses heap stored options (ingress ∷ []) default_upstream
      (or_else [] upstreams) (refl, refl) refl

create_servers-IsServerAll_example :
    IsServerAll (or_else [] servers)
    × (distinct_keys (or_else [] servers) ≡ true)
    × HasKey def_server_name (or_else [] servers)
    × All (Hosts two_addresses heap stored options (or_else [] servers)) (1 ∷ [])
unfolding create_servers lookup store
create_servers-IsServerAll_example =
    create_servers-IsServerAll two_addresses heap stored options list_sets (1 ∷ []) []
      default_upstream (or_else [] servers) refl

abbrev draft_h : Draft
draft_h = or_else (record { server = no_server; locations = [] }) (lookup "h" (or_else [] servers))

create_servers-IsAliased_example : IsAliased (or_else [] servers) (draft_h.server)
unfolding create_servers lookup store
create_servers-IsAliased_example =
    create_servers-IsAliased two_addresses heap stored options list_sets (1 ∷ []) []
      default_upstream (or_else [] servers) refl "h" draft_h refl

abbrev start : Backends
start = record { servers = or_else [] servers; upstreams = or_else [] upstreams }

abbrev added : Option Backends
added = add_ingresses heap stored (1 ∷ []) start

add_ingresses-Located_example :
    Keeps start (or_else start added)
    × All {A = ℕ}
        (λ n. All (LocatedRule "ns" start.upstreams (or_else start added).servers) (ingress.rules))
        (1 ∷ [])
unfolding create_servers create_upstreams add_ingresses lookup store upstream_name itoa
add_ingresses-Located_example =
    add_ingresses-Located heap stored (1 ∷ []) start (or_else start added) refl

abbrev root : Location
root = record no_location { path = "/a"; path_type = some exact }

place_path_duplicate_example :
    count_path "/a"
      (some prefix)
      (place_path 1 annotations default_upstream path_a
        (root ∷ record root { path_type = some prefix } ∷ [])).locations
    ≡ count_path "/a" (some prefix) (root ∷ record root { path_type = some prefix } ∷ []) + 1
place_path_duplicate_example =
    place_path_duplicate 1 annotations default_upstream path_a root
      (record root { path_type = some prefix } ∷ []) refl refl

match_hostnames_wildcard_example : (match_hostnames "*.example.com." "www.example.com" ≡ true) ↔ (
    (label : String) × (contains_char label b'.' ≡ false)
    × (trim_dot "www.example.com" ≡ dotted label "example.com"))
match_hostnames_wildcard_example =
    match_hostnames_wildcard "*.example.com." "www.example.com" "example.com" refl
