-- ===== src/Tests/Building.antt =====
-- The configuration of a cluster with one Ingress, and what a second configuration removes.
use panda_k8s.Annotations.Parsed.{ParsedAnnotations}
use panda_k8s.Annotations.Zero.{no_parsed_annotations, no_session_affinity_annotation}
use panda_k8s.Api.Backends.{Backend}
use panda_k8s.Api.Ingresses.{Ingress, ServiceBackend, HttpIngressPath}
use panda_k8s.Api.Configurations.{Configuration}
use panda_k8s.Api.Heap.{Heap}
use panda_k8s.Api.Servers.{Server}
use panda_k8s.Api.Zero.{no_configuration, no_server, no_ingress}
use panda_k8s.Controller.Building.{
  canary_ingresses, get_backend_servers, BuiltConfiguration, get_configuration,
}
use panda_k8s.Controller.Building.Consistent.{IsConsistent, get_configuration-IsConsistent}
use panda_k8s.Controller.Building.Parts.{NoCanary, IsCanary, Unclaimed}
use panda_k8s.Controller.Building.Order.{InOrder, get_backend_servers-InOrder}
use panda_k8s.Controller.Building.Served.{Serves, get_backend_servers-Serves}
use panda_k8s.Controller.Building.Total.{NoDefaultCookie, get_backend_servers_total}
use panda_k8s.Controller.CreateUpstreams.{paths_of}
use panda_k8s.Controller.CreateUpstreams.Grows.{Names}
use panda_k8s.Kube.{prefix}
use panda_k8s.Controller.Drafts.{Draft}
use panda_k8s.Controller.Endpoints.{add_addresses}
use panda_k8s.Controller.Removed.{get_removed_hosts}
use panda_k8s.Controller.Upstreams.{upstream_name}
use panda_k8s.Pointers.{at}
use panda_k8s.Prelude.{
  ℕ, String, true, pos, ◌==◌, ◌≡◌, ◌≢◌, ◌∙◌, inl, inr, sym, ap, subst, In, some_eq, refl, List, [],
  ◌∷◌, Option, none, some, map, lookup, store, itoa, nat_eq, if◌then◌else◌, sort,
}
use panda_k8s.Sets.Slices.{made, elems}
use panda_k8s.StringSets.{list_sets}
use panda_k8s.Tests.Cluster.{path_a, web_backend, annotations, ingress, heap, stored, options}
use panda_k8s.Tests.Endpoints.{two_addresses}

abbrev result : Option (List Backend × List Draft)
result = get_backend_servers two_addresses heap stored options list_sets (1 ∷ [])

abbrev found : Option (List Backend × List Draft) → List Backend × List Draft
found none = ([], [])
found (some r) = r

abbrev summary : List Backend × List Draft → List String × List (String × List String)
summary (backends, drafts) = (
  map (λ b. b.name) backends,
  map (λ d. (d.server.hostname, map (λ l. l.path) d.locations)) drafts,
)

result_run :
    summary (found result)
    ≡ ("ns-web-80" ∷ "upstream-default-backend" ∷ [], ("_", "/" ∷ []) ∷ ("h", "/a" ∷ "/" ∷ []) ∷ [])
unfolding get_backend_servers lookup store upstream_name itoa sort add_addresses
result_run = refl

-- a canary for the path, with another Service
abbrev canary_service : ServiceBackend
canary_service = record { name = "next"; port_number = pos 80; port_name = "" }

abbrev canary_path : HttpIngressPath
canary_path = record { path = "/a"; path_type = some prefix; service = some canary_service }

abbrev canary_annotations : ParsedAnnotations
canary_annotations = record no_parsed_annotations {
  canary = record {
    enabled = true;
    weight = pos 20;
    weight_total = pos 200;
    header = "";
    header_value = "";
    header_pattern = "";
    cookie = "";
  };
}

abbrev canary : Ingress
canary = record no_ingress {
  namespace = "ns";
  name = "canary";
  rules = record { host = "h"; http = some (canary_path ∷ []) } ∷ [];
  parsed_annotations = some canary_annotations;
}

abbrev canary_heap : Heap
canary_heap = record heap { ingress = λ n. if nat_eq n 1 then ingress else canary }

abbrev with_canary : Option (List Backend × List Draft)
with_canary = get_backend_servers two_addresses canary_heap stored options list_sets (1 ∷ 2 ∷ [])

with_canary_run :
    map {B = String × List String}
      (λ b. (b.name, elems b.alternative_backends))
      (found with_canary).0
    ≡ ("ns-next-80", []) ∷ ("ns-web-80", "ns-next-80" ∷ []) ∷ ("upstream-default-backend", []) ∷ []
unfolding get_backend_servers canary_ingresses lookup store upstream_name itoa sort add_addresses
with_canary_run = refl

abbrev IsCanaryHere : ℕ → Type 0
IsCanaryHere = IsCanary two_addresses canary_heap stored options list_sets

primary_here : NoCanary two_addresses canary_heap stored options list_sets 1
primary_here anns parsed = ap (λ (x : ParsedAnnotations). x.canary.enabled) (sym (some_eq parsed))

first_primary : IsCanaryHere 1 → ⊥
first_primary (anns, parsed, on) = let clash = sym (primary_here anns parsed) ∙ on in cc

-- The canary names another upstream.
canary_apart :
    (service : ServiceBackend)
    → Names canary service
    → upstream_name "ns" (some service) ≢ upstream_name "ns" (some web_backend)
unfolding upstream_name itoa
canary_apart service (inl default) same = cc
canary_apart service (inr (rule, inr i, path, j, named)) same = absurd i
canary_apart service (inr (rule, inl here, path, j, named)) same =
    elim (subst (λ r. In path (paths_of r)) here j) [
      | inr k ↦ absurd k
      | inl at_path ↦
          let next : canary_service ≡ service =
            some_eq (ap (λ (q : HttpIngressPath). q.service) (sym at_path) ∙ named) in
          let clash =
            ap (λ s. upstream_name "ns" (some s) == "ns-web-80") next
            ∙ ap (λ s. s == "ns-web-80") same in
          cc
    ]

web-Unclaimed :
    Unclaimed two_addresses canary_heap stored options list_sets
      (1 ∷ 2 ∷ [])
      (upstream_name "ns" (some web_backend))
web-Unclaimed n service (inl first) claims named same =
    first_primary (subst IsCanaryHere first claims)
web-Unclaimed n service (inr (inl second)) claims named same =
    subst
      (λ m.
        Names (canary_heap.ingress m) service
        → upstream_name (canary_heap.ingress m).namespace (some service)
          ≢ upstream_name "ns" (some web_backend))
      (sym second) (canary_apart service) named same
web-Unclaimed n service (inr (inr i)) claims named same = absurd i

get_backend_servers-Serves_example :
    Serves (found with_canary).1 (record { host = "h"; http = some (path_a ∷ []) }) path_a
unfolding get_backend_servers canary_ingresses lookup upstream_name itoa store
get_backend_servers-Serves_example =
    get_backend_servers-Serves two_addresses canary_heap stored options list_sets (1 ∷ 2 ∷ [])
      (found with_canary).0 (found with_canary).1 refl 1
      (record { host = "h"; http = some (path_a ∷ []) }) path_a web_backend (inl refl) primary_here
      (inl refl) (inl refl) refl web-Unclaimed

get_backend_servers-InOrder_example : InOrder (found result).0 (found result).1
unfolding get_backend_servers canary_ingresses lookup upstream_name itoa store
get_backend_servers-InOrder_example =
    get_backend_servers-InOrder two_addresses heap stored options list_sets (1 ∷ [])
      (found result).0 (found result).1 refl

-- an Ingress with the cookie affinity
abbrev with_cookies : Ingress → Ingress
with_cookies ing = record ing {
  parsed_annotations = some (record annotations {
    session_affinity = record no_session_affinity_annotation { type = "cookie" };
  });
}

abbrev heap_of : Ingress → Heap
heap_of ing = record heap { ingress = λ _. with_cookies ing }

abbrev result_of : Ingress → Option (List Backend × List Draft)
result_of ing = get_backend_servers two_addresses (heap_of ing) stored options list_sets (1 ∷ [])

-- Its only path has an upstream of its own.
elsewhere :
    NoDefaultCookie two_addresses (heap_of ingress) stored options list_sets (with_cookies ingress)
unfolding upstream_name itoa
elsewhere anns parsed cookie = (
  (
    λ service named same.
        let clash =
          ap (λ s. upstream_name "ns" (some s) == "upstream-default-backend") (some_eq named)
          ∙ ap (λ s. s == "upstream-default-backend") same in
        cc,
    tt,
  ),
  tt,
)

get_backend_servers_total_example : (r : List Backend × List Draft) × (result_of ingress ≡ some r)
unfolding canary_ingresses
get_backend_servers_total_example =
    get_backend_servers_total two_addresses (heap_of ingress) stored options list_sets (1 ∷ [])
      (λ n e. cc) ((_, refl), tt) (elsewhere, tt) refl

-- A Service whose upstream has the name of the default one: the code writes into a nil map.
abbrev clashing : Ingress
clashing = record ingress {
  namespace = "upstream";
  rules =
      record {
        host = "h";
        http = some (
            record path_a {
              service =
                  some (record { name = "default"; port_number = pos 0; port_name = "backend" });
            }
            ∷ []);
      }
      ∷ [];
}

clashing_run : result_of clashing ≡ none
unfolding get_backend_servers lookup store upstream_name itoa sort add_addresses
clashing_run = refl

abbrev built : Option (BuiltConfiguration two_addresses heap stored options list_sets)
built = get_configuration two_addresses heap stored options list_sets (1 ∷ [])

abbrev configuration :
    Option (BuiltConfiguration two_addresses heap stored options list_sets)
    → BuiltConfiguration two_addresses heap stored options list_sets
configuration (some c) = c
configuration none = record {
  hosts = [];
  backends = [];
  servers = [];
  tcp_endpoints = made [];
  udp_endpoints = made [];
  passthrough_backends = [];
  backend_config_checksum = "";
  default_ssl_certificate = at 0;
  stream_snippets = [];
}

get_configuration-IsConsistent_example :
    IsConsistent two_addresses heap stored options list_sets (configuration built)
unfolding get_configuration canary_ingresses lookup upstream_name itoa store add_addresses
get_configuration-IsConsistent_example =
    get_configuration-IsConsistent two_addresses heap stored options list_sets (1 ∷ [])
      (configuration built) refl refl

-- two servers, of which the first goes
abbrev named_server : String → Server
named_server host = record no_server { hostname = host }

abbrev servers_heap : Heap
servers_heap = record heap {
  server = λ n. if nat_eq n 0 then named_server "a" else named_server "b";
}

abbrev both_servers : Configuration
both_servers = record no_configuration { servers = made (at 0 ∷ at 1 ∷ []) }

abbrev second_server : Configuration
second_server = record no_configuration { servers = made (at 1 ∷ []) }

removed_run :
    get_removed_hosts two_addresses servers_heap list_sets both_servers second_server
    ≡ some ("a" ∷ [])
unfolding get_removed_hosts
removed_run = refl
