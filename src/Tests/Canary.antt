-- ===== src/Tests/Canary.antt =====
-- `mergeAlternativeBackends` on a server with two locations, and the names of upstreams.
use panda_k8s.Api.Backends.{Backend}
use panda_k8s.Api.Heap.{Heap}
use panda_k8s.Api.Ingresses.{Ingress, HttpIngressPath, ServiceBackend}
use panda_k8s.Api.Servers.{Location, Server}
use panda_k8s.Controller.Canary.{Upstreams, merge_alternative_backends, merge_locations}
use panda_k8s.Controller.Canary.Frame.{Unchanged, merge_alternative_backends-Unchanged}
use panda_k8s.Controller.Canary.Invariant.{IsFitAll, merge_alternative_backends-IsFitAll}
use panda_k8s.Controller.Canary.Total.{Has, merge_alternative_backends_total}
use panda_k8s.Controller.Upstreams.{upstream_name}
use panda_k8s.Kube.{prefix}
use panda_k8s.Pointers.{at}
use panda_k8s.Prelude.{
  In, inl, inr, some_eq, false, ◌==◌, ℕ, String, true, ◌≡◌, refl, pos, List, [], ◌∷◌, some, none,
  lookup, store, remove, nat_eq, if◌then◌else◌, itoa,
}
use panda_k8s.Sets.Slices.{made}
use panda_k8s.Api.Zero.{no_backend, no_heap, no_ingress, no_location, no_server}

abbrev locations : ℕ → Location
locations n =
    if nat_eq n 1
    then record no_location { path = "/a"; path_type = some prefix; backend = "ns-web-80" }
    else record no_location { path = "/b"; path_type = some prefix; backend = "ns-other-80" }

abbrev heap : Heap
heap = record no_heap { location = locations }

abbrev server : Server
server = record no_server { hostname = "h"; locations = made (at 1 ∷ at 2 ∷ []) }

abbrev servers : List (String × Server)
servers = ("h", server) ∷ []

abbrev web : Backend
web = record no_backend { name = "ns-web-80" }

abbrev other : Backend
other = record no_backend { name = "ns-other-80" }

abbrev canary : Backend
canary = record no_backend { name = "ns-canary-80"; no_server = true }

abbrev upstreams : Upstreams
upstreams = ("ns-web-80", web) ∷ ("ns-other-80", other) ∷ ("ns-canary-80", canary) ∷ []

abbrev canary_service : ServiceBackend
canary_service = record { name = "canary"; port_number = pos 80; port_name = "" }

abbrev path_to : String → String → HttpIngressPath
path_to path service = record {
  path = path;
  path_type = some prefix;
  service = some (record { name = service; port_number = pos 80; port_name = "" });
}

abbrev canary_ingress : List HttpIngressPath → Ingress
canary_ingress paths = record no_ingress {
  namespace = "ns";
  rules = record { host = "h"; http = some paths } ∷ [];
}

abbrev web_merged : Backend
web_merged = record web { alternative_backends = made ("ns-canary-80" ∷ []) }

abbrev upstreams_merged : Upstreams
upstreams_merged =
    ("ns-web-80", web_merged) ∷ ("ns-other-80", other) ∷ ("ns-canary-80", canary) ∷ []

merge_run :
    merge_alternative_backends heap (canary_ingress (path_to "/a" "canary" ∷ [])) servers upstreams
    ≡ some upstreams_merged
unfolding merge_alternative_backends merge_locations upstream_name itoa lookup store
merge_run = refl

-- A second path without a location removes the backend that the first path has merged, and leaves
-- its name behind.
dangling_run :
    merge_alternative_backends heap
      (canary_ingress (path_to "/a" "canary" ∷ path_to "/z" "canary" ∷ []))
      servers
      upstreams
    ≡ some (("ns-web-80", web_merged) ∷ ("ns-other-80", other) ∷ [])
unfolding merge_alternative_backends merge_locations upstream_name itoa lookup store remove
dangling_run = refl

-- After the removal of a backend that a location of another server uses, the next canary path on
-- that server panics.
panic_run :
    merge_alternative_backends heap
      (canary_ingress (path_to "/a" "canary" ∷ []))
      servers
      (remove "ns-web-80" upstreams)
    ≡ none
unfolding merge_alternative_backends merge_locations upstream_name itoa lookup remove
panic_run = refl

upstreams-IsFitAll : IsFitAll upstreams
upstreams-IsFitAll = (
  record { named = refl; apart = refl; unique = refl },
  (
    record { named = refl; apart = refl; unique = refl },
    (record { named = refl; apart = refl; unique = refl }, tt),
  ),
)

merge_alternative_backends-IsFitAll_example : IsFitAll upstreams_merged
merge_alternative_backends-IsFitAll_example =
    merge_alternative_backends-IsFitAll (canary_ingress (path_to "/a" "canary" ∷ [])) heap servers
      upstreams upstreams_merged upstreams-IsFitAll merge_run

web_found : lookup "ns-web-80" upstreams_merged ≡ some web_merged
unfolding lookup
web_found = refl

merge_alternative_backends-Unchanged_example :
    (b : Backend) × (lookup "ns-web-80" upstreams ≡ some b) × Unchanged b web_merged
merge_alternative_backends-Unchanged_example =
    merge_alternative_backends-Unchanged (canary_ingress (path_to "/a" "canary" ∷ [])) heap servers
      upstreams upstreams_merged "ns-web-80" web_merged merge_run web_found

canary_found : lookup (upstream_name "ns" (some canary_service)) upstreams_merged ≡ some canary
unfolding lookup upstream_name itoa
canary_found = refl

h_found : lookup "h" servers ≡ some server
unfolding lookup
h_found = refl

other_found : lookup "ns-other-80" upstreams_merged ≡ some other
unfolding lookup
other_found = refl

abbrev primaries : List String
primaries = "ns-web-80" ∷ "ns-other-80" ∷ []

canary_apart :
    (k : String) → In k primaries → (upstream_name "ns" (some canary_service) == k) ≡ false
unfolding upstream_name itoa
canary_apart k (inl e) = rw e refl
canary_apart k (inr (inl e)) = rw e refl
canary_apart k (inr (inr m)) = absurd m

primaries-Has : Has primaries upstreams
unfolding lookup
primaries-Has k (inl e) = (web, rw e refl)
primaries-Has k (inr (inl e)) = (other, rw e refl)
primaries-Has k (inr (inr m)) = absurd m

merge_alternative_backends_total_example :
    (w : Upstreams) × (merge_alternative_backends heap
        (canary_ingress (path_to "/a" "canary" ∷ []))
        servers
        upstreams
      ≡ some w)
merge_alternative_backends_total_example =
    merge_alternative_backends_total primaries heap (canary_ingress (path_to "/a" "canary" ∷ []))
      servers
      (
        (
          (locations 1, prefix, refl, refl, inl refl),
          ((locations 2, prefix, refl, refl, inr (inl refl)), tt),
        ),
        tt,
      )
      upstreams refl
      (
        (
          path_to "/a" "canary" ∷ [],
          refl,
          (((prefix, refl), λ s k g m. rw (← some_eq g) (canary_apart k m)), tt),
        ),
        tt,
      )
      primaries-Has upstreams-IsFitAll
