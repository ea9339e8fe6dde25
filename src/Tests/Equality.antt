-- ===== src/Tests/Equality.antt =====
-- `Compare` and the `Equal` methods at concrete values.
use panda_k8s.Api.Backends.{Endpoint, Backend}
use panda_k8s.Api.Configurations.{Configuration}
use panda_k8s.Api.Equal.Backends.{
  backend_equal, same_backend, service_equal, compare_endpoints, endpoint_equal, target_equal,
  session_affinity_equal, cookie_session_affinity_equal, upstream_hash_by_equal,
  traffic_shaping_policy_equal, compare_backends, compare_l4_service,
}
use panda_k8s.Api.Equal.Configurations.{IsWellFormed, configuration_equal, same_configuration}
use panda_k8s.Api.Equal.Interchange.{configuration_equal_interchange}
use panda_k8s.Api.Equal.Locations.{location_equal, same_location, same_location-IsEquiv}
use panda_k8s.Api.Equal.Servers.{server_equal, same_server, ssl_cert_equal}
use panda_k8s.Api.Servers.{Location, Server}
use panda_k8s.Annotations.AuthTls
use panda_k8s.Annotations.ProxySsl
use panda_k8s.Annotations.AuthSslCert
use panda_k8s.Api.Heap.{Heap}
use panda_k8s.Equality.{==-IsEquiv}
use panda_k8s.Kube.{exact, prefix, IntOrString, int_or_string_eq}
use panda_k8s.Pointers.{at}
use panda_k8s.Prelude.{
  some, ℕ, String, true, false, ◌==◌, ◌≡◌, refl, ◌↔◌, [], ◌∷◌, if◌then◌else◌, nat_eq,
}
use panda_k8s.Sets.{claim, claim_all, compare, string_elements_match}
use panda_k8s.Sets.Multisets.{SameSlices, compare_iff}
use panda_k8s.Sets.Slices.{Slice, nil, made}
use panda_k8s.Api.Zero.{no_heap, no_backend, no_endpoint, no_location, no_configuration, no_server}

abbrev abb : Slice String
abb = made ("a" ∷ "b" ∷ "b" ∷ [])

abbrev bab : Slice String
bab = made ("b" ∷ "a" ∷ "b" ∷ [])

abbrev aab : Slice String
aab = made ("a" ∷ "a" ∷ "b" ∷ [])

-- order does not matter
match_reordered : string_elements_match abb bab ≡ true
unfolding string_elements_match compare claim_all claim
match_reordered = refl

-- the number of times does
match_counts : string_elements_match abb aab ≡ false
unfolding string_elements_match compare claim_all claim
match_counts = refl

-- a nil slice is not an empty one
match_nil : string_elements_match nil (made []) ≡ false
unfolding string_elements_match compare
match_nil = refl

compare_iff_example : (compare ◌==◌ abb bab ≡ true) ↔ SameSlices ◌==◌ abb bab
compare_iff_example = compare_iff ==-IsEquiv abb bab

abbrev first_endpoint : Endpoint
first_endpoint = record no_endpoint { address = "10.0.0.1"; port = "80" }

abbrev second_endpoint : Endpoint
second_endpoint = record no_endpoint { address = "10.0.0.2"; port = "80" }

-- two backends with the same endpoints in another order, and a third with one of them
abbrev backends : ℕ → Backend
backends n =
    if nat_eq n 1
    then record no_backend { endpoints = made (first_endpoint ∷ second_endpoint ∷ []) }
    else if nat_eq n 2
    then record no_backend { endpoints = made (second_endpoint ∷ first_endpoint ∷ []) }
    else record no_backend { endpoints = made (first_endpoint ∷ []) }

abbrev locations : ℕ → Location
locations n = record no_location {
  path = "/a";
  path_type = if nat_eq n 1 then some exact else some prefix;
}

abbrev servers : ℕ → Server
servers n = record no_server {
  aliases = if nat_eq n 1 then made ("a" ∷ "b" ∷ []) else made ("b" ∷ "a" ∷ []);
  locations = made (at n ∷ []);
}

abbrev configurations : ℕ → Configuration
configurations n = record no_configuration { servers = made (at n ∷ []) }

abbrev heap : Heap
heap = record no_heap {
  backend = backends;
  location = locations;
  server = servers;
  configuration = configurations;
}

backends_equal : backend_equal heap (at 1) (at 2) ≡ true
unfolding backend_equal same_backend service_equal session_affinity_equal
    cookie_session_affinity_equal upstream_hash_by_equal traffic_shaping_policy_equal
    compare_endpoints endpoint_equal target_equal int_or_string_eq string_elements_match compare
    claim_all claim
backends_equal = refl

abbrev text_of_port : IntOrString → String
text_of_port p = p.str_val

-- Two locations that differ in their path type: `Equal` does not see it.
locations_equal : location_equal heap text_of_port (at 1) (at 2) ≡ true
unfolding location_equal same_location
locations_equal =
    (same_location-IsEquiv heap text_of_port).reflexive (record no_location { path = "/a" })

-- Two servers with the same aliases in another order.
servers_equal : server_equal heap text_of_port (at 1) (at 2) ≡ true
unfolding server_equal same_server ssl_cert_equal AuthTls.equal ProxySsl.equal AuthSslCert.equal
servers_equal = rw locations_equal

configurations_equal : configuration_equal heap text_of_port (at 1) (at 2) ≡ true
unfolding configuration_equal same_configuration ssl_cert_equal compare_backends compare_l4_service
    compare
configurations_equal = rw servers_equal

configuration_1-IsWellFormed : IsWellFormed heap (configurations 1)
configuration_1-IsWellFormed = record { servers = (refl, tt); passthrough_backends = refl }

configuration_2-IsWellFormed : IsWellFormed heap (configurations 2)
configuration_2-IsWellFormed = record { servers = (refl, tt); passthrough_backends = refl }

configuration_equal_interchange_example :
    (configuration_equal heap text_of_port (at 2) (at 1) ≡ true)
    × (configuration_equal heap text_of_port (at 1) (at 3)
        ≡ configuration_equal heap text_of_port (at 2) (at 3))
configuration_equal_interchange_example =
    configuration_equal_interchange heap text_of_port (at 1) (at 2) (at 3)
      configuration_1-IsWellFormed configuration_2-IsWellFormed configurations_equal
