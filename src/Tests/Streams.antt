-- ===== src/Tests/Streams.antt =====
-- `getStreamServices` and the endpoints of Services.
use panda_k8s.Api.Backends.{L4Service}
use panda_k8s.Controller.Endpoints.{get_endpoints, add_addresses}
use panda_k8s.Controller.Streams.{get_stream_services}
use panda_k8s.Controller.Streams.References.{StandsFor, In-get_stream_services}
use panda_k8s.Controller.Streams.Sound.{IsServed, get_stream_services-IsServed}
use panda_k8s.Names.{parse_name_ns}
use panda_k8s.Pointers.{nil, at}
use panda_k8s.Prelude.{String, pos, false, inl, ◌≡◌, ◌↔◌, refl, List, [], ◌∷◌, map, In, All, itoa}
use panda_k8s.Sets.Slices.{elems, made}
use panda_k8s.Tests.Cluster.{heap, stored, options}
use panda_k8s.Tests.Endpoints.{two_addresses}

abbrev tcp_services : List L4Service
tcp_services = elems (get_stream_services options two_addresses heap stored "TCP" "ns/tcp")

-- the reserved port is left out, and the rest is sorted
stream_run : map (λ s. s.port) tcp_services ≡ pos 5000 ∷ pos 9000 ∷ []
unfolding get_stream_services get_endpoints add_addresses itoa
stream_run = refl

get_stream_services-IsServed_example :
    All (IsServed options two_addresses heap stored "TCP") tcp_services
get_stream_services-IsServed_example =
    get_stream_services-IsServed options two_addresses heap stored "TCP" "ns/tcp"

abbrev entries : List (String × String)
entries = ("9000", "ns/web:80:PROXY") ∷ ("443", "ns/web:80") ∷ ("5000", "ns/web:web") ∷ []

abbrev service : L4Service
service = record {
  port = pos 5000;
  backend = record {
    port = two_addresses.from_string "web";
    name = "web";
    namespace = "ns";
    protocol = "TCP";
    proxy_protocol = record { decode = false; encode = false };
  };
  endpoints = made (
      record { address = "10.0.0.1"; port = "8080"; target = nil }
      ∷ record { address = "10.0.0.2"; port = "8080"; target = nil }
      ∷ []);
  service = at 1;
}

-- the service that is returned first
service_run : In service tcp_services
unfolding get_stream_services get_endpoints add_addresses itoa
service_run = inl refl

In-get_stream_services_example : In service tcp_services ↔ (
    (e : String × String) × In e entries
    × StandsFor options two_addresses heap stored "TCP" e service)
unfolding parse_name_ns
In-get_stream_services_example =
    In-get_stream_services options two_addresses heap stored "TCP" "ns/tcp" ("ns", "tcp") entries
      refl refl service
