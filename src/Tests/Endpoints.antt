-- ===== src/Tests/Endpoints.antt =====
-- `getEndpoints` on a Service with two subsets, and on one of type ExternalName.
use panda_k8s.Controller.Endpoints.{
  EndpointPort, EndpointAddress, EndpointSubset, get_endpoints, add_addresses, is_local,
  is_invalid_name,
}
use panda_k8s.Api.Backends.{Endpoint}
use panda_k8s.Controller.Endpoints.Complete.{get_endpoints_complete}
use panda_k8s.Controller.Endpoints.Distinct.{host_port}
use panda_k8s.Controller.Endpoints.Sound.{ComesFrom, get_endpoints_sound}
use panda_k8s.Externals.{Externals}
use panda_k8s.Api.Zero.{no_service}
use panda_k8s.Kube.{Kind, IntOrString, Service, ServicePort, int, kind_eq}
use panda_k8s.Pointers
use panda_k8s.Prelude.{
  false, String, ◌||◌, text_append, if◌then◌else◌, true, not, ◌≡◌, ◌==◌, refl, pos, List, [], ◌∷◌,
  Option, none, some, any, All, inl, inr, itoa, join_host_port,
}

abbrev pub web_port : ServicePort
web_port = record {
  name = "web";
  protocol = "TCP";
  port = pos 80;
  target_port = record { kind = int; int_val = pos 8080; str_val = "" };
}

abbrev web : Service
web = record no_service { service_type = "ClusterIP"; name = "web"; namespace = "ns" }

abbrev alias_service : Service
alias_service = record web { service_type = "ExternalName"; external_name = "example.com" }

abbrev address : String → EndpointAddress
address ip = record { ip = ip; target_ref = Pointers.nil }

abbrev web_endpoint_port : EndpointPort
web_endpoint_port = record { name = "web"; port = pos 8080; protocol = "TCP" }

abbrev web_subset : EndpointSubset
web_subset = record {
  addresses = address "10.0.0.1" ∷ address "10.0.0.2" ∷ [];
  ports = record web_endpoint_port { name = "dns"; protocol = "UDP" } ∷ web_endpoint_port ∷ [];
}

abbrev pub answer : String → Option (List EndpointSubset)
answer key = some (web_subset ∷ web_subset ∷ [])

-- an address parser for two addresses, and the rest as Kubernetes has it
abbrev pub two_addresses : Externals
two_addresses = record {
  Ip = String;
  parse_ip = λ s. if s == "127.0.0.1" || s == "10.0.0.1" then some s else none;
  is_loopback = λ ip. ip == "127.0.0.1";
  ip_equal = λ ip bytes. false;
  is_valid_for = λ c host. c.common_name == host;
  is_dns1123_subdomain = λ s. not (s == "" || s == "-");
  int_value = λ (p : IntOrString). if kind_eq p.kind int then p.int_val else pos 0;
  port_string = λ (p : IntOrString). if kind_eq p.kind int then itoa p.int_val else p.str_val;
  from_int = λ n. record { kind = int; int_val = n; str_val = "" };
  from_string = λ s. record { kind = Kind.string; int_val = pos 0; str_val = s };
  meta_namespace_key = λ ns name. text_append ns (text_append "/" name);
}

abbrev at : Service → List Endpoint
at s = get_endpoints two_addresses (some s) (some web_port) "TCP" answer

-- the second subset repeats the first, and the UDP port is not taken
web_run :
    at web
    ≡ record { address = "10.0.0.1"; port = "8080"; target = Pointers.nil }
      ∷ record { address = "10.0.0.2"; port = "8080"; target = Pointers.nil }
      ∷ []
unfolding get_endpoints add_addresses itoa
web_run = refl

aliased_run :
    at alias_service ≡ record { address = "example.com"; port = "8080"; target = Pointers.nil } ∷ []
unfolding get_endpoints is_local is_invalid_name itoa
aliased_run = refl

loopback_run : at (record alias_service { external_name = "127.0.0.1" }) ≡ []
unfolding get_endpoints is_local is_invalid_name
loopback_run = refl

-- the final dot escapes the comparison with `localhost`
dotted_run :
    at (record alias_service { external_name = "localhost." })
    ≡ record { address = "localhost."; port = "8080"; target = Pointers.nil } ∷ []
unfolding get_endpoints is_local is_invalid_name itoa
dotted_run = refl

get_endpoints_complete_example :
    any (λ e. host_port e == join_host_port "10.0.0.2" (itoa (pos 8080))) (at web) ≡ true
get_endpoints_complete_example =
    get_endpoints_complete two_addresses web web_port "TCP" answer (web_subset ∷ web_subset ∷ [])
      web_subset web_endpoint_port (address "10.0.0.2") refl refl (inl refl) (inr (inl refl))
      (refl, refl, refl) (inr (inl refl))

get_endpoints_sound_example : All (ComesFrom web_port "TCP" (web_subset ∷ web_subset ∷ [])) (at web)
get_endpoints_sound_example =
    get_endpoints_sound two_addresses web web_port "TCP" answer (web_subset ∷ web_subset ∷ []) refl
      refl
