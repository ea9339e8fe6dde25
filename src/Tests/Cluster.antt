-- ===== src/Tests/Cluster.antt =====
-- A cluster with one Ingress, its Service and a ConfigMap.
use panda_k8s.Annotations.Parsed.{ParsedAnnotations}
use panda_k8s.Annotations.Zero.{no_parsed_annotations, no_proxy_annotation}
use panda_k8s.Api.Heap.{Heap}
use panda_k8s.Api.Ingresses.{Ingress, HttpIngressPath, ServiceBackend}
use panda_k8s.Api.Zero.{no_heap, no_ingress, no_service}
use panda_k8s.Controller.Store.{Store, Options}
use panda_k8s.Kube.{Service, prefix}
use panda_k8s.Pointers.{at}
use panda_k8s.Prelude.{false, ◌==◌, pos, [], ◌∷◌, none, some, if◌then◌else◌}
use panda_k8s.Sets.Slices.{made}
use panda_k8s.Tests.Endpoints.{answer, web_port}

abbrev pub web : Service
web = record no_service {
  service_type = "ClusterIP";
  name = "web";
  namespace = "ns";
  ports = web_port ∷ [];
}

abbrev pub web_backend : ServiceBackend
web_backend = record { name = "web"; port_number = pos 80; port_name = "" }

abbrev pub path_a : HttpIngressPath
path_a = record { path = "/a"; path_type = some prefix; service = some web_backend }

abbrev pub annotations : ParsedAnnotations
annotations = record no_parsed_annotations { aliases = made ("other" ∷ "h" ∷ "other" ∷ []) }

-- one host with one path, and two aliases, one of which is the host
abbrev pub ingress : Ingress
ingress = record no_ingress {
  namespace = "ns";
  name = "i";
  rules = record { host = "h"; http = some (path_a ∷ []) } ∷ [];
  parsed_annotations = some annotations;
}

abbrev pub heap : Heap
heap = record no_heap { service = λ _. web; ingress = λ _. ingress }

abbrev pub stored : Store
stored = record {
  get_service = λ key. if key == "ns/web" then some 1 else none;
  get_service_endpoints = answer;
  get_local_ssl_cert = λ _. none;
  get_config_map = λ name.
      if name == "ns/tcp"
      then some (("9000", "ns/web:80:PROXY") ∷ ("443", "ns/web:80") ∷ ("5000", "ns/web:web") ∷ [])
      else none;
  allow_snippet_annotations = false;
  load_balancing = "round_robin";
  enable_access_log_for_default_backend = false;
  proxy_ssl_location_only = false;
  checksum = "";
  default_proxy = no_proxy_annotation;
}

abbrev pub options : Options
options = record {
  disable_service_external_name = false;
  default_service = "";
  default_ssl_certificate = "";
  fake_certificate = at 0;
  tcp_config_map_name = "ns/tcp";
  udp_config_map_name = "";
  listen_ports = record {
    http = pos 80;
    https = pos 443;
    ssl_proxy = pos 442;
    health = pos 10254;
    default = pos 8181;
  };
  empty_service = at 2;
  empty_reference = at 0;
}
