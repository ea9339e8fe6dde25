-- ===== src/Tests/Overlap.antt =====
-- `checkOverlap` of a new Ingress against a server with two locations, the second a canary's.
use panda_k8s.Annotations.Parser.{get_bool_annotation}
use panda_k8s.Api.Heap.{Heap}
use panda_k8s.Api.Ingresses.{Ingress, IngressRule, HttpIngressPath, ServiceBackend}
use panda_k8s.Api.Servers.{Server}
use panda_k8s.Controller.Drafts.{host_of}
use panda_k8s.Controller.Overlap.{
  accepted, rejected, ingress_for_host_path, conflicts, check_overlap,
}
use panda_k8s.Controller.Overlap.Verdicts.{Overlaps, check_overlap_rejected}
use panda_k8s.Controller.Overlap.Decisions.{
  Decides, found_at, paths_in_order, check_overlap-Decides,
}
use panda_k8s.Kube.{prefix}
use panda_k8s.Pointers.{Ptr, at}
use panda_k8s.Prelude.{
  String, ◌≡◌, refl, pos, List, [], ◌∷◌, some, In, nat_eq, if◌then◌else◌, lookup,
}
use panda_k8s.Sets.Slices.{made}
use panda_k8s.Api.Zero.{no_heap, no_ingress, no_location, no_server}

abbrev nginx : String
nginx = "nginx.ingress.kubernetes.io"

abbrev canary_annotation : List (String × String)
canary_annotation = ("nginx.ingress.kubernetes.io/canary", "true") ∷ []

abbrev web : Ingress
web = record no_ingress { namespace = "ns"; name = "web" }

abbrev canary : Ingress
canary = record no_ingress { namespace = "ns"; name = "canary"; annotations = canary_annotation }

abbrev heap : Heap
heap = record no_heap {
  ingress = λ n. if nat_eq n 1 then web else canary;
  location = λ n.
      if nat_eq n 1
      then record no_location { path = "/a"; ingress = at 1 }
      else record no_location { path = "/b"; ingress = at 2 };
  server = λ n. record no_server { hostname = "h"; locations = made (at 1 ∷ at 2 ∷ []) };
}

abbrev servers : List (Ptr Server)
servers = at 0 ∷ []

abbrev service : ServiceBackend
service = record { name = "new"; port_number = pos 80; port_name = "" }

abbrev path_to : String → HttpIngressPath
path_to p = record { path = p; path_type = some prefix; service = some service }

abbrev rule_of : List HttpIngressPath → IngressRule
rule_of paths = record { host = "h"; http = some paths }

abbrev plain : Ingress
plain = record no_ingress {
  namespace = "ns";
  name = "new";
  rules = rule_of (path_to "/a" ∷ []) ∷ [];
}

abbrev second_canary : Ingress
second_canary = record canary {
  name = "new";
  rules = rule_of (path_to "/a" ∷ path_to "/b" ∷ []) ∷ [];
}

plain_run : check_overlap heap nginx plain servers ≡ some rejected
unfolding check_overlap ingress_for_host_path conflicts get_bool_annotation
plain_run = refl

-- at `/b` both are canaries, but `/a` has decided
canary_run : check_overlap heap nginx second_canary servers ≡ some accepted
unfolding check_overlap ingress_for_host_path conflicts get_bool_annotation lookup
canary_run = refl

check_overlap_rejected_example :
    (rule : IngressRule) × (paths : List HttpIngressPath) × (path : HttpIngressPath) × In rule
      plain.rules
    × (rule.http ≡ some paths)
    × In path paths
    × Overlaps heap nginx plain servers (host_of rule) path
check_overlap_rejected_example = check_overlap_rejected heap nginx plain servers plain_run

-- `/c` has no Ingress, and `/a` decides before `/b`.
abbrev third_canary : Ingress
third_canary = record canary {
  name = "new";
  rules = rule_of (path_to "/c" ∷ []) ∷ rule_of (path_to "/a" ∷ path_to "/b" ∷ []) ∷ [];
}

check_overlap-Decides_example :
    Decides heap nginx third_canary servers
      (web ∷ [])
      (check_overlap heap nginx third_canary servers)
unfolding found_at paths_in_order ingress_for_host_path
check_overlap-Decides_example =
    check_overlap-Decides heap nginx third_canary servers (("h", path_to "/c") ∷ [])
      (("h", path_to "/b") ∷ []) "h" (path_to "/a") web [] refl (refl, tt) refl
