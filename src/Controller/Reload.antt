-- ===== src/Controller/Reload.antt =====
-- internal/ingress/controller/nginx.go: can a configuration be applied without a reload? The code
-- compares copies of the two configurations. A copy of a server stands at the address of the server
-- in a heap of copies, since no code sees the addresses of the copies. `none` is the panic at a nil
-- server.
pub mod Dynamic
use panda_k8s.Api.Backends.{L4Service}
use panda_k8s.Api.Configurations.{Configuration}
use panda_k8s.Api.Equal.Configurations.{same_configuration}
use panda_k8s.Api.Heap.{Heap}
use panda_k8s.Api.Servers.{Server}
use panda_k8s.Kube.{IntOrString}
use panda_k8s.Pointers.{Ptr, nil, at}
use panda_k8s.Prelude.{
  String, Bool, true, false, List, [], ◌∷◌, Option, none, some, any, map, ◌>>=◌, if◌then◌else◌,
}
use panda_k8s.Sets.Slices.{made, elems, appended}

abbrev pub points_nowhere : {A : Type 0} → Ptr A → Bool
points_nowhere nil = true
points_nowhere (at n) = false

abbrev pub clear_certificate : Server → Server
clear_certificate s = record s { ssl_cert = nil }

-- the heap of the copies that `clearCertificates` makes
abbrev pub copies : Heap → Heap
copies heap = record heap { server = λ n. clear_certificate (heap.server n) }

-- `clearCertificates`
unfoldable pub clear_certificates : Configuration → Option Configuration
clear_certificates config =
    if any points_nowhere (elems config.servers)
    then none
    else some (record config { servers = appended (elems config.servers) })

abbrev pub clear_l4_service : L4Service → L4Service
clear_l4_service s = record s { endpoints = made []; service = nil }

-- `clearL4serviceEndpoints`
unfoldable pub clear_l4service_endpoints : Configuration → Configuration
clear_l4service_endpoints config = record config {
  tcp_endpoints = appended (map clear_l4_service (elems config.tcp_endpoints));
  udp_endpoints = appended (map clear_l4_service (elems config.udp_endpoints));
}

module _ (heap : Heap) (port_string : IntOrString → String) where
  -- `IsDynamicConfigurationEnough`, with the running configuration first
  unfoldable pub is_dynamic_configuration_enough : Configuration → Configuration → Option Bool
  unfolding clear_certificates clear_l4service_endpoints
  is_dynamic_configuration_enough running pcfg = do
    old ← clear_certificates (clear_l4service_endpoints (record running { backends = made [] }))
    new ← clear_certificates (clear_l4service_endpoints (record pcfg { backends = made [] }))
    some (same_configuration (copies heap) port_string old new)
