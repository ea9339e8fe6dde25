-- ===== src/Controller/Store.antt =====
-- What the building of the configuration asks of the store (internal/ingress/controller/store) and
-- of the controller's options: an interface, with pointers into the heap.
use panda_k8s.Annotations.Proxy
use panda_k8s.Api.Servers.{SslCert}
use panda_k8s.Controller.Endpoints.{EndpointSubset}
use panda_k8s.Kube.{Service, ObjectReference}
use panda_k8s.Pointers.{Ptr}
use panda_k8s.Prelude.{ℕ, String, Bool, ℤ, List, Option}

pub record Store : Type 0 where
  -- `GetService`, `GetServiceEndpoints`, `GetLocalSSLCert` and `GetConfigMap`
  pub get_service : String → Option ℕ
  pub get_service_endpoints : String → Option (List EndpointSubset)
  pub get_local_ssl_cert : String → Option ℕ
  pub get_config_map : String → Option (List (String × String))
  -- of `GetBackendConfiguration`
  pub allow_snippet_annotations : Bool
  pub load_balancing : String
  pub enable_access_log_for_default_backend : Bool
  pub proxy_ssl_location_only : Bool
  pub checksum : String
  -- `GetDefaultBackend`, as the `proxy.Config` that is made from it
  pub default_proxy : Proxy.Config

-- `ngx_config.ListenPorts`
pub record ListenPorts : Type 0 where
  pub http : ℤ
  pub https : ℤ
  pub ssl_proxy : ℤ
  pub health : ℤ
  pub default : ℤ

-- of `n.cfg`
pub record Options : Type 0 where
  pub disable_service_external_name : Bool
  pub default_service : String
  pub default_ssl_certificate : String
  pub fake_certificate : Ptr SslCert
  pub tcp_config_map_name : String
  pub udp_config_map_name : String
  pub listen_ports : ListenPorts
  -- where `newUpstream` and `createServers` put the empty Service that they allocate
  pub empty_service : Ptr Service
  -- where `DefaultEndpoint` puts the empty reference that it allocates
  pub empty_reference : Ptr ObjectReference
