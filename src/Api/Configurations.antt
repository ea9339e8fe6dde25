-- ===== src/Api/Configurations.antt =====
-- pkg/apis/ingress/types.go: the whole configuration that the template is rendered from.
use panda_k8s.Api.Backends.{Backend, L4Service}
use panda_k8s.Api.Servers.{SslCert, Server, SslPassthroughBackend}
use panda_k8s.Pointers.{Ptr}
use panda_k8s.Prelude.{String}
use panda_k8s.Sets.Slices.{Slice}

pub record Configuration : Type 0 where
  pub backends : Slice (Ptr Backend)
  pub servers : Slice (Ptr Server)
  pub tcp_endpoints : Slice L4Service
  pub udp_endpoints : Slice L4Service
  pub passthrough_backends : Slice (Ptr SslPassthroughBackend)
  pub backend_config_checksum : String
  pub configuration_checksum : String
  pub default_ssl_certificate : Ptr SslCert
  pub stream_snippets : Slice String
