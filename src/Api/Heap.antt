-- ===== src/Api/Heap.antt =====
-- The heap: what the pointers of the configuration point to.
use panda_k8s.Api.Backends.{Backend}
use panda_k8s.Api.Configurations.{Configuration}
use panda_k8s.Api.Ingresses.{Ingress}
use panda_k8s.Api.Servers.{SslCert, Location, Server, SslPassthroughBackend}
use panda_k8s.Kube.{Service, ObjectReference}
use panda_k8s.Prelude.{ℕ}

pub record Heap : Type 0 where
  pub service : ℕ → Service
  pub object_reference : ℕ → ObjectReference
  pub ssl_cert : ℕ → SslCert
  pub ingress : ℕ → Ingress
  pub backend : ℕ → Backend
  pub location : ℕ → Location
  pub server : ℕ → Server
  pub passthrough : ℕ → SslPassthroughBackend
  pub configuration : ℕ → Configuration
