-- ===== src/Api.antt =====
-- pkg/apis/ingress: the types of the configuration, and their `Equal` methods.
pub mod Ingresses
pub mod Backends
pub mod Servers
pub mod Configurations
pub mod Heap
pub mod Equal
pub mod Zero
