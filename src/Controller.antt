-- ===== src/Controller.antt =====
-- internal/ingress/controller: from Ingresses to the configuration.
pub mod Locations
pub mod Endpoints
pub mod Upstreams
pub mod Store
pub mod Services
pub mod Streams
pub mod CreateUpstreams
pub mod Certificates
pub mod CreateServers
pub mod Drafts
pub mod Canary
pub mod Reload
pub mod Removed
pub mod Sync
pub mod Overlap
pub mod Places
pub mod BackendServers
pub mod CustomBackends
pub mod Building
