-- ===== src/Api/Equal.antt =====
-- pkg/apis/ingress/types_equals.go
pub mod Backends
pub mod Locations
pub mod Servers
pub mod Configurations
pub mod Interchange
