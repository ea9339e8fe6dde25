-- ===== src/Tests.antt =====
-- Runs of the model at concrete inputs, and the theorems at inputs that meet their hypotheses.
mod Equality
mod ObjectRefs
mod Locations
mod Endpoints
mod Canary
mod Task
mod Sync
mod Overlap
mod Parsers
mod Names
mod Cluster
mod Streams
mod Servers
mod Building
