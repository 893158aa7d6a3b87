-- ===== src/Recovery.antt =====
-- src/recovery.rs: the NFSv4 recovery backend, an HTTP API that keeps the client ids of each
-- ganesha host in a ConfigMap.
pub mod Types
pub mod Input
pub mod Handlers
pub mod Hosts
pub mod Refinement
pub mod Traces
pub mod Creation
pub mod Sessions
pub mod Router
pub mod Failures
