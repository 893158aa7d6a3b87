-- ===== src/Controller.antt =====
-- src/controller.rs: the failover controller.
pub mod State
pub mod Detach
pub mod Evict
pub mod Reconcile
pub mod Watch
