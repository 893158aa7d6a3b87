-- ===== src/Csi.antt =====
-- src/csi.rs: the CSI driver.
pub mod Capacity
pub mod Types
pub mod Volumes
pub mod Endpoint
pub mod Mounts
pub mod Service
