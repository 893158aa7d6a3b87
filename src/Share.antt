-- ===== src/Share.antt =====
-- The share-manager that runs in each pod: src/sharemanager.rs with src/block.rs, src/nfs.rs, src/api.rs
-- and the results of src/exec.rs.
pub mod Config
pub mod Machine
pub mod Block
pub mod Api
pub mod Manager
pub mod Health
pub mod Startup
pub mod Ending
pub mod Outside
pub mod Children
pub mod Shown
pub mod Device
pub mod Server
pub mod CommandLine
