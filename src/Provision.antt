-- ===== src/Provision.antt =====
-- src/provision.rs: configuration from the environment, the names and specs of the objects of a
-- volume, and the choice of a node.
pub mod Config
pub mod Names
pub mod Number
pub mod Specs
pub mod Nodes
