-- ===== src/Suite.antt =====
-- The repository's own tests of the parts that run no cluster, as Boolean functions of the models: a test
-- passes where it computes to true. Each function is the test of its name.
mod Disk
mod Blocks
mod Ganeshas
mod Managers
mod Runs
mod Server
mod Nodes
mod Objects
mod States
mod Attachments
mod Rounds
mod Failovers
mod Volumes
mod Drivers
mod Backends
mod Handlers
mod Execs
mod Routing
