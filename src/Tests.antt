-- ===== src/Tests.antt =====
-- Concrete runs of the models, and every conditional theorem applied to one.
mod Clients
mod Cluster
mod Shares
mod Rounds
mod Held
mod Calm
mod Backend
mod Volumes
mod Procedures
mod Exports
mod Endings
mod Sharing
mod Traces
mod Serving
mod Starting
mod Devices
mod Waking
