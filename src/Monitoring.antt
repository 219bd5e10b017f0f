-- ===== src/Monitoring.antt =====
-- app/monitoring: what a check of a node says, and what it does to the node.
pub mod Probes
pub mod Health
pub mod Leases
pub mod Client
mod Examples
