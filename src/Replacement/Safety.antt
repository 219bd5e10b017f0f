-- ===== src/Replacement/Safety.antt =====
-- What the workflow may delete: the calls that the two cleanups make.
pub mod Reads
pub mod OldVps
pub mod Leftover
pub mod Identity
pub mod Temporary
pub mod Planning
pub mod Creation
pub mod Provisioning
mod Examples
