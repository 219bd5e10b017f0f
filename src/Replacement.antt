-- ===== src/Replacement.antt =====
-- app/replacement: the durable replacement workflow.
pub mod Checkpoints
pub mod Guard
pub mod Leases
pub mod Access
pub mod Mutation
pub mod Queries
pub mod Stages
pub mod Sound
pub mod Safety
pub mod Workflow
pub mod Trigger
pub mod Samples
pub mod SampleWorld
