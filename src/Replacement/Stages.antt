-- ===== src/Replacement/Stages.antt =====
-- The stages of `ReplacementOrchestrator` in app/replacement/orchestrator.py, one file for each
-- part of the workflow.
pub mod Provision
pub mod Ready
pub mod Address
pub mod Cleanup
pub mod Deploy
pub mod Master
pub mod Finish
