-- ===== src/Workers.antt =====
-- app/workers: the two cycles that the scheduler runs.
pub mod RepairCycle
pub mod MonitoringCycle
