-- ===== src/Settings.antt =====
-- app/core/config.py: the settings that the modelled code reads. A duration that the code waits is
-- counted in thirds of a second, so that a third of the lease is exact; a poll of Check-Host counts
-- in thousandths.
use aso_node_recovery.Prelude.{Bool, List, String, ℕ}

pub record Settings : Type 0 where
  pub dry_run : Bool
  pub allow_real_infrastructure_mutation : Bool
  pub allow_old_vps_deletion : Bool
  pub replacement_emergency_stop : Bool
  pub max_replacement_attempts : ℕ
  pub max_temporary_servers : ℕ
  pub max_concurrent_replacements : ℕ
  pub failure_threshold : ℕ
  pub recovery_threshold : ℕ
  pub check_host_nodes : List String
  pub check_host_max_nodes : ℕ
  pub check_host_min_success_nodes : ℕ
  pub check_host_result_timeout_ms : ℕ
  pub check_host_poll_interval_ms : ℕ
  pub monitoring_lease_seconds : ℕ
  pub replacement_worker_enabled : Bool
  pub provider_reconcile_grace_seconds : ℕ
  pub replacement_job_lease_seconds : ℕ
  pub replacement_vps_boot_grace_thirds : ℕ
  pub replacement_reachability_rounds : ℕ
  pub replacement_reachability_required_consensus : ℕ
  pub replacement_reachability_round_interval_thirds : ℕ
