-- ===== src/Workers/MonitoringCycle.antt =====
-- `MonitoringWorker` of app/workers/monitoring.py. The operators' service is taken to be present.
-- The texts and payloads of events are left out.
pub mod Check
pub mod Untouched
pub mod Quiet
pub mod Counts
pub mod Unharmed
pub mod Care
pub mod Careful
mod Examples
use aso_node_recovery.Prelude.{
  Bool, List, String, [], if◌then◌else◌, inl, inr, is_empty, length, nat_eq, not, select, some,
  string_eq, ℕ, ◌&&◌, ◌+◌, ◌==◌, ◌∷◌, ◌⊎◌,
}
use aso_node_recovery.Errors.{Error, ok}
use aso_node_recovery.Models.EventEnums.{
  event_severity_eq, node_check_outcome_eq, replacement_trigger_mode_eq,
  secret_reference_backend_eq,
}
use aso_node_recovery.Models.JobEnums.{replacement_checkpoint_eq, replacement_job_state_eq}
use aso_node_recovery.Models.NodeEnums.{
  NodeOperationMode, deployment_state_eq, node_operation_mode_eq, node_state_eq, provider_type_eq,
  ssh_auth_method_eq, vps_instance_role_eq, vps_instance_state_eq,
}
use aso_node_recovery.Models.Rows.{Node}
use aso_node_recovery.Monitoring.Client.{CheckHost}
use aso_node_recovery.Outside.{Outside}
use aso_node_recovery.Runtime.{Db, Exec, ask, gets, pure, raise, session, try_catch, ◌>>=◌, ◌>>◌}
use aso_node_recovery.Settings.{Settings}
use aso_node_recovery.Workers.MonitoringCycle.Check.{CheckStatus, run_node}

-- `MonitoringCycleResult`
pub record MonitoringCycleResult : Type 0 where
  pub total_nodes : ℕ
  pub checked_nodes : ℕ
  pub skipped_nodes : ℕ
  pub error_nodes : ℕ

abbrev pub add_counts : MonitoringCycleResult → CheckStatus → MonitoringCycleResult
add_counts r CheckStatus.checked = record r { checked_nodes = r.checked_nodes + 1 }
add_counts r CheckStatus.skipped = record r { skipped_nodes = r.skipped_nodes + 1 }
add_counts r CheckStatus.error = record r { error_nodes = r.error_nodes + 1 }

-- `NodeRepository.monitoring_query`
abbrev pub is_monitored : Node → Bool
is_monitored node =
    node.monitoring_enabled && not (node.operation_mode == NodeOperationMode.disabled)

module _ (out : Outside) (client : CheckHost) (settings : Settings) where
  abbrev pub list_monitoring_enabled : Db → List Node
  list_monitoring_enabled db = out.in_name_order (select db.nodes is_monitored)

  unfoldable pub check_all :
      MonitoringCycleResult → List String → List Node → Exec MonitoringCycleResult
  check_all r check_nodes [] = pure r
  check_all r check_nodes (node ∷ nodes) = do
    status ← run_node out client settings node.id (some check_nodes)
    check_all (add_counts r status) check_nodes nodes

  abbrev pub start_result : ℕ → MonitoringCycleResult
  start_result total = record {
    total_nodes = total;
    checked_nodes = 0;
    skipped_nodes = 0;
    error_nodes = 0;
  }

  abbrev pub after_resolution : List Node → Error → Exec MonitoringCycleResult
  after_resolution nodes Error.check_host_error =
      pure (record (start_result (length nodes)) { error_nodes = length nodes })
  after_resolution nodes e = raise e

  -- What follows the `try` around `resolve_nodes`: its answer, or what the cycle returns.
  abbrev pub check_resolved :
      List Node → List String ⊎ MonitoringCycleResult → Exec MonitoringCycleResult
  check_resolved nodes (inl check_nodes) = check_all (start_result (length nodes)) check_nodes nodes
  check_resolved nodes (inr r) = pure r

  unfoldable pub check_listed : List Node → Exec MonitoringCycleResult
  check_listed nodes = do
    resolved ←
        try_catch (do check_nodes ← ask client.resolve_nodes; pure (inl check_nodes))
          (λ e. do r ← after_resolution nodes e; pure (inr r))
    check_resolved nodes resolved

  abbrev pub run_monitoring : Exec MonitoringCycleResult
  run_monitoring = do
    nodes ← session (gets list_monitoring_enabled)
    if is_empty nodes then pure (start_result 0) else check_listed nodes

  -- `run_cycle`
  unfoldable pub run_cycle : Exec MonitoringCycleResult
  run_cycle = do
    paused ← ask (λ n. ok (out.is_paused n))
    if paused then pure (start_result 0) else do
      enabled ← ask (λ n. ok (out.monitoring_enabled n))
      if enabled then run_monitoring else pure (start_result 0)
