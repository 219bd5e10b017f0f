-- ===== src/Control.antt =====
-- `ControlService` of app/control/service.py: what an operator may do, each action with its audit
-- event. The snapshots that it only reads, and the cursor of the notifications, are not modelled.
pub mod Modes
pub mod Sound
mod Examples
use aso_node_recovery.NodeLifecycle
use aso_node_recovery.Prelude.{
  Bool, Option, String, [], false, get, if◌then◌else◌, is_some, nat_eq, none, not, some, str_eq,
  string_eq, true, ℕ, ◌&&◌, ◌++◌, ◌==◌, ◌||◌, ◌∷◌,
}
use aso_node_recovery.Errors.{Error, Result, ok}
use aso_node_recovery.Models.EventEnums.{
  EventSeverity, EventType, event_severity_eq, node_check_outcome_eq, replacement_trigger_mode_eq,
  secret_reference_backend_eq,
}
use aso_node_recovery.Models.JobEnums.{replacement_checkpoint_eq, replacement_job_state_eq}
use aso_node_recovery.Models.NodeEnums.{
  NodeOperationMode, NodeState, deployment_state_eq, node_operation_mode_eq, node_state_eq,
  provider_type_eq, ssh_auth_method_eq, vps_instance_role_eq, vps_instance_state_eq,
}
use aso_node_recovery.Models.Rows.{Node, Provider, VpsInstance}
use aso_node_recovery.Monitoring.Client.{CheckHost}
use aso_node_recovery.Operational.{monitoring_enabled}
use aso_node_recovery.Outside.{Outside}
use aso_node_recovery.Registry.Management.{find_node, find_provider}
use aso_node_recovery.Replacement.Access.{utc_now}
use aso_node_recovery.Replacement.Trigger.{get_active_for_node, get_current_for_node, trigger}
use aso_node_recovery.Replacement.Workflow.{RunResult, cancel}
use aso_node_recovery.Runtime.{
  Db, Exec, gets, lift, modify, pure, raise, save_node, save_provider, session, ◌>>=◌, ◌>>◌,
}
use aso_node_recovery.Settings.{Settings}
use aso_node_recovery.Workers.MonitoringCycle.Check.{CheckStatus, run_node}
use aso_node_recovery.Workers.RepairCycle.{resume_with_new_token}

-- An event of an operator, at the time of the clock.
unfoldable pub add_operator_event :
    Outside → Option ℕ → Option ℕ → EventType → EventSeverity → String → Exec (Unit {0})
add_operator_event out node_id job_id event_type severity message = do
  now ← utc_now out
  modify λ db. record db {
    events =
        db.events
        ++ (record {
          node_id = node_id;
          replacement_job_id = job_id;
          event_type = event_type;
          severity = severity;
          message = message;
          created_at = now;
        })
          ∷ [];
  }

-- `_audit`
unfoldable pub audit : Outside → String → Option ℕ → Option ℕ → Exec (Unit {0})
audit out message node_id job_id =
    session
      (add_operator_event out node_id job_id EventType.control_action EventSeverity.info message)

module _ (out : Outside) (settings : Settings) where
  unfoldable pub manual_check : CheckHost → ℕ → Exec CheckStatus
  manual_check client node_id = do
    result ← run_node out client settings node_id none
    audit out "Authorized operator requested a manual node check" (some node_id) none
    pure result

  unfoldable pub trigger_replacement : ℕ → Exec ℕ
  trigger_replacement node_id = do
    job_id ← trigger out settings node_id false none
    audit out "Authorized operator confirmed manual replacement" (some node_id) (some job_id)
    pure job_id

  unfoldable pub trigger_force_repair : ℕ → String → Exec ℕ
  trigger_force_repair node_id request_key = do
    job_id ← trigger out settings node_id true (some request_key)
    audit out "Authorized operator confirmed FORCE REPAIR" (some node_id) (some job_id)
    pure job_id

  -- The audit event of a resumption is kept also where the resumption fails.
  unfoldable pub resume_job : ℕ → Exec RunResult
  resume_job job_id = do
    audit out "Authorized operator resumed replacement job" none (some job_id)
    resume_with_new_token out settings job_id

  unfoldable pub cancel_job : ℕ → Exec (Unit {0})
  cancel_job job_id = do
    cancel out settings job_id
    audit out "Authorized operator cancelled replacement job" none (some job_id)

abbrev pub provider_message : Bool → String
provider_message active =
    if active
    then "Provider enabled by authorized operator"
    else "Provider disabled by authorized operator"

-- What AUTO_REPAIR requires of the node.
abbrev pub has_server : Option VpsInstance → Bool
has_server none = false
has_server (some vps) = not (str_eq vps.provider_server_id "")

abbrev pub is_usable : Option Provider → Bool
is_usable none = false
is_usable (some provider) = provider.is_active

abbrev pub may_repair : ℕ → Node → Db → Bool
may_repair node_id node db =
    has_server (get_current_for_node node_id db) && is_usable (get db.providers node.provider_id)

abbrev pub is_refused : NodeOperationMode → ℕ → Node → Db → Bool
is_refused mode node_id node db =
    mode == NodeOperationMode.auto_repair && not (may_repair node_id node db)

abbrev pub with_mode : NodeOperationMode → Node → Node
with_mode mode node = record node {
  operation_mode = mode;
  monitoring_enabled = not (mode == NodeOperationMode.disabled);
}

abbrev pub without_lease : Node → Node
without_lease node = record node { monitoring_lease_token = none; monitoring_lease_until = none }

-- The node that a change of its mode leaves, by the time `now`.
unfoldable pub change_mode : ℕ → NodeOperationMode → Node → Result (Node × Bool)
change_mode now mode node =
    if mode == NodeOperationMode.disabled
    then NodeLifecycle.transition now (without_lease (with_mode mode node)) NodeState.disabled none
    else if node.state == NodeState.disabled
    then NodeLifecycle.transition now (with_mode mode node) NodeState.unknown none
    else ok (with_mode mode node, false)

abbrev pub mode_severity : NodeOperationMode → EventSeverity
mode_severity NodeOperationMode.auto_repair = EventSeverity.warning
mode_severity _ = EventSeverity.info

abbrev pub mode_message : NodeOperationMode → String
mode_message NodeOperationMode.disabled = "Node operation mode changed to disabled"
mode_message NodeOperationMode.monitor_only = "Node operation mode changed to monitor_only"
mode_message NodeOperationMode.auto_repair = "Node operation mode changed to auto_repair"

module _ (out : Outside) where
  unfoldable pub set_provider_active : ℕ → Bool → Exec (Unit {0})
  set_provider_active provider_id active = session (do
    provider ← find_provider provider_id
    save_provider (record provider { is_active = active })
    add_operator_event out none none EventType.provider_updated EventSeverity.warning
        (provider_message active))

  unfoldable pub store_mode : ℕ → NodeOperationMode → Exec (Unit {0})
  store_mode node_id mode = do
    node ← find_node node_id
    active ← gets (get_active_for_node node_id)
    refused ← gets (is_refused mode node_id node)
    if is_some active || refused then raise Error.value_error else do
      now ← utc_now out
      step ← lift (change_mode now mode node)
      save_node step.0
      add_operator_event out (some node.id) none EventType.setting_changed (mode_severity mode)
          (mode_message mode)

  -- `set_node_operation_mode`
  unfoldable pub set_node_operation_mode : ℕ → NodeOperationMode → Exec (Unit {0})
  set_node_operation_mode node_id mode = session (store_mode node_id mode)
