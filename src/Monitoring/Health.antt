-- ===== src/Monitoring/Health.antt =====
-- `MonitoringPolicy` and `NodeHealthCalculator` of app/monitoring/health.py.
pub mod Debounce
use aso_node_recovery.NodeLifecycle
use aso_node_recovery.Prelude.{
  Bool, Option, false, if◌then◌else◌, leb, ltb, nat_eq, none, not, some, string_eq, true, ℕ, ◌&&◌,
  ◌+◌, ◌==◌, ◌||◌,
}
use aso_node_recovery.Errors.{Error, Result, err, ok, ◌>>=◌}
use aso_node_recovery.Models.EventEnums.{
  EventType, event_severity_eq, node_check_outcome_eq, replacement_trigger_mode_eq,
  secret_reference_backend_eq,
}
use aso_node_recovery.Models.JobEnums.{replacement_checkpoint_eq, replacement_job_state_eq}
use aso_node_recovery.Models.NodeEnums.{
  NodeState, deployment_state_eq, node_operation_mode_eq, node_state_eq, provider_type_eq,
  ssh_auth_method_eq, vps_instance_role_eq, vps_instance_state_eq,
}
use aso_node_recovery.Models.Rows.{Node}
use aso_node_recovery.Moments.{Datetime, aware, moment}
use aso_node_recovery.Outside.{ReachabilityDecision}

-- `MonitoringPolicy`
pub record MonitoringPolicy : Type 0 where
  pub failure_threshold : ℕ
  pub recovery_threshold : ℕ
  pub min_success_nodes : ℕ

-- `__post_init__`
unfoldable pub check_policy : MonitoringPolicy → Result MonitoringPolicy
check_policy policy =
    if ltb policy.failure_threshold 1
    then err Error.value_error
    else if ltb policy.recovery_threshold 1
    then err Error.value_error
    else if ltb policy.min_success_nodes 1
    then err Error.value_error
    else ok policy

-- `HealthApplicationResult`
pub record HealthApplicationResult : Type 0 where
  pub decision : ReachabilityDecision
  pub previous_state : NodeState
  pub current_state : NodeState
  pub event_type : Option EventType

-- `MUTABLE_STATES`
abbrev pub is_mutable : NodeState → Bool
is_mutable NodeState.unknown = true
is_mutable NodeState.healthy = true
is_mutable NodeState.degraded = true
is_mutable NodeState.failed = true
is_mutable _ = false

abbrev pub outcome :
    ReachabilityDecision → NodeState → Node → Option EventType → Node × HealthApplicationResult
outcome decision previous node event_type = (
  node,
  record {
    decision = decision;
    previous_state = previous;
    current_state = node.state;
    event_type = event_type;
  },
)

abbrev pub moved :
    ℕ
    → ReachabilityDecision
    → Node
    → NodeState
    → Option EventType
    → Result (Node × HealthApplicationResult)
moved timestamp decision node target event_type =
    NodeLifecycle.transition timestamp node target (some (aware timestamp)) >>= λ step.
    ok (outcome decision node.state step.0 event_type)

abbrev pub recovery_event : NodeState → Option EventType
recovery_event NodeState.degraded = some EventType.node_recovered
recovery_event NodeState.failed = some EventType.node_recovered
recovery_event _ = none

module _ (policy : MonitoringPolicy) (timestamp : ℕ) where
  unfoldable pub apply_reachable : Node → Result (Node × HealthApplicationResult)
  apply_reachable node =
      let counted = record node {
        consecutive_failures = 0;
        consecutive_successes = node.consecutive_successes + 1;
        last_successful_check_at = some timestamp;
      } in
      if not (node.state == NodeState.healthy)
        && leb policy.recovery_threshold counted.consecutive_successes
      then moved timestamp ReachabilityDecision.reachable counted NodeState.healthy
          (recovery_event node.state)
      else ok (outcome ReachabilityDecision.reachable node.state counted none)

  unfoldable pub apply_unreachable : Node → Result (Node × HealthApplicationResult)
  apply_unreachable node =
      let counted = record node {
        consecutive_successes = 0;
        consecutive_failures = node.consecutive_failures + 1;
      } in
      if leb policy.failure_threshold counted.consecutive_failures
      then (if node.state == NodeState.failed
          then ok (outcome ReachabilityDecision.unreachable node.state counted none)
          else moved timestamp ReachabilityDecision.unreachable counted NodeState.failed
              (some EventType.node_failed))
      else if node.state == NodeState.unknown || node.state == NodeState.healthy
      then moved timestamp ReachabilityDecision.unreachable counted NodeState.degraded
          (some EventType.node_degraded)
      else ok (outcome ReachabilityDecision.unreachable node.state counted none)

  unfoldable pub apply_checked :
      Node → ReachabilityDecision → Result (Node × HealthApplicationResult)
  apply_checked node ReachabilityDecision.indeterminate =
      ok (outcome ReachabilityDecision.indeterminate node.state node none)
  apply_checked node ReachabilityDecision.reachable =
      if is_mutable node.state
      then apply_reachable node
      else ok (outcome ReachabilityDecision.reachable node.state node none)
  apply_checked node ReachabilityDecision.unreachable =
      if is_mutable node.state
      then apply_unreachable node
      else ok (outcome ReachabilityDecision.unreachable node.state node none)

-- `NodeHealthCalculator.apply`; `now` is the clock
unfoldable pub apply :
    ℕ
    → MonitoringPolicy
    → Node
    → ReachabilityDecision
    → Option Datetime
    → Result (Node × HealthApplicationResult)
apply now policy node decision occurred_at = moment now occurred_at >>= λ timestamp.
    apply_checked policy timestamp (record node { last_checked_at = some timestamp }) decision
