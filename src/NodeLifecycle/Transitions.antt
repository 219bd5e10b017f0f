-- ===== src/NodeLifecycle/Transitions.antt =====
-- What one call of `NodeStateMachine.transition` does.
use aso_node_recovery.Prelude.{Bool, Option, arith, false, none, not, true, ℕ, ◌==◌, ◌≡◌}
use aso_node_recovery.Errors.{is_ok, ok}
use aso_node_recovery.Models.EventEnums.{
  event_severity_eq, node_check_outcome_eq, replacement_trigger_mode_eq,
  secret_reference_backend_eq,
}
use aso_node_recovery.Models.JobEnums.{replacement_checkpoint_eq, replacement_job_state_eq}
use aso_node_recovery.Models.NodeEnums.{
  NodeState, deployment_state_eq, node_operation_mode_eq, node_state_eq, provider_type_eq,
  ssh_auth_method_eq, vps_instance_role_eq, vps_instance_state_eq,
}
use aso_node_recovery.Models.Rows.{Node}
use aso_node_recovery.Moments.{Datetime}
use aso_node_recovery.NodeLifecycle.{can_transition, transition}

-- With the clock for a time, a call is accepted exactly when `can_transition` says so.
pub transition_accepts :
    (now : ℕ) (node : Node) (target : NodeState)
    → is_ok (transition now node target none) ≡ can_transition node.state target
unfolding transition can_transition
transition_accepts now node target = ground arith

-- An accepted call, at whatever time, was allowed by the graph and leaves the node in the target
-- state. It reports a change exactly when the target is another state, and without a change the
-- node is as it was.
pub transition_sound :
    (now : ℕ) (node : Node) (target : NodeState) (at : Option Datetime) (after : Node)
    (changed : Bool)
    → transition now node target at ≡ ok (after, changed)
    → (can_transition node.state target ≡ true)
      × (after.state ≡ target)
      × (changed ≡ not (target == node.state))
      × (changed ≡ false → after ≡ node)
unfolding transition can_transition
transition_sound now node target at after changed h =
    ground (arith, node_state_eq.agree_iff target node.state)
