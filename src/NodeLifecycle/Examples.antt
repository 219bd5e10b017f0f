-- ===== src/NodeLifecycle/Examples.antt =====
-- The theorems on the node's states at one node.
use aso_node_recovery.Prelude.{
  List, [], contains, false, nat_eq, none, not, refl, some, string_eq, true, ◌==◌, ◌∷◌, ◌≡◌, ◌⊎◌,
}
use aso_node_recovery.Errors.{is_ok, ok}
use aso_node_recovery.Models.EventEnums.{
  event_severity_eq, node_check_outcome_eq, replacement_trigger_mode_eq,
  secret_reference_backend_eq,
}
use aso_node_recovery.Models.JobEnums.{replacement_checkpoint_eq, replacement_job_state_eq}
use aso_node_recovery.Models.NodeEnums.{
  NodeOperationMode, NodeState, deployment_state_eq, node_operation_mode_eq, node_state_eq,
  provider_type_eq, ssh_auth_method_eq, vps_instance_role_eq, vps_instance_state_eq,
}
use aso_node_recovery.Models.Rows.{Node}
use aso_node_recovery.Moments.{aware}
use aso_node_recovery.NodeLifecycle.{
  apply_state_transition, can_transition, restore_after_forced_replacement, transition,
  transition_forced_replacement,
}
use aso_node_recovery.NodeLifecycle.Forced.{restore-force, transition_forced_replacement_accepts}
use aso_node_recovery.NodeLifecycle.Paths.{run_into_workflow, run_transitions}
use aso_node_recovery.NodeLifecycle.Transitions.{transition_sound}

abbrev sample : NodeState → Node
sample s = record {
  id = 1;
  name = "n1";
  master_node_id = "7";
  provider_id = 1;
  current_host = "198.51.100.7";
  current_port = 2053;
  state = s;
  state_changed_at = 0;
  operation_mode = NodeOperationMode.auto_repair;
  monitoring_enabled = true;
  consecutive_failures = 0;
  consecutive_successes = 2;
  last_checked_at = none;
  last_successful_check_at = none;
  monitoring_lease_token = none;
  monitoring_lease_until = none;
}

abbrev degraded_at_5 : Node
degraded_at_5 = apply_state_transition (sample NodeState.healthy) NodeState.degraded 5

transition_sound_example :
    (can_transition NodeState.healthy NodeState.degraded ≡ true)
    × (degraded_at_5.state ≡ NodeState.degraded)
    × (true ≡ not (NodeState.degraded == NodeState.healthy))
    × (true ≡ false → degraded_at_5 ≡ sample NodeState.healthy)
unfolding transition
transition_sound_example =
    transition_sound 9 (sample NodeState.healthy) NodeState.degraded (some (aware 5)) degraded_at_5
      true refl

abbrev into_workflow : List NodeState
into_workflow = NodeState.degraded ∷ NodeState.failed ∷ NodeState.replacing ∷ []

run_into_workflow_example :
    (NodeState.healthy ≡ NodeState.failed) ⊎ (contains into_workflow NodeState.failed ≡ true)
unfolding run_transitions transition
run_into_workflow_example =
    run_into_workflow 5 (sample NodeState.healthy) into_workflow
      (apply_state_transition (sample NodeState.healthy) NodeState.replacing 5) refl refl refl

transition_forced_replacement_accepts_example :
    is_ok (transition_forced_replacement 5 (sample NodeState.disabled) none) ≡ false
transition_forced_replacement_accepts_example =
    transition_forced_replacement_accepts 5 (sample NodeState.disabled)

restore-force_example :
    restore_after_forced_replacement 9 (sample NodeState.deploying) NodeState.healthy none
    ≡ ok (apply_state_transition (sample NodeState.deploying) NodeState.healthy 9, true)
unfolding transition_forced_replacement
restore-force_example =
    restore-force 5 9 (sample NodeState.healthy) none
      (apply_state_transition (sample NodeState.healthy) NodeState.replacing 5) true
      (sample NodeState.deploying) refl refl
