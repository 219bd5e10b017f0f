-- ===== src/NodeLifecycle/Paths.antt =====
-- Sequences of ordinary transitions: how a node enters the replacement workflow.
use aso_node_recovery.Prelude.{
  Bool, List, [], arith, contains, false, inl, inr, none, true, ℕ, ◌∷◌, ◌≡◌, ◌⊎◌,
}
use aso_node_recovery.Errors.{Result, Result-cases, ok, ◌>>=◌}
use aso_node_recovery.Models.EventEnums.{
  event_severity_eq, node_check_outcome_eq, replacement_trigger_mode_eq,
  secret_reference_backend_eq,
}
use aso_node_recovery.Models.JobEnums.{replacement_checkpoint_eq, replacement_job_state_eq}
use aso_node_recovery.Models.NodeEnums.{
  NodeState, deployment_state_eq, node_operation_mode_eq, node_state_eq, provider_type_eq,
  ssh_auth_method_eq, vps_instance_role_eq, vps_instance_state_eq,
}
use aso_node_recovery.Models.Rows.{Node}
use aso_node_recovery.NodeLifecycle.{is_workflow, transition}
use aso_node_recovery.NodeLifecycle.Transitions.{transition_sound}

-- Transitions to the targets in turn, each at the time `now`; the first refusal ends the run.
unfoldable pub run_transitions : ℕ → Node → List NodeState → Result Node
run_transitions now node [] = ok node
run_transitions now node (target ∷ targets) =
    transition now node target none >>= λ step. run_transitions now step.0 targets

enters_from_failed :
    (now : ℕ) (node : Node) (target : NodeState) (after : Node) (changed : Bool)
    → transition now node target none ≡ ok (after, changed)
    → is_workflow node.state ≡ false
    → (is_workflow after.state ≡ false) ⊎ (node.state ≡ NodeState.failed)
unfolding transition
enters_from_failed now node target after changed h outside = ground arith

-- A run of ordinary transitions that starts outside the replacement workflow and ends in it
-- starts at FAILED or was sent to FAILED on the way: monitoring alone never moves a node that was
-- not found FAILED into a replacement.
pub run_into_workflow :
    (now : ℕ) (node : Node) (targets : List NodeState) (after : Node)
    → run_transitions now node targets ≡ ok after
    → is_workflow node.state ≡ false
    → is_workflow after.state ≡ true
    → (node.state ≡ NodeState.failed) ⊎ (contains targets NodeState.failed ≡ true)
unfolding run_transitions
run_into_workflow now node [] after h outside inside = ground arith
run_into_workflow now node (target ∷ targets) after h outside inside =
    elim (Result-cases (transition now node target none)) [
      | inl ((mid, changed), e) ↦
          let rest : run_transitions now mid targets ≡ ok after = rw e at h in
          ground (
            arith,
            enters_from_failed now node target mid changed e,
            transition_sound now node target none mid changed e,
            run_into_workflow now mid targets after rest,
          )
      | inr (x, e) ↦ cc (rw e at h)
    ]
