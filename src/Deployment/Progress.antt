-- ===== src/Deployment/Progress.antt =====
-- app/deployment/state.py: the state machine of a deployment.
use aso_node_recovery.Prelude.{
  Bool, List, [], contains, false, if◌then◌else◌, is_none, nat_eq, not, some, string_eq, true, ℕ,
  ◌&&◌, ◌==◌, ◌∷◌,
}
use aso_node_recovery.Errors.{Error, Result, err, ok}
use aso_node_recovery.Models.EventEnums.{
  event_severity_eq, node_check_outcome_eq, replacement_trigger_mode_eq,
  secret_reference_backend_eq,
}
use aso_node_recovery.Models.JobEnums.{replacement_checkpoint_eq, replacement_job_state_eq}
use aso_node_recovery.Models.NodeEnums.{
  DeploymentState, deployment_state_eq, node_operation_mode_eq, node_state_eq, provider_type_eq,
  ssh_auth_method_eq, vps_instance_role_eq, vps_instance_state_eq,
}
use aso_node_recovery.Models.Rows.{Deployment}

-- `_ALLOWED`
abbrev pub allowed_states : DeploymentState → List DeploymentState
allowed_states DeploymentState.pending = DeploymentState.waiting_ssh ∷ DeploymentState.failed ∷ []
allowed_states DeploymentState.waiting_ssh =
    DeploymentState.bootstrapping ∷ DeploymentState.failed ∷ []
allowed_states DeploymentState.bootstrapping =
    DeploymentState.installing ∷ DeploymentState.failed ∷ []
allowed_states DeploymentState.installing = DeploymentState.verifying ∷ DeploymentState.failed ∷ []
allowed_states DeploymentState.verifying = DeploymentState.succeeded ∷ DeploymentState.failed ∷ []
allowed_states DeploymentState.succeeded = []
allowed_states DeploymentState.failed = []

abbrev pub is_over : DeploymentState → Bool
is_over DeploymentState.succeeded = true
is_over DeploymentState.failed = true
is_over _ = false

-- The assignments of an accepted `transition` at the time `at`.
abbrev pub progress_to : Deployment → DeploymentState → ℕ → Deployment
progress_to deployment target at = record deployment {
  started_at =
      if is_none deployment.started_at && not (target == DeploymentState.pending)
      then some at
      else deployment.started_at;
  state = target;
  completed_at = if is_over target then some at else deployment.completed_at;
}

-- `DeploymentStateMachine.transition`, called with no time of its own
unfoldable pub transition : ℕ → Deployment → DeploymentState → Result Deployment
transition now deployment target =
    if contains (allowed_states deployment.state) target
    then ok (progress_to deployment target now)
    else err Error.invalid_deployment_transition_error
