-- ===== src/Replacement/Checkpoints.antt =====
-- app/replacement/state.py: the state machine of a replacement job.
pub mod Consistent
pub mod Gates
mod Examples
use aso_node_recovery.Prelude.{
  Bool, List, Option, [], contains, false, if◌then◌else◌, is_none, not, some, true, ℕ, ◌&&◌, ◌==◌,
  ◌||◌, ◌∷◌,
}
use aso_node_recovery.Errors.{Error, Result, err, ok, ◌>>=◌}
use aso_node_recovery.Models.EventEnums.{
  event_severity_eq, node_check_outcome_eq, replacement_trigger_mode_eq,
  secret_reference_backend_eq,
}
use aso_node_recovery.Models.JobEnums.{
  ReplacementCheckpoint, ReplacementJobState, replacement_checkpoint_eq, replacement_job_state_eq,
}
use aso_node_recovery.Models.NodeEnums.{
  deployment_state_eq, node_operation_mode_eq, node_state_eq, provider_type_eq, ssh_auth_method_eq,
  vps_instance_role_eq, vps_instance_state_eq,
}
use aso_node_recovery.Models.Rows.{ReplacementJob}
use aso_node_recovery.Moments.{Datetime, moment}

-- `_TERMINAL`
abbrev pub is_terminal : ReplacementCheckpoint → Bool
is_terminal ReplacementCheckpoint.completed = true
is_terminal ReplacementCheckpoint.failed = true
is_terminal ReplacementCheckpoint.cancelled = true
is_terminal _ = false

-- `_FORWARD`
abbrev pub forward : ReplacementCheckpoint → List ReplacementCheckpoint
forward ReplacementCheckpoint.created = ReplacementCheckpoint.provisioning ∷ []
forward ReplacementCheckpoint.provisioning = ReplacementCheckpoint.provisioned ∷ []
forward ReplacementCheckpoint.provisioned =
    ReplacementCheckpoint.checking_ip ∷ ReplacementCheckpoint.temp_cleanup ∷ []
forward ReplacementCheckpoint.checking_ip =
    ReplacementCheckpoint.ip_verified ∷ ReplacementCheckpoint.temp_cleanup ∷ []
forward ReplacementCheckpoint.temp_cleanup = ReplacementCheckpoint.provisioning ∷ []
forward ReplacementCheckpoint.ip_verified = ReplacementCheckpoint.deploying ∷ []
forward ReplacementCheckpoint.deploying = ReplacementCheckpoint.node_verified ∷ []
forward ReplacementCheckpoint.node_verified = ReplacementCheckpoint.master_updating ∷ []
forward ReplacementCheckpoint.master_updating = ReplacementCheckpoint.master_updated ∷ []
forward ReplacementCheckpoint.master_updated = ReplacementCheckpoint.master_verifying ∷ []
forward ReplacementCheckpoint.master_verifying = ReplacementCheckpoint.master_verified ∷ []
forward ReplacementCheckpoint.master_verified = ReplacementCheckpoint.final_check ∷ []
forward ReplacementCheckpoint.final_check = ReplacementCheckpoint.final_verified ∷ []
forward ReplacementCheckpoint.final_verified = ReplacementCheckpoint.old_vps_cleanup ∷ []
forward ReplacementCheckpoint.old_vps_cleanup = ReplacementCheckpoint.completed ∷ []
forward ReplacementCheckpoint.completed = []
forward ReplacementCheckpoint.failed = []
forward ReplacementCheckpoint.cancelled = []

-- `_ALLOWED`: an active checkpoint may also fail or be cancelled.
unfoldable pub allowed : ReplacementCheckpoint → List ReplacementCheckpoint
allowed checkpoint =
    if is_terminal checkpoint
    then forward checkpoint
    else ReplacementCheckpoint.failed ∷ ReplacementCheckpoint.cancelled ∷ forward checkpoint

-- `_STATE_FOR_CHECKPOINT`
abbrev pub state_for_checkpoint : ReplacementCheckpoint → ReplacementJobState
state_for_checkpoint ReplacementCheckpoint.created = ReplacementJobState.pending
state_for_checkpoint ReplacementCheckpoint.provisioning = ReplacementJobState.provisioning
state_for_checkpoint ReplacementCheckpoint.provisioned = ReplacementJobState.provisioning
state_for_checkpoint ReplacementCheckpoint.checking_ip = ReplacementJobState.checking_ip
state_for_checkpoint ReplacementCheckpoint.temp_cleanup = ReplacementJobState.cleaning_up
state_for_checkpoint ReplacementCheckpoint.ip_verified = ReplacementJobState.checking_ip
state_for_checkpoint ReplacementCheckpoint.deploying = ReplacementJobState.deploying
state_for_checkpoint ReplacementCheckpoint.node_verified = ReplacementJobState.verifying
state_for_checkpoint ReplacementCheckpoint.master_updating = ReplacementJobState.updating_master
state_for_checkpoint ReplacementCheckpoint.master_updated = ReplacementJobState.updating_master
state_for_checkpoint ReplacementCheckpoint.master_verifying = ReplacementJobState.verifying
state_for_checkpoint ReplacementCheckpoint.master_verified = ReplacementJobState.verifying
state_for_checkpoint ReplacementCheckpoint.final_check = ReplacementJobState.verifying
state_for_checkpoint ReplacementCheckpoint.final_verified = ReplacementJobState.verifying
state_for_checkpoint ReplacementCheckpoint.old_vps_cleanup = ReplacementJobState.cleaning_up
state_for_checkpoint ReplacementCheckpoint.completed = ReplacementJobState.completed
state_for_checkpoint ReplacementCheckpoint.failed = ReplacementJobState.failed
state_for_checkpoint ReplacementCheckpoint.cancelled = ReplacementJobState.cancelled

unfoldable pub can_transition : ReplacementCheckpoint → ReplacementCheckpoint → Bool
unfolding allowed
can_transition current target = target == current || contains (allowed current) target

-- The assignments of an accepted `transition` at the time `at`.
unfoldable pub move_to : ReplacementJob → ReplacementCheckpoint → ℕ → ReplacementJob
move_to job target at = record job {
  checkpoint = target;
  state = state_for_checkpoint target;
  started_at =
      if is_none job.started_at && not (target == ReplacementCheckpoint.created)
      then some at
      else job.started_at;
  completed_at = if is_terminal target then some at else job.completed_at;
  active_slot = if is_terminal target then false else job.active_slot;
}

-- `ReplacementStateMachine.transition`; `now` is the clock. It returns the job that it leaves, and
-- whether the checkpoint changed.
unfoldable pub transition :
    ℕ → ReplacementJob → ReplacementCheckpoint → Option Datetime → Result (ReplacementJob × Bool)
transition now job target occurred_at =
    if target == job.checkpoint
    then ok (job, false)
    else if not (contains (allowed job.checkpoint) target)
    then err Error.invalid_replacement_transition_error
    else (moment now occurred_at >>= λ t. ok (move_to job target t, true))
