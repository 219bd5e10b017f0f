-- ===== src/Replacement/Workflow.antt =====
-- `resume`, `cancel`, `_dispatch`, `_fail_job` and `_restore_node_after_unsuccessful_job` of
-- app/replacement/orchestrator.py.
pub mod Restore
pub mod Aborted
mod Examples
use aso_node_recovery.NodeLifecycle
use aso_node_recovery.Prelude.{
  Bool, Option, String, false, get, get_or, if◌then◌else◌, is_none, is_some, nat_eq, none, not,
  some, string_eq, suc, true, truthy, zero, ℕ, ◌&&◌, ◌==◌,
}
use aso_node_recovery.Errors.{Error, Result, ok}
use aso_node_recovery.Models.EventEnums.{
  EventSeverity, EventType, ReplacementTriggerMode, event_severity_eq, node_check_outcome_eq,
  replacement_trigger_mode_eq, secret_reference_backend_eq,
}
use aso_node_recovery.Models.JobEnums.{
  ReplacementCheckpoint, replacement_checkpoint_eq, replacement_job_state_eq,
}
use aso_node_recovery.Models.NodeEnums.{
  NodeState, deployment_state_eq, node_operation_mode_eq, node_state_eq, provider_type_eq,
  ssh_auth_method_eq, vps_instance_role_eq, vps_instance_state_eq,
}
use aso_node_recovery.Models.NodeValues.{node_state_of_value}
use aso_node_recovery.Models.Rows.{Node, ReplacementJob}
use aso_node_recovery.NodeLifecycle.{is_workflow, restore_after_forced_replacement}
use aso_node_recovery.Outside.{Outside}
use aso_node_recovery.Replacement.Access.{
  acquire_lease, add_event, advance, assert_not_paused, release_lease, require_job, utc_now,
}
use aso_node_recovery.Replacement.Checkpoints.{is_terminal}
use aso_node_recovery.Replacement.Stages.Address.{stage_checking_ip}
use aso_node_recovery.Replacement.Stages.Cleanup.{stage_temp_cleanup}
use aso_node_recovery.Replacement.Stages.Deploy.{stage_deploying, stage_ip_verified}
use aso_node_recovery.Replacement.Stages.Finish.{
  assert_not_emergency_stopped, stage_final_check, stage_old_vps_cleanup,
}
use aso_node_recovery.Replacement.Stages.Master.{
  stage_master_updating, stage_master_verifying, stage_next, stage_node_verified,
}
use aso_node_recovery.Replacement.Stages.Provision.{stage_created, stage_provisioning}
use aso_node_recovery.Replacement.Stages.Ready.{stage_provisioned}
use aso_node_recovery.Runtime.{
  Exec, World, ask, gets, lift, pure, raise, save_node, session, try_catch, when, ◌>>=◌, ◌>>◌,
}
use aso_node_recovery.Settings.{Settings}

-- `ReplacementRunResult`, without the job's id and the text of the reason
pub record RunResult : Type 0 where
  pub checkpoint : ReplacementCheckpoint
  pub terminal : Bool
  pub deferred : Bool

-- The exceptions after which `resume` returns a deferred result.
abbrev pub is_deferral : Error → Bool
is_deferral Error.replacement_deferred_error = true
is_deferral Error.provider_transient_error = true
is_deferral Error.provider_timeout_error = true
is_deferral Error.master_transient_error = true
is_deferral _ = false

-- `try: body finally: cleanup`, where the cleanup does not raise
unfoldable pub try_finally : {A : Type 0} → Exec A → (World → World) → Exec A
try_finally body cleanup w = let (r, w') = body w in (r, cleanup w')

module _ (out : Outside) (settings : Settings) where
  -- `_dispatch`
  unfoldable pub dispatch : ReplacementCheckpoint → ℕ → String → Exec (Unit {0})
  dispatch ReplacementCheckpoint.created id token = stage_created out settings id
  dispatch ReplacementCheckpoint.provisioning id token = stage_provisioning out settings id token
  dispatch ReplacementCheckpoint.provisioned id token = stage_provisioned out settings id token
  dispatch ReplacementCheckpoint.checking_ip id token = stage_checking_ip out settings id token
  dispatch ReplacementCheckpoint.temp_cleanup id token = stage_temp_cleanup out settings id token
  dispatch ReplacementCheckpoint.ip_verified id token = stage_ip_verified out settings id
  dispatch ReplacementCheckpoint.deploying id token = stage_deploying out settings id token
  dispatch ReplacementCheckpoint.node_verified id token = stage_node_verified out settings id token
  dispatch ReplacementCheckpoint.master_updating id token =
      stage_master_updating out settings id token
  dispatch ReplacementCheckpoint.master_updated id token =
      stage_next out settings ReplacementCheckpoint.master_verifying id
  dispatch ReplacementCheckpoint.master_verifying id token =
      stage_master_verifying out settings id token
  dispatch ReplacementCheckpoint.master_verified id token =
      stage_next out settings ReplacementCheckpoint.final_check id
  dispatch ReplacementCheckpoint.final_check id token = stage_final_check out settings id token
  dispatch ReplacementCheckpoint.final_verified id token =
      stage_next out settings ReplacementCheckpoint.old_vps_cleanup id
  dispatch ReplacementCheckpoint.old_vps_cleanup id token =
      stage_old_vps_cleanup out settings id token
  dispatch _ id token = raise Error.runtime_error

  abbrev pub back_to : ℕ → Node → Option NodeState → Result (Node × Bool)
  back_to now node none = NodeLifecycle.transition now node NodeState.failed none
  back_to now node (some original) = restore_after_forced_replacement now node original none

  -- `_restore_node_after_unsuccessful_job`
  unfoldable pub restore_node : ℕ → Node → ReplacementJob → Result (Node × Bool)
  restore_node now node job =
      if not (is_workflow node.state)
      then ok (node, false)
      else if job.trigger_mode == ReplacementTriggerMode.force
          && is_none job.master_updated_at
          && truthy job.original_node_state
      then back_to now node (node_state_of_value (get_or job.original_node_state ""))
      else NodeLifecycle.transition now node NodeState.failed none

  abbrev pub restore_if : ReplacementJob → Option Node → Exec (Unit {0})
  restore_if job none = pure tt
  restore_if job (some node) =
      when (not job.is_dry_run)
        (do now ← utc_now out; restored ← lift (restore_node now node job); save_node restored.0)

  abbrev pub fail_active : Error → Option ReplacementJob → Exec (Unit {0})
  fail_active e none = pure tt
  fail_active e (some job) = when (not (is_terminal job.checkpoint)) (do
    advance out (record job { last_error_code = some e }) ReplacementCheckpoint.failed
    node ← gets (λ db. get db.nodes job.node_id)
    restore_if job node
    add_event out job EventType.replacement_failed EventSeverity.error
        "Replacement workflow failed; old VPS was not deleted")

  -- `_fail_job`
  unfoldable pub fail_job : ℕ → Error → Exec (Unit {0})
  fail_job id e = session (do found ← gets (λ db. get db.jobs id); fail_active e found)

  -- `_get_checkpoint`
  unfoldable pub get_checkpoint : ℕ → Exec ReplacementCheckpoint
  get_checkpoint id = session (do job ← require_job id; pure job.checkpoint)

  -- `_assert_runtime_execution_allowed`
  unfoldable pub assert_runtime_execution_allowed : Bool → Exec (Unit {0})
  assert_runtime_execution_allowed true = pure tt
  assert_runtime_execution_allowed false = do
    dry ← ask (λ n. ok (out.effective_dry_run n))
    if dry then raise Error.replacement_deferred_error else pure tt

  -- The `try` block of one round of `resume`.
  unfoldable pub run_checkpoint : ℕ → String → ReplacementCheckpoint → Exec (Unit {0})
  run_checkpoint id token checkpoint = do
    dry_run ← session (do job ← require_job id; pure job.is_dry_run)
    assert_runtime_execution_allowed dry_run
    assert_not_emergency_stopped out settings dry_run
    assert_not_paused out
    dispatch checkpoint id token

  -- The `except` blocks: `none` says that the loop goes on.
  abbrev pub on_error : ℕ → Error → Exec (Option RunResult)
  on_error id e =
      if is_deferral e
      then (do
        checkpoint ← get_checkpoint id
        pure (some (record { checkpoint = checkpoint; terminal = false; deferred = true })))
      else (do
        fail_job id e
        pure (
            some (record {
              checkpoint = ReplacementCheckpoint.failed;
              terminal = true;
              deferred = false;
            })))

  unfoldable pub one_round : ℕ → String → ReplacementCheckpoint → Exec (Option RunResult)
  one_round id token checkpoint =
      try_catch (do run_checkpoint id token checkpoint; pure none) (on_error id)

  abbrev pub next_round : Option RunResult → Exec RunResult → Exec RunResult
  next_round none again = again
  next_round (some result) again = pure result

  -- The loop of `resume`, with the rounds that are left.
  unfoldable pub rounds : ℕ → ℕ → String → Exec RunResult
  rounds zero id token = raise Error.runtime_error
  rounds (suc left) id token = do
    checkpoint ← get_checkpoint id
    if is_terminal checkpoint
        then pure (record { checkpoint = checkpoint; terminal = true; deferred = false })
        else (do outcome ← one_round id token checkpoint; next_round outcome (rounds left id token))

  abbrev pub round_limit : ℕ
  round_limit = 64

  abbrev pub release : ℕ → String → World → World
  release id token w = (release_lease id token w).1

  -- `resume`; `token` is the fresh lease token
  unfoldable pub resume : ℕ → String → Exec RunResult
  resume id token = do
    assert_not_paused out
    acquired ← session (acquire_lease out settings id token)
    if acquired
        then try_finally (rounds round_limit id token) (release id token)
        else raise Error.replacement_busy_error

  abbrev pub cancel_active : ReplacementJob → Exec (Unit {0})
  cancel_active job =
      if is_some job.master_updated_at then raise Error.safety_violation_error else do
        advance out job ReplacementCheckpoint.cancelled
        node ← gets (λ db. get db.nodes job.node_id)
        restore_if job node

  -- `cancel`
  unfoldable pub cancel : ℕ → Exec (Unit {0})
  cancel id =
      session (do job ← require_job id; when (not (is_terminal job.checkpoint)) (cancel_active job))
