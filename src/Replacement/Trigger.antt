-- ===== src/Replacement/Trigger.antt =====
-- `trigger` of app/replacement/orchestrator.py, with the queries of `ReplacementJobRepository` and
-- `VpsInstanceRepository` that it makes.
pub mod Admission
mod Examples
use Prim.Native.String.{count as text_length}
use aso_node_recovery.Prelude.{
  Bool, List, Option, String, [], eqb, false, if◌then◌else◌, is_some, leb, ltb, nat_eq, none, not,
  opt_text_eq, select, some, string_eq, true, ℕ, ◌&&◌, ◌==◌, ◌||◌, ◌∷◌,
}
use aso_node_recovery.Deployment.Service.{current}
use aso_node_recovery.Errors.{Error, Result, err, ok}
use aso_node_recovery.Models.EventEnums.{
  EventSeverity, EventType, ReplacementTriggerMode, event_severity_eq, node_check_outcome_eq,
  replacement_trigger_mode_eq, secret_reference_backend_eq,
}
use aso_node_recovery.Models.JobEnums.{
  ReplacementCheckpoint, ReplacementJobState, replacement_checkpoint_eq, replacement_job_state_eq,
}
use aso_node_recovery.Models.NodeEnums.{
  NodeState, VpsInstanceRole, VpsInstanceState, deployment_state_eq, node_operation_mode_eq,
  node_state_eq, provider_type_eq, ssh_auth_method_eq, vps_instance_role_eq, vps_instance_state_eq,
}
use aso_node_recovery.Models.NodeValues.{node_state_value}
use aso_node_recovery.Models.Rows.{Node, ReplacementJob, VpsInstance}
use aso_node_recovery.NodeLifecycle.{transition_forced_replacement}
use aso_node_recovery.Outside.{Outside}
use aso_node_recovery.Replacement.Access.{
  add_event, assert_not_paused, first, move_node, require_node, require_provider, required, utc_now,
}
use aso_node_recovery.Replacement.Queries.{count_active}
use aso_node_recovery.Replacement.Stages.Finish.{assert_not_emergency_stopped}
use aso_node_recovery.Runtime.{
  Db, Exec, ask, gets, lift, pure, raise, save_job, save_node, session, when, ◌>>=◌, ◌>>◌,
}
use aso_node_recovery.Settings.{Settings}
use aso_node_recovery.Workers.MonitoringCycle.Unharmed.{acquired}

-- `not (8 <= len(request_key) <= 64)`
abbrev pub bad_key : Option String → Bool
bad_key none = false
bad_key (some key) = ltb (text_length key) 8 || ltb 64 (text_length key)

-- `get_by_request_key`, where there is a key
abbrev pub has_key : String → ReplacementJob → Bool
has_key key job = opt_text_eq job.request_key (some key)

abbrev pub get_by_request_key : Option String → Db → Option ReplacementJob
get_by_request_key none db = none
get_by_request_key (some key) db = first (select db.jobs (has_key key))

-- `get_active_for_node`
abbrev pub is_active_for : ℕ → ReplacementJob → Bool
is_active_for node_id job = eqb job.node_id node_id && job.active_slot

abbrev pub get_active_for_node : ℕ → Db → Option ReplacementJob
get_active_for_node node_id db = first (select db.jobs (is_active_for node_id))

-- `get_current_for_node`: the newest row
abbrev pub is_current_for : ℕ → VpsInstance → Bool
is_current_for node_id vps =
    eqb vps.node_id node_id
    && vps.role == VpsInstanceRole.current
    && not (vps.state == VpsInstanceState.deleted)

unfoldable pub last : {A : Type 0} → List A → Option A
last [] = none
last (x ∷ xs) = let rest = last xs in if is_some rest then rest else some x

abbrev pub get_current_for_node : ℕ → Db → Option VpsInstance
get_current_for_node node_id db = last (select db.vps (is_current_for node_id))

-- `ReplacementJobRepository.latest_for_node`
abbrev pub latest_for_node : ℕ → Db → Option ReplacementJob
latest_for_node node_id db = last (select db.jobs (λ job. eqb job.node_id node_id))

-- The refusals by the node's state.
abbrev pub may_start : Bool → NodeState → Result (Unit {0})
may_start true NodeState.disabled = err Error.replacement_configuration_error
may_start true NodeState.replacing = err Error.replacement_busy_error
may_start true NodeState.deploying = err Error.replacement_busy_error
may_start true NodeState.verifying = err Error.replacement_busy_error
may_start true _ = ok tt
may_start false NodeState.failed = ok tt
may_start false _ = err Error.replacement_configuration_error

abbrev pub new_job :
    Settings → ℕ → Node → Bool → Option String → Bool → VpsInstance → ReplacementJob
new_job settings job_id node force request_key dry_run old_vps = record {
  id = job_id;
  node_id = node.id;
  state = ReplacementJobState.pending;
  checkpoint = ReplacementCheckpoint.created;
  active_slot = true;
  is_dry_run = dry_run;
  trigger_mode = if force then ReplacementTriggerMode.force else ReplacementTriggerMode.standard;
  request_key = request_key;
  original_node_state = if force then some (node_state_value node.state) else none;
  attempt_count = 0;
  max_attempts = settings.max_replacement_attempts;
  old_vps_instance_id = some old_vps.id;
  new_vps_instance_id = none;
  last_error_code = none;
  workflow_lease_token = none;
  workflow_lease_until = none;
  provisioning_requested_at = none;
  master_snapshot = none;
  new_ip_verified_at = none;
  deployment_verified_at = none;
  master_updated_at = none;
  master_verified_at = none;
  final_health_verified_at = none;
  old_vps_deleted_at = none;
  started_at = none;
  completed_at = none;
}

module _ (out : Outside) (settings : Settings) where
  -- `transition_forced_replacement(node)`, or `transition(node, REPLACING)`
  abbrev pub enter_workflow : Bool → Node → Exec (Unit {0})
  enter_workflow true node = do
    now ← utc_now out
    step ← lift (transition_forced_replacement now node none)
    save_node step.0
  enter_workflow false node = move_node out node NodeState.replacing

  abbrev pub started_message : Bool → String
  started_message force =
      if force then "Force repair workflow started" else "Replacement workflow started"

  unfoldable pub add_job : Node → Bool → Option String → Bool → VpsInstance → ℕ → Exec ℕ
  add_job node force request_key dry_run old_vps job_id = do
    let job = new_job settings job_id node force request_key dry_run old_vps
    save_job job
    when (not dry_run) (enter_workflow force node)
    add_event out job EventType.replacement_started EventSeverity.info (started_message force)
    pure job_id

  -- The admission of a new job for `node`.
  unfoldable pub create_job : Node → Bool → Option String → Bool → Exec ℕ
  create_job node force request_key dry_run = do
    lift (may_start force node.state)
    active ← gets count_active
    if leb settings.max_concurrent_replacements active
        then raise Error.replacement_busy_error
        else do
          current ← gets (get_current_for_node node.id)
          old_vps ← required current
          require_provider node.provider_id
          job_id ← ask (λ n. ok (out.new_id n))
          add_job node force request_key dry_run old_vps job_id

  abbrev pub or_existing : Option ReplacementJob → Exec ℕ → Exec ℕ
  or_existing none rest = rest
  or_existing (some job) rest = pure job.id

  abbrev pub admit_node : ℕ → Bool → Option String → Bool → Exec ℕ
  admit_node node_id force request_key dry_run = do
    node ← require_node node_id
    active ← gets (get_active_for_node node_id)
    or_existing active (create_job node force request_key dry_run)

  -- What is done under the admission lock.
  unfoldable pub admit : ℕ → Bool → Option String → Bool → Exec ℕ
  admit node_id force request_key dry_run = session (do
    replay ← gets (get_by_request_key request_key)
    or_existing replay (admit_node node_id force request_key dry_run))

  -- `trigger`
  unfoldable pub trigger : ℕ → Bool → Option String → Exec ℕ
  trigger node_id force request_key =
      if bad_key request_key then raise Error.replacement_configuration_error else do
        dry_run ← ask (λ n. ok (out.effective_dry_run n))
        assert_not_emergency_stopped out settings dry_run
        assert_not_paused out
        acquired ← ask (λ n. ok (out.admission_lock n))
        if acquired
            then admit node_id force request_key dry_run
            else raise Error.replacement_busy_error
