-- ===== src/Replacement/Workflow/Aborted.antt =====
-- What `cancel` and `_fail_job` of app/replacement/orchestrator.py leave of a job and of its node.
mod Examples
use aso_node_recovery.Replacement.Checkpoints
use aso_node_recovery.Runtime
use aso_node_recovery.Prelude.{
  Bool, Bool-cases, Table, arith, contains, false, get, get-put, get_or, inl, inr, is_some, nat_eq,
  none, put, refl, some, string_eq, true, ℕ, ◌+◌, ◌∙◌, ◌≡◌,
}
use aso_node_recovery.Deployment.Service.{current}
use aso_node_recovery.Errors.{Error, Result, err, ok}
use aso_node_recovery.Models.EventEnums.{
  EventSeverity, EventType, event_severity_eq, node_check_outcome_eq, replacement_trigger_mode_eq,
  secret_reference_backend_eq,
}
use aso_node_recovery.Models.JobEnums.{
  ReplacementCheckpoint, replacement_checkpoint_eq, replacement_job_state_eq,
}
use aso_node_recovery.Models.NodeEnums.{
  NodeState, deployment_state_eq, node_operation_mode_eq, node_state_eq, provider_type_eq,
  ssh_auth_method_eq, vps_instance_role_eq, vps_instance_state_eq,
}
use aso_node_recovery.Models.NodeValues.{node_state_of_value}
use aso_node_recovery.Models.Rows.{Node, ReplacementJob}
use aso_node_recovery.NodeLifecycle.{is_restorable, is_workflow}
use aso_node_recovery.Outside.{Outside}
use aso_node_recovery.Replacement.Access.{add_event, advance, require_job, utc_now}
use aso_node_recovery.Replacement.Checkpoints.{is_terminal, move_to}
use aso_node_recovery.Replacement.Workflow.{cancel, fail_job, restore_if}
use aso_node_recovery.Replacement.Workflow.Restore.{restore_node-LeavesWorkflow}
use aso_node_recovery.Runtime.{World, continue, pure, restore, session, when}
use aso_node_recovery.Settings.{Settings}
use aso_node_recovery.System.{after}

allowed_abort :
    (current : ReplacementCheckpoint)
    → is_terminal current ≡ false
    → (contains (Checkpoints.allowed current) ReplacementCheckpoint.failed ≡ true)
      × (contains (Checkpoints.allowed current) ReplacementCheckpoint.cancelled ≡ true)
unfolding Checkpoints.allowed
allowed_abort current live = ground arith

abbrev is_abort : ReplacementCheckpoint → Bool
is_abort ReplacementCheckpoint.failed = true
is_abort ReplacementCheckpoint.cancelled = true
is_abort _ = false

to_abort :
    (now : ℕ) (job : ReplacementJob) (target : ReplacementCheckpoint)
    → is_terminal job.checkpoint ≡ false
    → is_abort target ≡ true
    → Checkpoints.transition now job target none ≡ ok (move_to job target now, true)
unfolding Checkpoints.transition
to_abort now job ReplacementCheckpoint.failed live h =
    ground (arith, allowed_abort job.checkpoint live)
to_abort now job ReplacementCheckpoint.cancelled live h =
    ground (arith, allowed_abort job.checkpoint live)
to_abort now job _ live h = absurd (ground arith)

-- A stored job that has not ended, and its stored node. A forced job recorded no state that cannot be
-- restored.
pub record IsUnderWay (w : World) (id : ℕ) (job : ReplacementJob) (node : Node) : Type 0 where
  pub found : get w.db.jobs id ≡ some job
  pub own_id : job.id ≡ id
  pub live : is_terminal job.checkpoint ≡ false
  pub node_found : get w.db.nodes job.node_id ≡ some node
  pub node_own_id : node.id ≡ job.node_id
  pub restorable :
      (s : NodeState)
      → node_state_of_value (get_or job.original_node_state "") ≡ some s
      → is_restorable s ≡ true

-- A dry run leaves the nodes as they are; after any other job the node is outside the workflow.
abbrev pub NodeLeft : Bool → ℕ → Table Node → Table Node → Type 0
NodeLeft true id before after = after ≡ before
NodeLeft false id before after =
    (node : Node) × (get after id ≡ some node) × (is_workflow node.state ≡ false)

-- The stored job has ended at the checkpoint `target` and has given the active slot of its node back.
pub record IsAborted (target : ReplacementCheckpoint) (id : ℕ) (job : ReplacementJob)
    (before after : World) : Type 0 where
  pub row : ReplacementJob
  pub stored : get after.db.jobs id ≡ some row
  pub ended : row.checkpoint ≡ target
  pub slot_free : row.active_slot ≡ false
  pub completed : is_some row.completed_at ≡ true
  pub node_left : NodeLeft job.is_dry_run job.node_id before.db.nodes after.db.nodes

module _ {R : Type 0} where
  get-put_at : (t : Table R) (k j : ℕ) (r : R) → k ≡ j → get (put t k r) j ≡ some r
  get-put_at t k j r e = rw⁻¹ e (get-put t k r)

module _ (out : Outside) (settings : Settings) where
  abbrev ended_world : ReplacementJob → ReplacementCheckpoint → World → World
  ended_world job target w = record w {
    calls = w.calls + 1;
    db = record w.db { jobs = put w.db.jobs job.id (move_to job target (out.now w.calls)) };
  }

  advance_aborts :
      (job : ReplacementJob) (target : ReplacementCheckpoint) (w : World)
      → is_terminal job.checkpoint ≡ false
      → is_abort target ≡ true
      → advance out job target w ≡ (ok tt, ended_world job target w)
  unfolding advance utc_now Runtime.◌>>=◌ move_to
  advance_aborts job target w live h = rw (to_abort (out.now w.calls) job target live h) refl

  abbrev Restored : ReplacementJob → World → Result (Unit {0}) × World → Type 0
  Restored job w (answer, w') =
      (answer ≡ ok tt)
      × (w'.db.jobs ≡ w.db.jobs)
      × NodeLeft job.is_dry_run job.node_id w.db.nodes w'.db.nodes

  module _ (job : ReplacementJob) (node : Node) (own : node.id ≡ job.node_id)
      (restorable : (s : NodeState)
        → node_state_of_value (get_or job.original_node_state "") ≡ some s
        → is_restorable s ≡ true) where
    restore_if-Restored : (w : World) → Restored job w (restore_if out settings job (some node) w)
    unfolding utc_now Runtime.◌>>=◌ when pure
    restore_if-Restored w = elim (Bool-cases job.is_dry_run) [
      | inl dry ↦ rw dry (refl, refl, refl)
      | inr live ↦
          let (after, changed, e, free, same) =
            restore_node-LeavesWorkflow out settings (out.now w.calls) node job restorable in
          let kept = get-put_at w.db.nodes after.id job.node_id after (same ∙ own) in
          simp (live, e) (refl, refl, (after, kept, free))
    ]

  module _ (w : World) (id : ℕ) (job : ReplacementJob) (node : Node)
      (h : IsUnderWay w id job node) where
    -- The job ends and its node is restored.
    abort_lem :
        (target : ReplacementCheckpoint) (from : ReplacementJob) (w' : World)
        → is_abort target ≡ true
        → from.id ≡ id
        → w'.db.jobs ≡ (ended_world from target w).db.jobs
        → NodeLeft job.is_dry_run job.node_id w.db.nodes w'.db.nodes
        → IsAborted target id job w w'
    unfolding move_to
    abort_lem target from w' abort own jobs left = record {
      row = move_to from target (out.now w.calls);
      stored =
          rw jobs (get-put_at w.db.jobs from.id id (move_to from target (out.now w.calls)) own);
      ended = refl;
      slot_free = ground arith;
      completed = ground arith;
      node_left = left;
    }

    committed :
        (target : ReplacementCheckpoint) (from : ReplacementJob)
        (answer : Result (Unit {0}) × World)
        → is_abort target ≡ true
        → from.id ≡ id
        → Restored job (ended_world from target w) answer
        → ((restore w.db answer).0 ≡ ok tt) × IsAborted target id job w (restore w.db answer).1
    committed target from (ok tt, w') abort own (returned, jobs, left) =
        (refl, abort_lem target from w' abort own jobs left)
    committed target from (err e, w') abort own (returned, jobs, left) = absurd (ground arith)

    -- The call was refused and changed nothing, or it ended the job.
    abbrev pub CancelEnds : Bool → Result (Unit {0}) × World → Type 0
    CancelEnds true answer = answer ≡ (err Error.safety_violation_error, w)
    CancelEnds false (answer, after) =
        (answer ≡ ok tt) × IsAborted ReplacementCheckpoint.cancelled id job w after

    -- Cancelling a job that has not ended: where the master was updated it is refused and changes
    -- nothing. Otherwise, from every checkpoint, it returns, the stored job is cancelled and has given
    -- the active slot of its node back, and the node is outside the replacement workflow, or is as it
    -- was if the job is a dry run. It assumes that the job and its node are stored under their ids,
    -- and that a forced job recorded a state that can be restored.
    pub cancel-CancelEnds : CancelEnds (is_some job.master_updated_at) (cancel out settings id w)
    unfolding cancel session require_job when Runtime.◌>>=◌
    cancel-CancelEnds =
        let target = ReplacementCheckpoint.cancelled in
        let moved = advance_aborts job target w h.live refl in
        let restored =
          restore_if-Restored job node h.node_own_id h.restorable (ended_world job target w) in
        elim (Bool-cases (is_some job.master_updated_at)) [
          | inl late ↦ simp (h.found, h.live, late) refl
          | inr early ↦
              simp (h.found, h.live, early, moved, h.node_found)
                (committed target job _ refl h.own_id restored)
        ]

    abbrev Failed : Result (Unit {0}) × World → Type 0
    Failed answer = (answer.0 ≡ ok tt) × IsAborted ReplacementCheckpoint.failed id job w answer.1

    with_event :
        (failed : ReplacementJob) (answer : Result (Unit {0}) × World)
        → failed.id ≡ id
        → Restored job (ended_world failed ReplacementCheckpoint.failed w) answer
        → Failed (
            restore w.db (
              continue answer.0 answer.1 λ _.
                add_event out job EventType.replacement_failed EventSeverity.error
                  "Replacement workflow failed; old VPS was not deleted"))
    unfolding add_event utc_now Runtime.◌>>=◌
    with_event failed (ok tt, w') own (returned, jobs, left) =
        (refl, abort_lem ReplacementCheckpoint.failed failed _ refl own jobs left)
    with_event failed (err e, w') own (returned, jobs, left) = absurd (ground arith)

    -- A job that fails with an error before it has ended: from every checkpoint the failing itself
    -- returns, the stored job has failed and has given the active slot of its node back, and the node
    -- is outside the replacement workflow, or is as it was if the job is a dry run. It assumes that
    -- the job and its node are stored under their ids, and that a forced job recorded a state that can
    -- be restored.
    pub fail_job-IsAborted :
        (e : Error)
        → ((fail_job out settings id e w).0 ≡ ok tt)
          × IsAborted ReplacementCheckpoint.failed id job w (fail_job out settings id e w).1
    unfolding fail_job session when Runtime.◌>>=◌
    fail_job-IsAborted e =
        let target = ReplacementCheckpoint.failed in
        let failed = record job { last_error_code = some e } in
        let moved = advance_aborts failed target w h.live refl in
        let restored =
          restore_if-Restored job node h.node_own_id h.restorable (ended_world failed target w) in
        simp (h.found, h.live, moved, h.node_found) (with_event failed _ h.own_id restored)
