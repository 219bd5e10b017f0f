-- ===== src/Workers/RepairCycle.antt =====
-- `ReplacementWorker` of app/workers/replacement.py: it resumes every active job, and then triggers
-- jobs for the failed nodes that may be repaired. The operators' service is taken to be present;
-- a worker without one behaves as under answers that never pause and that repeat the settings.
pub mod Bounds
pub mod Sound
mod Examples
use aso_node_recovery.Prelude.{
  Bool, List, Option, [], false, if◌then◌else◌, leb, nat_eq, none, select, some, string_eq, take,
  true, ℕ, ◌&&◌, ◌+◌, ◌==◌, ◌||◌, ◌∷◌,
}
use aso_node_recovery.Errors.{Error, ok}
use aso_node_recovery.Models.EventEnums.{
  event_severity_eq, node_check_outcome_eq, replacement_trigger_mode_eq,
  secret_reference_backend_eq,
}
use aso_node_recovery.Models.JobEnums.{
  ReplacementJobState, replacement_checkpoint_eq, replacement_job_state_eq,
}
use aso_node_recovery.Models.NodeEnums.{
  NodeOperationMode, NodeState, deployment_state_eq, node_operation_mode_eq, node_state_eq,
  provider_type_eq, ssh_auth_method_eq, vps_instance_role_eq, vps_instance_state_eq,
}
use aso_node_recovery.Models.Rows.{Node, ReplacementJob}
use aso_node_recovery.Monitoring.Health.{outcome}
use aso_node_recovery.Outside.{Outside}
use aso_node_recovery.Replacement.Trigger.{latest_for_node, trigger}
use aso_node_recovery.Replacement.Workflow.{RunResult, resume}
use aso_node_recovery.Runtime.{Db, Exec, ask, gets, pure, session, try_catch, ◌>>=◌, ◌>>◌}
use aso_node_recovery.Settings.{Settings}

-- `ReplacementCycleResult`
pub record ReplacementCycleResult : Type 0 where
  pub resumed_jobs : ℕ
  pub triggered_jobs : ℕ
  pub deferred_jobs : ℕ
  pub failed_operations : ℕ

abbrev pub no_cycle : ReplacementCycleResult
no_cycle = record { resumed_jobs = 0; triggered_jobs = 0; deferred_jobs = 0; failed_operations = 0 }

abbrev pub count_deferred : Bool → ReplacementCycleResult → ReplacementCycleResult
count_deferred deferred r = if deferred then record r { deferred_jobs = r.deferred_jobs + 1 } else r

abbrev pub count_failed_operation : ReplacementCycleResult → ReplacementCycleResult
count_failed_operation r = record r { failed_operations = r.failed_operations + 1 }

-- `ReplacementJobRepository.list_active`, oldest first
abbrev pub list_active : Db → List ReplacementJob
list_active db = take 100 (select db.jobs (λ job. job.active_slot))

-- `NodeRepository.list_auto_repair_failed`
abbrev pub is_auto_repair_failed : Node → Bool
is_auto_repair_failed node =
    node.state == NodeState.failed
    && node.operation_mode == NodeOperationMode.auto_repair
    && node.monitoring_enabled

-- The latest job of the node failed or was cancelled.
abbrev pub gave_up : Option ReplacementJob → Bool
gave_up none = false
gave_up (some job) =
    job.state == ReplacementJobState.failed || job.state == ReplacementJobState.cancelled

-- The nodes that are eligible, with the number of those taken so far.
unfoldable pub eligible_nodes : Db → ℕ → ℕ → List Node → List Node
eligible_nodes db limit taken [] = []
eligible_nodes db limit taken (node ∷ nodes) =
    let next = eligible_nodes db limit (taken + 1) nodes in
    let others = eligible_nodes db limit taken nodes in
    if gave_up (latest_for_node node.id db)
    then others
    else if leb limit (taken + 1)
    then node ∷ []
    else node ∷ next

module _ (out : Outside) (settings : Settings) where
  abbrev pub list_auto_repair_failed : Db → List Node
  list_auto_repair_failed db = take 100 (out.in_name_order (select db.nodes is_auto_repair_failed))

  -- `orchestrator.resume`, with the lease token that it makes
  unfoldable pub resume_with_new_token : ℕ → Exec RunResult
  resume_with_new_token job_id = do
    token ← ask (λ n. ok (out.new_token n))
    resume out settings job_id token

  abbrev pub is_waiting : Error → Bool
  is_waiting Error.replacement_busy_error = true
  is_waiting Error.replacement_deferred_error = true
  is_waiting _ = false

  -- A round of the first loop.
  unfoldable pub resume_one : ReplacementCycleResult → ℕ → Exec ReplacementCycleResult
  resume_one r job_id =
      try_catch
        (do
          result ← resume_with_new_token job_id
          pure (count_deferred result.deferred (record r { resumed_jobs = r.resumed_jobs + 1 })))
        (λ e. pure (if is_waiting e then count_deferred true r else count_failed_operation r))

  unfoldable pub resume_all :
      ReplacementCycleResult → List ReplacementJob → Exec ReplacementCycleResult
  resume_all r [] = pure r
  resume_all r (job ∷ jobs) = do r' ← resume_one r job.id; resume_all r' jobs

  -- The `except` blocks of the second loop: the counts, and whether the loop goes on.
  abbrev pub after_error : ReplacementCycleResult → Error → ReplacementCycleResult × Bool
  after_error r Error.replacement_busy_error = (count_deferred true r, false)
  after_error r Error.replacement_deferred_error = (count_deferred true r, true)
  after_error r _ = (count_failed_operation r, true)

  unfoldable pub resume_triggered :
      ReplacementCycleResult → ℕ → Exec (ReplacementCycleResult × Bool)
  resume_triggered r job_id =
      try_catch
        (do result ← resume_with_new_token job_id; pure (count_deferred result.deferred r, true))
        (λ e. pure (after_error r e))

  -- A round of the second loop. An error of `resume` finds the job counted as triggered.
  unfoldable pub trigger_one : ReplacementCycleResult → ℕ → Exec (ReplacementCycleResult × Bool)
  trigger_one r node_id =
      try_catch
        (do
          job_id ← trigger out settings node_id false none
          resume_triggered (record r { triggered_jobs = r.triggered_jobs + 1 }) job_id)
        (λ e. pure (after_error r e))

  unfoldable pub trigger_all : ReplacementCycleResult → List Node → Exec ReplacementCycleResult
  trigger_all r [] = pure r
  trigger_all r (node ∷ nodes) = do
    outcome ← trigger_one r node.id
    let rest = trigger_all outcome.0 nodes
    if outcome.1 then rest else pure outcome.0

  unfoldable pub find_eligible : Exec (List Node)
  find_eligible = session (
      gets
        λ db. eligible_nodes db settings.max_concurrent_replacements 0 (list_auto_repair_failed db))

  -- What follows the first loop.
  unfoldable pub trigger_new : ReplacementCycleResult → Exec ReplacementCycleResult
  trigger_new r = do
    dry_run ← ask (λ n. ok (out.effective_dry_run n))
    if dry_run || settings.replacement_emergency_stop
        then pure r
        else (do nodes ← find_eligible; trigger_all r nodes)

  abbrev pub run_enabled : Exec ReplacementCycleResult
  run_enabled = do jobs ← session (gets list_active); r ← resume_all no_cycle jobs; trigger_new r

  -- `run_cycle`
  unfoldable pub run_cycle : Exec ReplacementCycleResult
  run_cycle = do
    paused ← ask (λ n. ok (out.is_paused n))
    if paused then pure no_cycle else do
      enabled ← ask (λ n. ok (out.replacement_enabled n))
      if enabled then run_enabled else pure no_cycle
