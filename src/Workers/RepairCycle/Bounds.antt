-- ===== src/Workers/RepairCycle/Bounds.antt =====
-- How much a cycle of the replacement worker does.
use aso_node_recovery.Prelude.{
  List, [], arith, length, length-take-le_count, ℕ, ◌+◌, ◌<◌, ◌∷◌, ◌≡◌, ◌≤◌,
}
use aso_node_recovery.Errors.{Error, ok}
use aso_node_recovery.Models.Rows.{Node, ReplacementJob}
use aso_node_recovery.Outside.{Outside}
use aso_node_recovery.Runtime.{Db, World}
use aso_node_recovery.Runtime.Always.{
  Always, Always-ask, Always-bind, Always-gets, Always-if, Always-mono, Always-pure, Always-session,
  Always-try_catch, MayReturn-Always, MayReturn-bind,
}
use aso_node_recovery.Settings.{Settings}
use aso_node_recovery.Workers.RepairCycle.{
  ReplacementCycleResult, after_error, eligible_nodes, find_eligible, list_auto_repair_failed,
  no_cycle, resume_all, resume_one, resume_triggered, run_cycle, trigger_all, trigger_new,
  trigger_one,
}

length-eligible_nodes :
    (db : Db) (limit taken : ℕ) (nodes : List Node)
    → taken < limit
    → length (eligible_nodes db limit taken nodes) + taken ≤ limit
unfolding eligible_nodes
length-eligible_nodes db limit taken [] h = omega arith
length-eligible_nodes db limit taken (node ∷ nodes) h = ground (
  arith,
  length-eligible_nodes db limit (taken + 1) nodes,
  length-eligible_nodes db limit taken nodes,
)

-- The counts after some rounds of each loop.
abbrev Resumed : ReplacementCycleResult → ℕ → ReplacementCycleResult → Type 0
Resumed r k r' = (r'.resumed_jobs ≤ r.resumed_jobs + k) × (r'.triggered_jobs ≡ r.triggered_jobs)

abbrev Triggered : ReplacementCycleResult → ℕ → ReplacementCycleResult → Type 0
Triggered r k r' = (r'.resumed_jobs ≡ r.resumed_jobs) × (r'.triggered_jobs ≤ r.triggered_jobs + k)

module _ (out : Outside) (settings : Settings) where
  Always-resume_one :
      (r : ReplacementCycleResult) (job_id : ℕ)
      → Always (Resumed r 1) (resume_one out settings r job_id)
  unfolding resume_one
  Always-resume_one r job_id =
      Always-try_catch _ _
        (MayReturn-bind _ _ λ result. MayReturn-Always _ (Always-pure _ (ground arith)))
        (λ e. Always-pure _ (ground arith))

  Always-resume_all :
      (r : ReplacementCycleResult) (jobs : List ReplacementJob)
      → Always (Resumed r (length jobs)) (resume_all out settings r jobs)
  unfolding resume_all
  Always-resume_all r [] = Always-pure r (omega arith)
  Always-resume_all r (job ∷ jobs) =
      Always-bind (Resumed r 1) _ _ (Always-resume_one r job.id)
        λ r' one. Always-mono _ (λ r'' more. omega arith) (Always-resume_all r' jobs)

  after_error-Triggered :
      (r : ReplacementCycleResult) (e : Error) → Triggered r 0 (after_error out settings r e).0
  after_error-Triggered r Error.replacement_busy_error = omega arith
  after_error-Triggered r Error.replacement_deferred_error = omega arith
  after_error-Triggered r _ = omega arith

  Always-resume_triggered :
      (r : ReplacementCycleResult) (job_id : ℕ)
      → Always (λ outcome. Triggered r 0 outcome.0) (resume_triggered out settings r job_id)
  unfolding resume_triggered
  Always-resume_triggered r job_id =
      Always-try_catch _ _
        (MayReturn-bind _ _ λ result. MayReturn-Always _ (Always-pure _ (ground arith)))
        (λ e. Always-pure _ (after_error-Triggered r e))

  Always-trigger_one :
      (r : ReplacementCycleResult) (node_id : ℕ)
      → Always (λ outcome. Triggered r 1 outcome.0) (trigger_one out settings r node_id)
  unfolding trigger_one
  Always-trigger_one r node_id =
      Always-try_catch _ _
        (MayReturn-bind _ _ λ job_id.
          MayReturn-Always _
            (Always-mono _ (λ outcome more. omega arith) (Always-resume_triggered _ job_id)))
        (λ e. Always-pure _ (omega (arith, after_error-Triggered r e)))

  Always-trigger_all :
      (r : ReplacementCycleResult) (nodes : List Node)
      → Always (Triggered r (length nodes)) (trigger_all out settings r nodes)
  unfolding trigger_all
  Always-trigger_all r [] = Always-pure r (omega arith)
  Always-trigger_all r (node ∷ nodes) =
      Always-bind (λ outcome. Triggered r 1 outcome.0) _ _ (Always-trigger_one r node.id)
        λ outcome one.
          Always-if outcome.1 _ _
            (Always-mono _ (λ r' more. omega arith) (Always-trigger_all outcome.0 nodes))
            (Always-pure _ (omega arith))

  module _ (room : 1 ≤ settings.max_concurrent_replacements) where
    Always-find_eligible :
        Always
          (λ nodes. length nodes ≤ settings.max_concurrent_replacements)
          (find_eligible out settings)
    unfolding find_eligible
    Always-find_eligible = Always-session _ (
        Always-gets _ λ db. omega (
          arith,
          length-eligible_nodes db settings.max_concurrent_replacements 0
              (list_auto_repair_failed out settings db),
        ))

    Always-trigger_new :
        (r : ReplacementCycleResult)
        → Always (Triggered r settings.max_concurrent_replacements) (trigger_new out settings r)
    unfolding trigger_new
    Always-trigger_new r = Always-bind _ _ _ (Always-ask _) λ dry_run _.
        Always-if _ _ _ (Always-pure r (omega arith)) (
          Always-bind _ _ _ Always-find_eligible
            λ nodes few. Always-mono _ (λ r' more. omega arith) (Always-trigger_all r nodes))

    abbrev Within : ReplacementCycleResult → Type 0
    Within r = (r.resumed_jobs ≤ 100) × (r.triggered_jobs ≤ settings.max_concurrent_replacements)

    Always-run_cycle : Always Within (run_cycle out settings)
    unfolding run_cycle
    Always-run_cycle = Always-bind _ _ _ (Always-ask _) λ paused _.
        Always-if _ _ _ (Always-pure _ (omega arith)) (
          Always-bind _ _ _ (Always-ask _) λ enabled _.
            Always-if _ _ _
              (Always-bind (λ jobs. length jobs ≤ 100) _ _
                (Always-session _ (Always-gets _ λ db. length-take-le_count 100 _))
                λ jobs few.
                  Always-bind _ _ _ (Always-resume_all no_cycle jobs)
                    λ r resumed. Always-mono _ (λ r' more. omega arith) (Always-trigger_new r))
              (Always-pure _ (omega arith)))

    -- A cycle of the replacement worker never raises, whatever the jobs and the outside do. It counts
    -- no more than 100 jobs as resumed, and triggers no more new jobs than may run at once. It assumes
    -- that the settings allow one replacement at least.
    pub run_cycle-within :
        (w : World)
        → (r : ReplacementCycleResult) × ((run_cycle out settings w).0 ≡ ok r)
          × (r.resumed_jobs ≤ 100)
          × (r.triggered_jobs ≤ settings.max_concurrent_replacements)
    run_cycle-within w =
        let (r, h, within) = Always-run_cycle.returns w in (r, h, within.0, within.1)
