-- ===== src/Workers/RepairCycle/Sound.antt =====
-- A cycle of the replacement worker keeps every job sound.
use aso_node_recovery.Prelude.{List, [], ℕ, ◌∷◌, ◌≤◌}
use aso_node_recovery.Models.Rows.{Node, ReplacementJob}
use aso_node_recovery.Outside.{Outside}
use aso_node_recovery.Replacement.Sound.{AllSound}
use aso_node_recovery.Replacement.Sound.Actions.{reads}
use aso_node_recovery.Replacement.Sound.Workflow.{Preserves-resume}
use aso_node_recovery.Replacement.Trigger.Admission.{Preserves-trigger}
use aso_node_recovery.Runtime.{World}
use aso_node_recovery.Runtime.Preserves.{Preserves, Preserves-bind, Preserves-if, Preserves-pure}
use aso_node_recovery.Settings.{Settings}
use aso_node_recovery.Workers.RepairCycle.{
  ReplacementCycleResult, find_eligible, resume_all, resume_one, resume_triggered,
  resume_with_new_token, run_cycle, trigger_all, trigger_new, trigger_one,
}

module _ (out : Outside) (settings : Settings)
    (attempts : 1 ≤ settings.max_replacement_attempts) where
  Preserves-resume_with_new_token :
      (job_id : ℕ) → Preserves AllSound (resume_with_new_token out settings job_id)
  unfolding resume_with_new_token
  Preserves-resume_with_new_token job_id = search (reads, Preserves-resume) depth 20

  Preserves-resume_one :
      (r : ReplacementCycleResult) (job_id : ℕ)
      → Preserves AllSound (resume_one out settings r job_id)
  unfolding resume_one
  Preserves-resume_one r job_id = search (reads, Preserves-resume_with_new_token) depth 20

  Preserves-resume_all :
      (r : ReplacementCycleResult) (jobs : List ReplacementJob)
      → Preserves AllSound (resume_all out settings r jobs)
  unfolding resume_all
  Preserves-resume_all r [] = Preserves-pure r
  Preserves-resume_all r (job ∷ jobs) =
      Preserves-bind _ _ (Preserves-resume_one r job.id) λ r'. Preserves-resume_all r' jobs

  Preserves-trigger_one :
      (r : ReplacementCycleResult) (node_id : ℕ)
      → Preserves AllSound (trigger_one out settings r node_id)
  unfolding trigger_one resume_triggered
  Preserves-trigger_one r node_id =
      search (reads, Preserves-resume_with_new_token, Preserves-trigger, attempts) depth 20

  Preserves-trigger_all :
      (r : ReplacementCycleResult) (nodes : List Node)
      → Preserves AllSound (trigger_all out settings r nodes)
  unfolding trigger_all
  Preserves-trigger_all r [] = Preserves-pure r
  Preserves-trigger_all r (node ∷ nodes) =
      Preserves-bind _ _ (Preserves-trigger_one r node.id) λ outcome.
        Preserves-if outcome.1 _ _ (Preserves-trigger_all outcome.0 nodes) (Preserves-pure _)

  pub Preserves-run_cycle : Preserves AllSound (run_cycle out settings)
  unfolding run_cycle trigger_new find_eligible
  Preserves-run_cycle = search (reads, Preserves-resume_all, Preserves-trigger_all) depth 30

  -- A whole cycle of the replacement worker, with every job that it resumes or triggers, leaves all
  -- replacement jobs sound, whatever the outside answers, if they were sound before and the settings
  -- allow an attempt.
  pub run_cycle-AllSound : (w : World) → AllSound w.db → AllSound (run_cycle out settings w).1.db
  run_cycle-AllSound w i = Preserves-run_cycle.leads w i
