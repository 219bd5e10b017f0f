-- ===== src/Replacement/Sound.antt =====
-- The invariant of the replacement jobs: each durable marker is set once the checkpoint is past the
-- step that sets it, and the attempts stay within their bound.
pub mod Moves
pub mod Actions
pub mod Early
pub mod Address
pub mod Deploy
pub mod Master
pub mod Finish
pub mod Workflow
mod Examples
use aso_node_recovery.Prelude.{get, is_some, some, true, ℕ, ◌≡◌, ◌≤◌}
use aso_node_recovery.Models.Rows.{ReplacementJob}
use aso_node_recovery.Replacement.Checkpoints.Consistent.{IsConsistent}
use aso_node_recovery.Replacement.Checkpoints.Gates.{rank}
use aso_node_recovery.Runtime.{Db}

pub record IsSound (job : ReplacementJob) : Type 0 where
  pub consistent : IsConsistent job
  pub ip : 4 ≤ rank job.checkpoint → is_some job.new_ip_verified_at ≡ true
  pub deployed : 6 ≤ rank job.checkpoint → is_some job.deployment_verified_at ≡ true
  pub switched : 8 ≤ rank job.checkpoint → is_some job.master_updated_at ≡ true
  pub master : 10 ≤ rank job.checkpoint → is_some job.master_verified_at ≡ true
  pub final : 12 ≤ rank job.checkpoint → is_some job.final_health_verified_at ≡ true
  pub attempts_bounded : job.attempt_count ≤ job.max_attempts
  pub attempts_allowed : 1 ≤ job.max_attempts

-- Every row of the table is sound and stands at its own key.
pub record AllSound (db : Db) : Type 0 where
  pub row :
      (id : ℕ) (job : ReplacementJob) → get db.jobs id ≡ some job → (job.id ≡ id) × IsSound job
