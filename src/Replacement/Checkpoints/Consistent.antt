-- ===== src/Replacement/Checkpoints/Consistent.antt =====
-- The fields of a job that only the state machine writes agree with its checkpoint.
use aso_node_recovery.Prelude.{
  Bool, Bool-cases, Option, ap, arith, contains, false, if◌then◌else◌, inl, inr, is_some, not, refl,
  true, ℕ, ◌==◌, ◌∙◌, ◌≡◌, ◌⊎◌,
}
use aso_node_recovery.Errors.{Error, Result-cases, err, ok}
use aso_node_recovery.Models.EventEnums.{
  event_severity_eq, node_check_outcome_eq, replacement_trigger_mode_eq,
  secret_reference_backend_eq,
}
use aso_node_recovery.Models.JobEnums.{
  ReplacementCheckpoint, replacement_checkpoint_eq, replacement_job_state_eq,
}
use aso_node_recovery.Models.NodeEnums.{
  deployment_state_eq, node_operation_mode_eq, node_state_eq, provider_type_eq, ssh_auth_method_eq,
  vps_instance_role_eq, vps_instance_state_eq,
}
use aso_node_recovery.Models.Rows.{ReplacementJob}
use aso_node_recovery.Moments.{Datetime, moment}
use aso_node_recovery.Replacement.Checkpoints.{
  allowed, is_terminal, move_to, state_for_checkpoint, transition,
}

pub record IsConsistent (job : ReplacementJob) : Type 0 where
  pub state_matches : job.state ≡ state_for_checkpoint job.checkpoint
  pub slot_matches : job.active_slot ≡ not (is_terminal job.checkpoint)
  pub completed_matches : is_some job.completed_at ≡ is_terminal job.checkpoint
  pub started_matches :
      is_some job.started_at ≡ not (job.checkpoint == ReplacementCheckpoint.created)

allowed_live :
    (current target : ReplacementCheckpoint)
    → contains (allowed current) target ≡ true
    → (is_terminal current ≡ false) × ((target == ReplacementCheckpoint.created) ≡ false)
unfolding allowed
allowed_live ReplacementCheckpoint.created target h = ground arith
allowed_live _ target h = ground arith

-- An accepted transition changes nothing, or is an allowed move at some time.
pub transition_moves :
    (now : ℕ) (job : ReplacementJob) (target : ReplacementCheckpoint) (at : Option Datetime)
    (after : ReplacementJob) (changed : Bool)
    → transition now job target at ≡ ok (after, changed)
    → ((after ≡ job) × (target ≡ job.checkpoint))
      ⊎ ((contains (allowed job.checkpoint) target ≡ true)
          × ((t : ℕ) × (after ≡ move_to job target t)))
unfolding transition
transition_moves now job target at after changed h = elim (Bool-cases (target == job.checkpoint)) [
  | inl e ↦ inl (ground arith, (replacement_checkpoint_eq.agree_iff target job.checkpoint).0 e)
  | inr e ↦ elim (Result-cases (moment now at)) [
    | inl (t, m) ↦ inr (ground arith, (t, ground arith))
    | inr (x, m) ↦ absurd (ground arith)
  ]
]

module _ (job : ReplacementJob) (target : ReplacementCheckpoint) (t : ℕ)
    (v : IsConsistent job) where
  pub move_to-IsConsistent :
      contains (allowed job.checkpoint) target ≡ true → IsConsistent (move_to job target t)
  unfolding move_to
  move_to-IsConsistent h =
      let (live, later) = allowed_live job.checkpoint target h in
      record {
        state_matches = refl;
        slot_matches = elim (Bool-cases (is_terminal target)) [
          | inl e ↦ rw e
          | inr e ↦ rw e (v.slot_matches ∙ ap not live)
        ];
        completed_matches = elim (Bool-cases (is_terminal target)) [
          | inl e ↦ rw e
          | inr e ↦ rw e (v.completed_matches ∙ live)
        ];
        started_matches = rw later (ground arith);
      }

-- Every accepted transition, at whatever time, keeps a job consistent: its state is the one of its
-- checkpoint, it holds the active slot of its node exactly until a terminal checkpoint, and it has
-- a start and an end time exactly when it should.
pub transition-IsConsistent :
    (now : ℕ) (job : ReplacementJob) (target : ReplacementCheckpoint) (at : Option Datetime)
    (after : ReplacementJob) (changed : Bool)
    → transition now job target at ≡ ok (after, changed)
    → IsConsistent job
    → IsConsistent after
transition-IsConsistent now job target at after changed h v =
    elim (transition_moves now job target at after changed h) [
      | inl same ↦ rw same.0 v
      | inr (a, (t, e)) ↦ rw e (move_to-IsConsistent job target t v a)
    ]

allowed_terminal :
    (current target : ReplacementCheckpoint)
    → is_terminal current ≡ true
    → contains (allowed current) target ≡ false
unfolding allowed
allowed_terminal ReplacementCheckpoint.completed target h = refl
allowed_terminal _ target h = ground arith

-- A finished job is never moved again: a transition of it either asks for the checkpoint that it
-- has, and changes nothing, or is refused.
pub transition_terminal :
    (now : ℕ) (job : ReplacementJob) (target : ReplacementCheckpoint) (at : Option Datetime)
    → is_terminal job.checkpoint ≡ true
    → transition now job target at ≡ (
        if target == job.checkpoint
        then ok (job, false)
        else err Error.invalid_replacement_transition_error)
unfolding transition
transition_terminal now job target at h = ground (arith, allowed_terminal job.checkpoint target h)
