-- ===== src/Replacement/Checkpoints/Gates.antt =====
-- Sequences of transitions: no stage of the workflow can be skipped.
use mathlib.Core.Path.{subst}
use aso_node_recovery.Prelude.{
  Bool, List, Nat-cases, [], arith, contains, contains_head, inl, inr, nat_eq, none, or-true, refl,
  string_eq, true, ℕ, ◌+◌, ◌<◌, ◌∷◌, ◌≡◌, ◌≤◌,
}
use aso_node_recovery.Errors.{Result, Result-cases, ok, ◌>>=◌}
use aso_node_recovery.Models.EventEnums.{
  event_severity_eq, node_check_outcome_eq, replacement_trigger_mode_eq,
  secret_reference_backend_eq,
}
use aso_node_recovery.Models.JobEnums.{
  ReplacementCheckpoint, replacement_checkpoint_eq, replacement_job_state_eq,
}
use aso_node_recovery.Models.NodeEnums.{
  deployment_state_eq, node_operation_mode_eq, node_state_eq, provider_type_eq, ssh_auth_method_eq,
  vps_instance_role_eq, vps_instance_state_eq,
}
use aso_node_recovery.Models.Rows.{ReplacementJob}
use aso_node_recovery.Replacement.Checkpoints.{allowed, move_to, transition}
use aso_node_recovery.Replacement.Checkpoints.Consistent.{transition_moves}

-- How far a job has come. A failed attempt falls back.
abbrev pub rank : ReplacementCheckpoint → ℕ
rank ReplacementCheckpoint.created = 0
rank ReplacementCheckpoint.provisioning = 1
rank ReplacementCheckpoint.provisioned = 2
rank ReplacementCheckpoint.checking_ip = 3
rank ReplacementCheckpoint.temp_cleanup = 0
rank ReplacementCheckpoint.ip_verified = 4
rank ReplacementCheckpoint.deploying = 5
rank ReplacementCheckpoint.node_verified = 6
rank ReplacementCheckpoint.master_updating = 7
rank ReplacementCheckpoint.master_updated = 8
rank ReplacementCheckpoint.master_verifying = 9
rank ReplacementCheckpoint.master_verified = 10
rank ReplacementCheckpoint.final_check = 11
rank ReplacementCheckpoint.final_verified = 12
rank ReplacementCheckpoint.old_vps_cleanup = 13
rank ReplacementCheckpoint.completed = 14
rank ReplacementCheckpoint.failed = 0
rank ReplacementCheckpoint.cancelled = 0

-- Transitions to the targets in turn; the first refusal ends the run.
unfoldable pub run_checkpoints :
    ℕ → ReplacementJob → List ReplacementCheckpoint → Result ReplacementJob
run_checkpoints now job [] = ok job
run_checkpoints now job (target ∷ targets) =
    transition now job target none >>= λ step. run_checkpoints now step.0 targets

pub rank-allowed :
    (current target : ReplacementCheckpoint)
    → contains (allowed current) target ≡ true
    → rank target ≤ rank current + 1
unfolding allowed
rank-allowed ReplacementCheckpoint.created target h = ground arith
rank-allowed _ target h = ground arith

transition-rank :
    (now : ℕ) (job : ReplacementJob) (target : ReplacementCheckpoint) (after : ReplacementJob)
    (changed : Bool)
    → transition now job target none ≡ ok (after, changed)
    → (after.checkpoint ≡ target) × (rank target ≤ rank job.checkpoint + 1)
unfolding move_to
transition-rank now job target after changed h =
    elim (transition_moves now job target none after changed h) [
      | inl (same, e) ↦ (rw (same, e) refl, rw e (omega arith))
      | inr (a, (t, e)) ↦ (rw e refl, rank-allowed job.checkpoint target a)
    ]

-- A checkpoint of rank `k` is among the targets.
abbrev pub Visits : List ReplacementCheckpoint → ℕ → Type 0
Visits targets k = (c : ReplacementCheckpoint) × (contains targets c ≡ true) × (rank c ≡ k)

Visits-step :
    (now : ℕ) (job : ReplacementJob) (target : ReplacementCheckpoint)
    (targets : List ReplacementCheckpoint) (after : ReplacementJob) (k : ℕ)
    → ((mid : ReplacementJob)
        → run_checkpoints now mid targets ≡ ok after
        → rank mid.checkpoint < k
        → Visits targets k)
    → run_checkpoints now job (target ∷ targets) ≡ ok after
    → rank job.checkpoint < k
    → Visits (target ∷ targets) k
unfolding run_checkpoints
Visits-step now job target targets after k rest h below =
    elim (Result-cases (transition now job target none)) [
      | inl ((mid, changed), e) ↦
          let (arrived, near) = transition-rank now job target mid changed e in
          elim (Nat-cases (rank target) k) [
            | inl lower ↦
                let (c, seen, at_k) = rest mid (rw e at h) (rw arrived lower) in
                (c, rw seen (or-true _), at_k)
            | inr higher ↦ (target, rw (contains_head target targets), omega arith)
          ]
      | inr (x, e) ↦ cc (rw e at h)
    ]

-- Whatever the targets, a run that starts below rank `k` and ends at rank `k` or above visits a
-- checkpoint of rank `k`.
pub run-Visits :
    (now : ℕ) (job : ReplacementJob) (targets : List ReplacementCheckpoint) (after : ReplacementJob)
    (k : ℕ)
    → run_checkpoints now job targets ≡ ok after
    → rank job.checkpoint < k
    → k ≤ rank after.checkpoint
    → Visits targets k
unfolding run_checkpoints
run-Visits now job [] after k h below reached = absurd (ground arith)
run-Visits now job (target ∷ targets) after k h below reached =
    Visits-step now job target targets after k
      (λ mid rest lower. run-Visits now mid targets after k rest lower reached) h below

rank_injective : (c gate : ReplacementCheckpoint) → rank c ≡ rank gate → 4 ≤ rank gate → c ≡ gate
rank_injective ReplacementCheckpoint.created gate e h = ground arith
rank_injective _ gate e h = ground arith

module _ (now : ℕ) (job : ReplacementJob) (targets : List ReplacementCheckpoint)
    (after : ReplacementJob) (h : run_checkpoints now job targets ≡ ok after)
    (early : rank job.checkpoint < 4) (reached : 13 ≤ rank after.checkpoint) where
  passes :
      (gate : ReplacementCheckpoint) → 4 ≤ rank gate → rank gate ≤ 13 → contains targets gate ≡ true
  passes gate low high =
      let (c, seen, at_k) =
        run-Visits now job targets after (rank gate) h (omega arith) (omega arith) in
      subst (λ x. contains targets x ≡ true) (rank_injective c gate at_k low) seen

  -- A job that starts before its IP was verified and reaches the cleanup of the old VPS, or the end,
  -- has passed on the way, whatever the order of the calls, through every gate: the verified IP, the
  -- verified deployment, the updated and the verified master, and the verified final check.
  pub no_gate_skipped :
      (contains targets ReplacementCheckpoint.ip_verified ≡ true)
      × (contains targets ReplacementCheckpoint.node_verified ≡ true)
      × (contains targets ReplacementCheckpoint.master_updated ≡ true)
      × (contains targets ReplacementCheckpoint.master_verified ≡ true)
      × (contains targets ReplacementCheckpoint.final_verified ≡ true)
  no_gate_skipped = (
    passes ReplacementCheckpoint.ip_verified (omega arith) (omega arith),
    passes ReplacementCheckpoint.node_verified (omega arith) (omega arith),
    passes ReplacementCheckpoint.master_updated (omega arith) (omega arith),
    passes ReplacementCheckpoint.master_verified (omega arith) (omega arith),
    passes ReplacementCheckpoint.final_verified (omega arith) (omega arith),
  )
