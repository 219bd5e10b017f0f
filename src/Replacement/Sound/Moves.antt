-- ===== src/Replacement/Sound/Moves.antt =====
-- A move of a sound job to a checkpoint whose marker is set leaves it sound.
use aso_node_recovery.Replacement.Checkpoints
use aso_node_recovery.Prelude.{
  Bool, Bool-cases, Nat-cases, Option, String, arith, contains, false, if◌then◌else◌, inl, inr,
  is_some, leb, ltb, nat_eq, none, some, string_eq, true, ℕ, ◌+◌, ◌≡◌,
}
use aso_node_recovery.Errors.{Error, ok}
use aso_node_recovery.Models.EventEnums.{
  event_severity_eq, node_check_outcome_eq, replacement_trigger_mode_eq,
  secret_reference_backend_eq,
}
use aso_node_recovery.Models.JobEnums.{
  ReplacementCheckpoint, replacement_checkpoint_eq, replacement_job_state_eq,
}
use aso_node_recovery.Models.NodeEnums.{
  deployment_state_eq, node_operation_mode_eq, node_state_eq, provider_type_eq, ssh_auth_method_eq,
  vps_instance_role_eq, vps_instance_state_eq,
}
use aso_node_recovery.Models.Rows.{MasterSnapshot, ReplacementJob}
use aso_node_recovery.Replacement.Checkpoints.{allowed, move_to}
use aso_node_recovery.Replacement.Checkpoints.Consistent.{move_to-IsConsistent, transition_moves}
use aso_node_recovery.Replacement.Checkpoints.Gates.{rank-allowed, rank}
use aso_node_recovery.Replacement.Leases.{with_lease}
use aso_node_recovery.Replacement.Sound.{IsSound}

-- The marker that a checkpoint asks for.
abbrev pub is_marked : ReplacementJob → ReplacementCheckpoint → Bool
is_marked job ReplacementCheckpoint.ip_verified = is_some job.new_ip_verified_at
is_marked job ReplacementCheckpoint.node_verified = is_some job.deployment_verified_at
is_marked job ReplacementCheckpoint.master_updated = is_some job.master_updated_at
is_marked job ReplacementCheckpoint.master_verified = is_some job.master_verified_at
is_marked job ReplacementCheckpoint.final_verified = is_some job.final_health_verified_at
is_marked job _ = true

-- The marker at a gate, by the gate's rank.
gate_marked :
    (job : ReplacementJob) (target : ReplacementCheckpoint)
    → is_marked job target ≡ true
    → (rank target ≡ 4 → is_some job.new_ip_verified_at ≡ true)
      × (rank target ≡ 6 → is_some job.deployment_verified_at ≡ true)
      × (rank target ≡ 8 → is_some job.master_updated_at ≡ true)
      × (rank target ≡ 10 → is_some job.master_verified_at ≡ true)
      × (rank target ≡ 12 → is_some job.final_health_verified_at ≡ true)
gate_marked job ReplacementCheckpoint.ip_verified h = (
  (λ _. h),
  (λ e. absurd (omega arith)),
  (λ e. absurd (omega arith)),
  (λ e. absurd (omega arith)),
  (λ e. absurd (omega arith)),
)
gate_marked job _ h = ground arith

module _ (job : ReplacementJob) (target : ReplacementCheckpoint) (t : ℕ) (v : IsSound job)
    (marked : is_marked job target ≡ true)
    (a : contains (allowed job.checkpoint) target ≡ true) where
  move_to-IsSound : IsSound (move_to job target t)
  unfolding move_to
  move_to-IsSound =
      let near = rank-allowed job.checkpoint target a in
      let gate = gate_marked job target marked in
      record {
        consistent = move_to-IsConsistent job target t v.consistent a;
        ip = λ h. elim (Nat-cases 4 (rank target)) [
          | inl past ↦ v.ip (omega arith)
          | inr at_gate ↦ gate.0 (omega arith)
        ];
        deployed = λ h. elim (Nat-cases 6 (rank target)) [
          | inl past ↦ v.deployed (omega arith)
          | inr at_gate ↦ gate.1 (omega arith)
        ];
        switched = λ h. elim (Nat-cases 8 (rank target)) [
          | inl past ↦ v.switched (omega arith)
          | inr at_gate ↦ gate.2 (omega arith)
        ];
        master = λ h. elim (Nat-cases 10 (rank target)) [
          | inl past ↦ v.master (omega arith)
          | inr at_gate ↦ gate.3 (omega arith)
        ];
        final = λ h. elim (Nat-cases 12 (rank target)) [
          | inl past ↦ v.final (omega arith)
          | inr at_gate ↦ gate.4 (omega arith)
        ];
        attempts_bounded = v.attempts_bounded;
        attempts_allowed = v.attempts_allowed;
      }

-- Every accepted transition keeps a job sound, if the marker of its target is set.
pub transition-IsSound :
    (now : ℕ) (job : ReplacementJob) (target : ReplacementCheckpoint) (after : ReplacementJob)
    (changed : Bool)
    → Checkpoints.transition now job target none ≡ ok (after, changed)
    → IsSound job
    → is_marked job target ≡ true
    → IsSound after
transition-IsSound now job target after changed h v marked =
    elim (transition_moves now job target none after changed h) [
      | inl same ↦ rw same.0 v
      | inr (a, (t, e)) ↦ rw e (move_to-IsSound job target t v marked a)
    ]

-- What the stages write into a job beside its checkpoint keeps it sound.
module _ (job : ReplacementJob) (v : IsSound job) where
  pub ip-IsSound : (t : ℕ) → IsSound (record job { new_ip_verified_at = some t })
  ip-IsSound t = ground arith

  pub deployed-IsSound : (t : ℕ) → IsSound (record job { deployment_verified_at = some t })
  deployed-IsSound t = ground arith

  pub switched-IsSound : (t : ℕ) → IsSound (record job { master_updated_at = some t })
  switched-IsSound t = ground arith

  pub master-IsSound : (t : ℕ) → IsSound (record job { master_verified_at = some t })
  master-IsSound t = ground arith

  pub final-IsSound : (t : ℕ) → IsSound (record job { final_health_verified_at = some t })
  final-IsSound t = ground arith

  pub deleted-IsSound : (t : ℕ) → IsSound (record job { old_vps_deleted_at = some t })
  deleted-IsSound t = ground arith

  pub requested-IsSound : (t : ℕ) → IsSound (record job { provisioning_requested_at = some t })
  requested-IsSound t = ground arith

  pub cleared-IsSound :
      IsSound (record job { new_vps_instance_id = none; provisioning_requested_at = none })
  cleared-IsSound = ground arith

  pub next_attempt-IsSound :
      leb job.max_attempts job.attempt_count ≡ false
      → IsSound (record job {
        new_vps_instance_id = none;
        provisioning_requested_at = none;
        attempt_count = job.attempt_count + 1;
      })
  next_attempt-IsSound more = ground arith

  pub server-IsSound : (vps_id : ℕ) → IsSound (record job { new_vps_instance_id = some vps_id })
  server-IsSound vps_id = ground arith

  pub error-IsSound : (e : Error) → IsSound (record job { last_error_code = some e })
  error-IsSound e = ground arith

  pub snapshot-IsSound : (s : Option MasterSnapshot) → IsSound (record job { master_snapshot = s })
  snapshot-IsSound s = ground arith

  pub lease-IsSound :
      (token : Option String) (until : Option ℕ) → IsSound (with_lease job token until)
  lease-IsSound token until = ground arith

  pub counted-IsSound :
      IsSound (if ltb job.attempt_count 1 then record job { attempt_count = 1 } else job)
  counted-IsSound = elim (Bool-cases (ltb job.attempt_count 1)) [
    | inl low ↦ rw low (ground arith)
    | inr enough ↦ rw enough v
  ]

pub ruleset sound_rules = (
  ip-IsSound, deployed-IsSound, switched-IsSound, master-IsSound, final-IsSound, deleted-IsSound,
  requested-IsSound, cleared-IsSound, next_attempt-IsSound, server-IsSound, error-IsSound,
  snapshot-IsSound, lease-IsSound, counted-IsSound,
)
