-- ===== src/Replacement/Checkpoints/Examples.antt =====
-- The theorems on checkpoints at concrete jobs.
use aso_node_recovery.Replacement.Checkpoints
use aso_node_recovery.Prelude.{
  List, [], arith, contains, nat_eq, none, refl, some, string_eq, true, ◌∷◌, ◌≡◌,
}
use aso_node_recovery.Errors.{Error, err}
use aso_node_recovery.Models.EventEnums.{
  event_severity_eq, node_check_outcome_eq, replacement_trigger_mode_eq,
  secret_reference_backend_eq,
}
use aso_node_recovery.Models.JobEnums.{
  ReplacementCheckpoint, ReplacementJobState, replacement_checkpoint_eq, replacement_job_state_eq,
}
use aso_node_recovery.Models.NodeEnums.{
  deployment_state_eq, node_operation_mode_eq, node_state_eq, provider_type_eq, ssh_auth_method_eq,
  vps_instance_role_eq, vps_instance_state_eq,
}
use aso_node_recovery.Models.Rows.{ReplacementJob}
use aso_node_recovery.Moments.{aware}
use aso_node_recovery.Replacement.Checkpoints.{allowed, move_to}
use aso_node_recovery.Replacement.Checkpoints.Consistent.{
  IsConsistent, transition-IsConsistent, transition_terminal,
}
use aso_node_recovery.Replacement.Checkpoints.Gates.{no_gate_skipped, run_checkpoints}
use aso_node_recovery.Replacement.Samples.{sample_job}

abbrev started : ReplacementJob
started = sample_job ReplacementCheckpoint.created

abbrev provisioning_at_3 : ReplacementJob
provisioning_at_3 = record started {
  checkpoint = ReplacementCheckpoint.provisioning;
  state = ReplacementJobState.provisioning;
  started_at = some 3;
}

transition-IsConsistent_example : IsConsistent provisioning_at_3
unfolding Checkpoints.transition move_to allowed
transition-IsConsistent_example =
    transition-IsConsistent 9 started ReplacementCheckpoint.provisioning (some (aware 3))
      provisioning_at_3 true refl
      (record {
        state_matches = refl;
        slot_matches = refl;
        completed_matches = refl;
        started_matches = refl;
      })

abbrev finished : ReplacementJob
finished = sample_job ReplacementCheckpoint.cancelled

transition_terminal_example :
    Checkpoints.transition 9 finished ReplacementCheckpoint.created none
    ≡ err Error.invalid_replacement_transition_error
transition_terminal_example = transition_terminal 9 finished ReplacementCheckpoint.created none refl

-- One attempt that fails its IP check, and one that succeeds.
abbrev whole_run : List ReplacementCheckpoint
whole_run =
    ReplacementCheckpoint.provisioning ∷ ReplacementCheckpoint.provisioned
    ∷ ReplacementCheckpoint.checking_ip ∷ ReplacementCheckpoint.temp_cleanup
    ∷ ReplacementCheckpoint.provisioning ∷ ReplacementCheckpoint.provisioned
    ∷ ReplacementCheckpoint.checking_ip ∷ ReplacementCheckpoint.ip_verified
    ∷ ReplacementCheckpoint.deploying ∷ ReplacementCheckpoint.node_verified
    ∷ ReplacementCheckpoint.master_updating ∷ ReplacementCheckpoint.master_updated
    ∷ ReplacementCheckpoint.master_verifying ∷ ReplacementCheckpoint.master_verified
    ∷ ReplacementCheckpoint.final_check ∷ ReplacementCheckpoint.final_verified
    ∷ ReplacementCheckpoint.old_vps_cleanup ∷ []

abbrev at_cleanup : ReplacementJob
at_cleanup = record (sample_job ReplacementCheckpoint.old_vps_cleanup) { started_at = some 9 }

no_gate_skipped_example :
    (contains whole_run ReplacementCheckpoint.ip_verified ≡ true)
    × (contains whole_run ReplacementCheckpoint.node_verified ≡ true)
    × (contains whole_run ReplacementCheckpoint.master_updated ≡ true)
    × (contains whole_run ReplacementCheckpoint.master_verified ≡ true)
    × (contains whole_run ReplacementCheckpoint.final_verified ≡ true)
unfolding run_checkpoints Checkpoints.transition move_to allowed
no_gate_skipped_example =
    no_gate_skipped 9 started whole_run at_cleanup refl (omega arith) (omega arith)
