-- ===== src/Replacement/Stages/Address.antt =====
-- `_stage_checking_ip` and `_verify_candidate_reachability` of
-- app/replacement/orchestrator.py.
pub mod Consensus
use aso_node_recovery.Prelude.{
  Bool, String, false, if◌then◌else◌, leb, nat_eq, not, some, string_eq, suc, true, zero, ℕ, ◌+◌,
  ◌==◌,
}
use aso_node_recovery.Errors.{Error}
use aso_node_recovery.Models.EventEnums.{
  EventSeverity, EventType, event_severity_eq, node_check_outcome_eq, replacement_trigger_mode_eq,
  secret_reference_backend_eq,
}
use aso_node_recovery.Models.JobEnums.{
  ReplacementCheckpoint, replacement_checkpoint_eq, replacement_job_state_eq,
}
use aso_node_recovery.Models.NodeEnums.{
  deployment_state_eq, node_operation_mode_eq, node_state_eq, provider_type_eq, ssh_auth_method_eq,
  vps_instance_role_eq, vps_instance_state_eq,
}
use aso_node_recovery.Outside.{Outside, ReachabilityDecision}
use aso_node_recovery.Replacement.Access.{
  add_event, advance, assert_not_paused, renew_lease, require_host, require_job, require_new_vps,
  required, utc_now,
}
use aso_node_recovery.Replacement.Stages.Ready.{sleep_with_lease}
use aso_node_recovery.Runtime.{Exec, ask, lift, pure, raise, session, when, ◌>>=◌, ◌>>◌}
use aso_node_recovery.Settings.{Settings}

-- The counters of `_verify_candidate_reachability`.
pub record Rounds : Type 0 where
  pub clean : ℕ
  pub filtered : ℕ
  pub external_unavailable : ℕ
  pub indeterminate : ℕ

abbrev pub no_rounds : Rounds
no_rounds = record { clean = 0; filtered = 0; external_unavailable = 0; indeterminate = 0 }

-- One round: what Check-Host says from outside Iran, and, where the host answers there, from Iran.
abbrev pub count_iran : Rounds → ReachabilityDecision → Rounds
count_iran r ReachabilityDecision.reachable = record r { clean = r.clean + 1 }
count_iran r ReachabilityDecision.unreachable = record r { filtered = r.filtered + 1 }
count_iran r ReachabilityDecision.indeterminate = record r { indeterminate = r.indeterminate + 1 }

-- The decision after all rounds.
unfoldable pub consensus : ℕ → Rounds → ReachabilityDecision
consensus required r =
    if leb required r.clean
    then ReachabilityDecision.reachable
    else if leb required r.filtered
    then ReachabilityDecision.unreachable
    else ReachabilityDecision.indeterminate

module _ (out : Outside) (settings : Settings) where
  abbrev pub count_round : String → Rounds → ReachabilityDecision → Exec Rounds
  count_round host r ReachabilityDecision.reachable = do
    iran ← ask λ n. out.verify n host
    pure (count_iran r iran)
  count_round host r ReachabilityDecision.unreachable =
      pure (record r { external_unavailable = r.external_unavailable + 1 })
  count_round host r ReachabilityDecision.indeterminate =
      pure (record r { indeterminate = r.indeterminate + 1 })

  -- One round with the renewal of the lease after it.
  unfoldable pub run_round : ℕ → String → String → Rounds → Exec Rounds
  run_round job_id lease_token host r = do
    assert_not_paused out
    external ← ask λ n. out.verify_external n host
    counted ← count_round host r external
    session (renew_lease out settings job_id lease_token)
    pure counted

  -- The loop over the rounds that are left; after all but the last the code waits.
  unfoldable pub run_rounds : ℕ → ℕ → String → String → Rounds → Exec Rounds
  run_rounds zero job_id lease_token host r = pure r
  run_rounds (suc left) job_id lease_token host r = do
    counted ← run_round job_id lease_token host r
    when (not (left == 0)) (
        sleep_with_lease out settings job_id lease_token
          settings.replacement_reachability_round_interval_thirds)
    run_rounds left job_id lease_token host counted

  -- `_verify_candidate_reachability`
  unfoldable pub verify_candidate_reachability : ℕ → String → String → Exec ReachabilityDecision
  verify_candidate_reachability job_id lease_token host = do
    r ← run_rounds settings.replacement_reachability_rounds job_id lease_token host no_rounds
    pure (consensus settings.replacement_reachability_required_consensus r)

  abbrev pub decide_address : ℕ → String → Bool → String → Exec ReachabilityDecision
  decide_address job_id lease_token true host = pure ReachabilityDecision.reachable
  decide_address job_id lease_token false host =
      verify_candidate_reachability job_id lease_token host

  -- The last session of `_stage_checking_ip`.
  unfoldable pub record_decision : ℕ → ReachabilityDecision → Exec (Unit {0})
  record_decision job_id ReachabilityDecision.indeterminate = raise Error.replacement_deferred_error
  record_decision job_id ReachabilityDecision.unreachable = session (do
    job ← require_job job_id
    add_event out job EventType.ip_check_failed EventSeverity.warning
        "Replacement IP failed Iran reachability quorum"
    advance out job ReplacementCheckpoint.temp_cleanup)
  record_decision job_id ReachabilityDecision.reachable = session (do
    job ← require_job job_id
    verified ← utc_now out
    add_event out job EventType.ip_check_passed EventSeverity.info
        "Replacement IP passed Iran reachability quorum"
    advance out (record job { new_ip_verified_at = some verified })
        ReplacementCheckpoint.ip_verified)

  -- The first session of `_stage_checking_ip`: whether the job is a dry run, and the host to check.
  unfoldable pub host_to_check : ℕ → String → Exec (Bool × String)
  host_to_check job_id lease_token = session (do
    job ← require_job job_id
    new_vps ← require_new_vps job
    host ← lift (require_host new_vps)
    renew_lease out settings job_id lease_token
    pure (job.is_dry_run, host))

  -- `_stage_checking_ip`
  unfoldable pub stage_checking_ip : ℕ → String → Exec (Unit {0})
  stage_checking_ip job_id lease_token = do
    checked ← host_to_check job_id lease_token
    decision ← decide_address job_id lease_token checked.0 checked.1
    record_decision job_id decision
