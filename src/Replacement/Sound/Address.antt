-- ===== src/Replacement/Sound/Address.antt =====
-- The check of the new address and the clean-up of a failed attempt keep every job sound.
use aso_node_recovery.Prelude.{
  Bool, Option, String, false, leb, none, refl, some, suc, true, zero, ℕ, ◌≡◌,
}
use aso_node_recovery.Models.Rows.{ReplacementJob, VpsInstance}
use aso_node_recovery.Outside.{Outside, ProviderServer, ReachabilityDecision}
use aso_node_recovery.Replacement.Sound.{AllSound, IsSound}
use aso_node_recovery.Replacement.Sound.Actions.{
  Preserves-advance, Preserves-require_job, Preserves-save_job, reads, stage_rules,
}
use aso_node_recovery.Replacement.Sound.Early.{Preserves-sleep_with_lease}
use aso_node_recovery.Replacement.Sound.Moves.{cleared-IsSound, next_attempt-IsSound}
use aso_node_recovery.Replacement.Stages.Address.{
  Rounds, count_round, decide_address, host_to_check, record_decision, run_round, run_rounds,
  stage_checking_ip, verify_candidate_reachability,
}
use aso_node_recovery.Replacement.Stages.Cleanup.{
  Leftover, clean_leftover, delete_leftover, end_attempt, expected_name, find_leftover, leftover_of,
  mark_deleted, stage_temp_cleanup, start_next_attempt,
}
use aso_node_recovery.Runtime.Preserves.{
  Preserves, Preserves-bind, Preserves-gets, Preserves-pure, Preserves-session,
}
use aso_node_recovery.Settings.{Settings}

module _ (out : Outside) (settings : Settings) where
  Preserves-count_round :
      (host : String) (r : Rounds) (external : ReachabilityDecision)
      → Preserves AllSound (count_round out settings host r external)
  Preserves-count_round host r ReachabilityDecision.reachable = search reads
  Preserves-count_round host r ReachabilityDecision.unreachable = search reads
  Preserves-count_round host r ReachabilityDecision.indeterminate = search reads

  Preserves-run_round :
      (id : ℕ) (token host : String) (r : Rounds)
      → Preserves AllSound (run_round out settings id token host r)
  unfolding run_round
  Preserves-run_round id token host r = search (stage_rules, Preserves-count_round) depth 20

  Preserves-run_rounds :
      (left id : ℕ) (token host : String) (r : Rounds)
      → Preserves AllSound (run_rounds out settings left id token host r)
  unfolding run_rounds
  Preserves-run_rounds zero id token host r = Preserves-pure r
  Preserves-run_rounds (suc left) id token host r =
      let rest = Preserves-run_rounds left id token host in
      search (reads, Preserves-run_round, Preserves-sleep_with_lease, rest) depth 20

  Preserves-verify_candidate_reachability :
      (id : ℕ) (token host : String)
      → Preserves AllSound (verify_candidate_reachability out settings id token host)
  unfolding verify_candidate_reachability
  Preserves-verify_candidate_reachability id token host = search (reads, Preserves-run_rounds)

  Preserves-decide_address :
      (id : ℕ) (token : String) (dry : Bool) (host : String)
      → Preserves AllSound (decide_address out settings id token dry host)
  Preserves-decide_address id token true host = search reads
  Preserves-decide_address id token false host =
      Preserves-verify_candidate_reachability id token host

  Preserves-record_decision :
      (id : ℕ) (decision : ReachabilityDecision)
      → Preserves AllSound (record_decision out settings id decision)
  unfolding record_decision
  Preserves-record_decision id ReachabilityDecision.reachable = search stage_rules depth 20
  Preserves-record_decision id ReachabilityDecision.unreachable = search stage_rules depth 20
  Preserves-record_decision id ReachabilityDecision.indeterminate = search reads

  pub Preserves-host_to_check :
      (id : ℕ) (token : String) → Preserves AllSound (host_to_check out settings id token)
  unfolding host_to_check
  Preserves-host_to_check id token = search stage_rules depth 20

  pub Preserves-stage_checking_ip :
      (id : ℕ) (token : String) → Preserves AllSound (stage_checking_ip out settings id token)
  unfolding stage_checking_ip
  Preserves-stage_checking_ip id token =
      search (reads, Preserves-host_to_check, Preserves-decide_address, Preserves-record_decision)

  Preserves-leftover_of :
      (job : ReplacementJob) (vps : Option VpsInstance)
      → Preserves AllSound (leftover_of out settings job vps)
  Preserves-leftover_of job none = search reads
  Preserves-leftover_of job (some vps) = search stage_rules

  Preserves-find_leftover :
      (id : ℕ) (token : String) → Preserves AllSound (find_leftover out settings id token)
  unfolding find_leftover
  Preserves-find_leftover id token = search (stage_rules, Preserves-leftover_of) depth 20

  Preserves-delete_leftover :
      (leftover : Leftover out settings) (name : String) (server : Option ProviderServer)
      → Preserves AllSound (delete_leftover out settings leftover name server)
  Preserves-delete_leftover leftover name none = search reads
  Preserves-delete_leftover leftover name (some server) = search reads

  Preserves-expected_name : (id : ℕ) → Preserves AllSound (expected_name out settings id)
  unfolding expected_name
  Preserves-expected_name id = search stage_rules depth 20

  Preserves-clean_leftover :
      (id : ℕ) (leftover : Option (Leftover out settings))
      → Preserves AllSound (clean_leftover out settings id leftover)
  Preserves-clean_leftover id none = search reads
  Preserves-clean_leftover id (some leftover) =
      search (reads, Preserves-expected_name, Preserves-delete_leftover)

  Preserves-mark_deleted :
      (vps : Option VpsInstance) → Preserves AllSound (mark_deleted out settings vps)
  Preserves-mark_deleted none = search reads
  Preserves-mark_deleted (some vps) = search stage_rules

  -- An attempt is only counted where the bound leaves one.
  next_attempt :
      (job : ReplacementJob) (more : Bool)
      → leb job.max_attempts job.attempt_count ≡ more
      → IsSound job
      → Preserves AllSound (start_next_attempt out settings job more)
  next_attempt job true e v = Preserves-save_job _ (cleared-IsSound job v)
  next_attempt job false e v = Preserves-advance out _ _ (next_attempt-IsSound job v e) refl

  Preserves-end_attempt : (id : ℕ) → Preserves AllSound (end_attempt out settings id)
  unfolding end_attempt
  Preserves-end_attempt id = Preserves-session _ (
      Preserves-require_job id _ λ job v. Preserves-bind _ _ (Preserves-gets _) λ vps.
        Preserves-bind _ _ (Preserves-mark_deleted vps)
          λ marked. Preserves-bind _ _ (next_attempt job _ refl v) λ moved. Preserves-pure _)

  pub Preserves-stage_temp_cleanup :
      (id : ℕ) (token : String) → Preserves AllSound (stage_temp_cleanup out settings id token)
  unfolding stage_temp_cleanup
  Preserves-stage_temp_cleanup id token =
      search (reads, Preserves-find_leftover, Preserves-clean_leftover, Preserves-end_attempt)
