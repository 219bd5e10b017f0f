-- ===== src/Replacement/Sound/Finish.antt =====
-- The last check and the end of a replacement keep every job sound.
use aso_node_recovery.Prelude.{Bool, Option, String, false, none, some, true, ℕ}
use aso_node_recovery.Models.Rows.{Deployment, ReplacementJob, VpsInstance}
use aso_node_recovery.Outside.{Outside, ProviderServer, ReachabilityDecision}
use aso_node_recovery.Replacement.Sound.{AllSound}
use aso_node_recovery.Replacement.Sound.Actions.{reads, stage_rules}
use aso_node_recovery.Replacement.Sound.Address.{Preserves-host_to_check}
use aso_node_recovery.Replacement.Sound.Master.{Preserves-rollback_master}
use aso_node_recovery.Replacement.Stages.Finish.{
  Doomed, assert_not_emergency_stopped, choose_doomed, delete_old, doomed_new, doomed_old,
  final_decision, finish_dry_run, finish_live, record_final, stage_final_check,
  stage_old_vps_cleanup, switch_registry,
}
use aso_node_recovery.Runtime.Preserves.{Preserves}
use aso_node_recovery.Settings.{Settings}

module _ (out : Outside) (settings : Settings) where
  Preserves-final_decision :
      (dry : Bool) (host : String) → Preserves AllSound (final_decision out settings dry host)
  Preserves-final_decision true host = search reads
  Preserves-final_decision false host = search reads

  Preserves-record_final :
      (id : ℕ) (decision : ReachabilityDecision)
      → Preserves AllSound (record_final out settings id decision)
  unfolding record_final
  Preserves-record_final id ReachabilityDecision.reachable = search stage_rules depth 20
  Preserves-record_final id ReachabilityDecision.unreachable =
      search (reads, Preserves-rollback_master)
  Preserves-record_final id ReachabilityDecision.indeterminate = search reads

  pub Preserves-stage_final_check :
      (id : ℕ) (token : String) → Preserves AllSound (stage_final_check out settings id token)
  unfolding stage_final_check
  Preserves-stage_final_check id token =
      search (reads, Preserves-host_to_check, Preserves-final_decision, Preserves-record_final)

  pub Preserves-assert_not_emergency_stopped :
      (dry : Bool) → Preserves AllSound (assert_not_emergency_stopped out settings dry)
  Preserves-assert_not_emergency_stopped dry = search reads

  Preserves-doomed_new :
      (job : ReplacementJob) (vps : VpsInstance) (id : ℕ) (token : String)
      → Preserves AllSound (doomed_new out settings job vps id token)
  Preserves-doomed_new job vps id token = search stage_rules depth 20

  Preserves-doomed_old :
      (job : ReplacementJob) (d : Deployment) (vps : VpsInstance) (id : ℕ) (token : String)
      → Preserves AllSound (doomed_old out settings job d vps id token)
  Preserves-doomed_old job d vps id token = search stage_rules depth 30

  Preserves-choose_doomed :
      (id : ℕ) (token : String) → Preserves AllSound (choose_doomed out settings id token)
  unfolding choose_doomed
  Preserves-choose_doomed id token =
      search
        (
          stage_rules, Preserves-assert_not_emergency_stopped, Preserves-doomed_new,
          Preserves-doomed_old,
        )
        depth 30

  Preserves-finish_dry_run :
      (id : ℕ) (doomed : Doomed out settings)
      → Preserves AllSound (finish_dry_run out settings id doomed)
  unfolding finish_dry_run
  Preserves-finish_dry_run id doomed = search stage_rules depth 30

  Preserves-delete_old :
      (doomed : Doomed out settings) (server : Option ProviderServer)
      → Preserves AllSound (delete_old out settings doomed server)
  Preserves-delete_old doomed none = search reads
  Preserves-delete_old doomed (some server) = search reads depth 20

  Preserves-switch_registry : (id : ℕ) → Preserves AllSound (switch_registry out settings id)
  unfolding switch_registry
  Preserves-switch_registry id = search stage_rules depth 60

  Preserves-finish_live :
      (id : ℕ) (doomed : Doomed out settings)
      → Preserves AllSound (finish_live out settings id doomed)
  unfolding finish_live
  Preserves-finish_live id doomed = search (reads, Preserves-delete_old, Preserves-switch_registry)

  pub Preserves-stage_old_vps_cleanup :
      (id : ℕ) (token : String) → Preserves AllSound (stage_old_vps_cleanup out settings id token)
  unfolding stage_old_vps_cleanup
  Preserves-stage_old_vps_cleanup id token =
      search (reads, Preserves-choose_doomed, Preserves-finish_dry_run, Preserves-finish_live)
