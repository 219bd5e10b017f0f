-- ===== src/Replacement/Sound/Master.antt =====
-- The switch of the master and its rollback keep every job sound.
use aso_node_recovery.Prelude.{Option, String, none, refl, some, true, ℕ, ◌≡◌}
use aso_node_recovery.Errors.{Error}
use aso_node_recovery.Models.EventEnums.{EventType}
use aso_node_recovery.Models.JobEnums.{ReplacementCheckpoint}
use aso_node_recovery.Models.Rows.{
  Deployment, MasterSnapshot, NodeCredential, ReplacementJob, VpsInstance,
}
use aso_node_recovery.Outside.{MasterNode, MasterNodeMutation, Outside}
use aso_node_recovery.Replacement.Access.{advance, require_master_snapshot}
use aso_node_recovery.Replacement.Mutation.{
  prepare_pin_if_needed, resolve_deployment_api_token, target_mutation,
}
use aso_node_recovery.Replacement.Sound.{AllSound, IsSound}
use aso_node_recovery.Replacement.Sound.Actions.{
  Preserves-advance, Preserves-require_job, reads, stage_rules,
}
use aso_node_recovery.Replacement.Sound.Moves.{is_marked, master-IsSound, switched-IsSound}
use aso_node_recovery.Replacement.Stages.Master.{
  Target, build_new_master_mutation, follow_target, mark_updated, mark_verified, master_target,
  node_verified_target, old_token, on_verify_error, preflight, record_master, restore_master,
  rollback_master, rollback_target, stage_master_updating, stage_master_verifying, stage_next,
  stage_node_verified, verify_master, write_master,
}
use aso_node_recovery.Runtime.Preserves.{Preserves, Preserves-session}
use aso_node_recovery.Settings.{Settings}

module _ (out : Outside) where
  Preserves-prepare_pin_if_needed :
      (mutation : MasterNodeMutation) → Preserves AllSound (prepare_pin_if_needed out mutation)
  unfolding prepare_pin_if_needed
  Preserves-prepare_pin_if_needed mutation = search reads

  Preserves-resolve_deployment_api_token :
      (d : Deployment) → Preserves AllSound (resolve_deployment_api_token out d)
  unfolding resolve_deployment_api_token
  Preserves-resolve_deployment_api_token d = search reads

  Preserves-target_mutation :
      (snapshot : MasterSnapshot) (d : Deployment) (vps : VpsInstance)
      → Preserves AllSound (target_mutation out snapshot d vps)
  unfolding target_mutation
  Preserves-target_mutation snapshot d vps =
      search (reads, Preserves-resolve_deployment_api_token) depth 20

-- The two stages that set a marker: it is there at their next checkpoint.
abbrev IsMarking : (ReplacementJob → ℕ → ReplacementJob) → ReplacementCheckpoint → Type 0
IsMarking mark next =
    (job : ReplacementJob) (now : ℕ)
    → IsSound job
    → IsSound (mark job now) × (is_marked (mark job now) next ≡ true)

module _ (out : Outside) (settings : Settings) where
  Preserves-node_verified_target :
      (id : ℕ) (token : String) → Preserves AllSound (node_verified_target out settings id token)
  unfolding node_verified_target
  Preserves-node_verified_target id token = search stage_rules depth 40

  Preserves-build_new_master_mutation :
      (existing : MasterNode) (vps : VpsInstance) (d : Deployment)
      → Preserves AllSound (build_new_master_mutation out settings existing vps d)
  unfolding build_new_master_mutation
  Preserves-build_new_master_mutation existing vps d =
      search (reads, Preserves-resolve_deployment_api_token) depth 20

  Preserves-preflight :
      (id : ℕ) (target : Target out settings)
      → Preserves AllSound (preflight out settings id target)
  unfolding preflight
  Preserves-preflight id target =
      search (stage_rules, Preserves-build_new_master_mutation, Preserves-prepare_pin_if_needed)
        depth 40

  Preserves-follow_target :
      (id : ℕ) (target : Option (Target out settings))
      → Preserves AllSound (follow_target out settings id target)
  Preserves-follow_target id none = search reads
  Preserves-follow_target id (some target) = Preserves-preflight id target

  pub Preserves-stage_node_verified :
      (id : ℕ) (token : String) → Preserves AllSound (stage_node_verified out settings id token)
  unfolding stage_node_verified
  Preserves-stage_node_verified id token =
      search (reads, Preserves-node_verified_target, Preserves-follow_target)

  module _ (mark : ReplacementJob → ℕ → ReplacementJob) (next : ReplacementCheckpoint)
      (m : IsMarking mark next) where
    Preserves-mark_and_advance :
        (job : ReplacementJob) (now : ℕ)
        → IsSound job
        → Preserves AllSound (advance out (mark job now) next)
    Preserves-mark_and_advance job now v =
        Preserves-advance out (mark job now) next (m job now v).0 (m job now v).1

    Preserves-require_master_snapshot :
        (job : ReplacementJob) → Preserves AllSound (require_master_snapshot job)
    Preserves-require_master_snapshot job = search reads

    Preserves-master_target :
        (id : ℕ) (token : String)
        → Preserves AllSound (master_target out settings mark next id token)
    unfolding master_target
    Preserves-master_target id token =
        search (stage_rules, Preserves-mark_and_advance, Preserves-target_mutation) depth 40

    Preserves-record_master :
        (event_type : EventType) (message : String) (id : ℕ)
        → Preserves AllSound (record_master out settings mark event_type message next id)
    unfolding record_master
    Preserves-record_master event_type message id =
        search (stage_rules, Preserves-mark_and_advance) depth 30

  updating : IsMarking (mark_updated out settings) ReplacementCheckpoint.master_updated
  updating job now v = (switched-IsSound job v now, refl)

  verifying : IsMarking (mark_verified out settings) ReplacementCheckpoint.master_verified
  verifying job now v = (master-IsSound job v now, refl)

  Preserves-write_master :
      (id : ℕ) (target : Option (ℕ × MasterNodeMutation))
      → Preserves AllSound (write_master out settings id target)
  Preserves-write_master id none = search reads
  Preserves-write_master id (some (master_id, mutation)) =
      search (reads, Preserves-prepare_pin_if_needed, Preserves-record_master, updating) depth 20

  pub Preserves-stage_master_updating :
      (id : ℕ) (token : String) → Preserves AllSound (stage_master_updating out settings id token)
  unfolding stage_master_updating
  Preserves-stage_master_updating id token =
      search (reads, Preserves-master_target, updating, Preserves-write_master)

  Preserves-old_token :
      (snapshot : MasterSnapshot) (credential : NodeCredential)
      → Preserves AllSound (old_token out settings snapshot credential)
  Preserves-old_token snapshot credential = search reads

  Preserves-rollback_target : (id : ℕ) → Preserves AllSound (rollback_target out settings id)
  unfolding rollback_target
  Preserves-rollback_target id = search (stage_rules, Preserves-old_token) depth 30

  Preserves-restore_master :
      (target : Option (ℕ × MasterNodeMutation))
      → Preserves AllSound (restore_master out settings target)
  Preserves-restore_master none = search reads
  Preserves-restore_master (some (master_id, mutation)) = search reads depth 10

  pub Preserves-rollback_master : (id : ℕ) → Preserves AllSound (rollback_master out settings id)
  unfolding rollback_master
  Preserves-rollback_master id = search (reads, Preserves-rollback_target, Preserves-restore_master)

  Preserves-on_verify_error :
      (id : ℕ) (e : Error) → Preserves AllSound (on_verify_error out settings id e)
  Preserves-on_verify_error id Error.master_node_verification_error =
      search (reads, Preserves-rollback_master)
  Preserves-on_verify_error id _ = search reads

  Preserves-verify_master :
      (id : ℕ) (target : Option (ℕ × MasterNodeMutation))
      → Preserves AllSound (verify_master out settings id target)
  Preserves-verify_master id none = search reads
  Preserves-verify_master id (some (master_id, mutation)) =
      search
        (
          reads, Preserves-prepare_pin_if_needed, Preserves-on_verify_error,
          Preserves-record_master, verifying,
        )
        depth 20

  pub Preserves-stage_master_verifying :
      (id : ℕ) (token : String) → Preserves AllSound (stage_master_verifying out settings id token)
  unfolding stage_master_verifying
  Preserves-stage_master_verifying id token =
      search (reads, Preserves-master_target, verifying, Preserves-verify_master)

  pub Preserves-stage_next :
      (next : ReplacementCheckpoint) (id : ℕ)
      → ((job : ReplacementJob) → is_marked job next ≡ true)
      → Preserves AllSound (stage_next out settings next id)
  unfolding stage_next
  Preserves-stage_next next id free =
      Preserves-session _
        (Preserves-require_job id _ λ job v. Preserves-advance out job next v (free job))
