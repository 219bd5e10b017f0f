-- ===== src/Replacement/Sound/Deploy.antt =====
-- The deployment of the new server keeps every job sound.
use aso_node_recovery.Prelude.{Option, String, none, some, ℕ}
use aso_node_recovery.Deployment.Service.{Attempt, new_attempt}
use aso_node_recovery.Deployment.Service.Lawful.{FlowPreserves-deploy}
use aso_node_recovery.Errors.{Error, Result, err, ok}
use aso_node_recovery.Models.NodeEnums.{NodeState}
use aso_node_recovery.Models.Rows.{Deployment, Node, ReplacementJob, VpsInstance}
use aso_node_recovery.Outside.{Outside, ThreeXUiConfig}
use aso_node_recovery.Replacement.Sound.{AllSound}
use aso_node_recovery.Replacement.Sound.Actions.{reads, stage_rules}
use aso_node_recovery.Replacement.Stages.Deploy.{
  Ground, deploying_ground, ensure_deployment, follow_node, persist_transition, record_failure,
  record_outcome, record_success, run_deploy, secret, stage_deploying, stage_ip_verified,
}
use aso_node_recovery.Runtime.Preserves.{Preserves}
use aso_node_recovery.Settings.{Settings}

module _ (out : Outside) (settings : Settings) where
  Preserves-ensure_deployment :
      (job : ReplacementJob) (vps : VpsInstance) (found : Option Deployment)
      → Preserves AllSound (ensure_deployment out settings job vps found)
  Preserves-ensure_deployment job vps none = search stage_rules depth 10
  Preserves-ensure_deployment job vps (some d) = search reads

  pub Preserves-follow_node :
      (job : ReplacementJob) (node : Node) (from target : NodeState)
      → Preserves AllSound (follow_node out settings job node from target)
  Preserves-follow_node job node from target = search stage_rules depth 10

  pub Preserves-stage_ip_verified :
      (id : ℕ) → Preserves AllSound (stage_ip_verified out settings id)
  unfolding stage_ip_verified
  Preserves-stage_ip_verified id =
      search (stage_rules, Preserves-ensure_deployment, Preserves-follow_node) depth 30

  Preserves-deploying_ground :
      (id : ℕ) (token : String) → Preserves AllSound (deploying_ground out settings id token)
  unfolding deploying_ground
  Preserves-deploying_ground id token = search stage_rules depth 30

  Preserves-persist_transition :
      (id : ℕ) (token : String) (d : Deployment)
      → Preserves AllSound (persist_transition out settings id token d)
  unfolding persist_transition
  Preserves-persist_transition id token d = search stage_rules depth 10

  Preserves-record_failure :
      (id : ℕ) (d : Deployment) (e : Error)
      → Preserves AllSound (record_failure out settings id d e)
  unfolding record_failure
  Preserves-record_failure id d e = search stage_rules depth 20

  Preserves-secret :
      (id : ℕ) (name value : String) → Preserves AllSound (secret out settings id name value)
  Preserves-secret id name value = search reads

  Preserves-record_success :
      (id : ℕ) (d : Deployment) (config : ThreeXUiConfig)
      → Preserves AllSound (record_success out settings id d config)
  unfolding record_success
  Preserves-record_success id d config =
      search (stage_rules, Preserves-secret, Preserves-follow_node) depth 30

  Preserves-record_outcome :
      (id : ℕ) (outcome : Result ThreeXUiConfig × Attempt)
      → Preserves AllSound (record_outcome out settings id outcome)
  Preserves-record_outcome id (ok config, attempt) = Preserves-record_success id attempt.row config
  Preserves-record_outcome id (err e, attempt) = Preserves-record_failure id attempt.row e

  Preserves-run_deploy :
      (id : ℕ) (token : String) (g : Ground out settings)
      → Preserves AllSound (run_deploy out settings id token g)
  Preserves-run_deploy id token g = record {
    leads = λ w i.
        (FlowPreserves-deploy out settings (persist_transition out settings id token) AllSound
            (Preserves-persist_transition id token) g.host (out.dry_run_url g.host) g.dry_run).leads
          (new_attempt g.deployment) w i;
  }

  pub Preserves-stage_deploying :
      (id : ℕ) (token : String) → Preserves AllSound (stage_deploying out settings id token)
  unfolding stage_deploying
  Preserves-stage_deploying id token =
      search (reads, Preserves-deploying_ground, Preserves-run_deploy, Preserves-record_outcome)
