-- ===== src/Replacement/Stages/Deploy.antt =====
-- `_stage_ip_verified` and `_stage_deploying` of app/replacement/orchestrator.py.
use aso_node_recovery.Prelude.{
  Bool, Option, String, is_none, nat_eq, none, not, some, string_eq, ℕ, ◌&&◌, ◌==◌,
}
use aso_node_recovery.Deployment.Service.{Attempt, deploy, new_attempt}
use aso_node_recovery.Errors.{Error, Result, err, ok}
use aso_node_recovery.Models.EventEnums.{
  EventSeverity, EventType, event_severity_eq, node_check_outcome_eq, replacement_trigger_mode_eq,
  secret_reference_backend_eq,
}
use aso_node_recovery.Models.JobEnums.{
  ReplacementCheckpoint, replacement_checkpoint_eq, replacement_job_state_eq,
}
use aso_node_recovery.Models.NodeEnums.{
  DeploymentState, NodeState, deployment_state_eq, node_operation_mode_eq, node_state_eq,
  provider_type_eq, ssh_auth_method_eq, vps_instance_role_eq, vps_instance_state_eq,
}
use aso_node_recovery.Models.Rows.{Deployment, Node, ReplacementJob, VpsInstance}
use aso_node_recovery.Monitoring.Health.{outcome}
use aso_node_recovery.Outside.{Outside, ThreeXUiConfig}
use aso_node_recovery.Replacement.Access.{
  add_event, advance, get_for_attempt, move_node, renew_lease, require_credential,
  require_deployment, require_host, require_job, require_new_vps, require_node, utc_now,
}
use aso_node_recovery.Runtime.{
  Effect, Exec, ask, call, gets, lift, pure, raise, save_deployment, session, when, ◌>>=◌, ◌>>◌,
}
use aso_node_recovery.Settings.{Settings}

module _ (out : Outside) (settings : Settings) where
  abbrev pub new_deployment : ℕ → ReplacementJob → VpsInstance → Deployment
  new_deployment deployment_id job new_vps = record {
    id = deployment_id;
    replacement_job_id = job.id;
    vps_instance_id = new_vps.id;
    attempt_number = job.attempt_count;
    state = DeploymentState.pending;
    started_at = none;
    completed_at = none;
    error_code = none;
    panel_username = none;
    panel_port = none;
    web_base_path = none;
    access_url = none;
    api_token_ref = none;
    panel_password_ref = none;
    db_type = none;
  }

  abbrev pub ensure_deployment : ReplacementJob → VpsInstance → Option Deployment → Exec (Unit {0})
  ensure_deployment job new_vps none = do
    deployment_id ← ask (λ n. ok (out.new_id n))
    save_deployment (new_deployment deployment_id job new_vps)
  ensure_deployment job new_vps (some deployment) = pure tt

  -- `if not job.is_dry_run and node.state is from: transition(node, target)`
  abbrev pub follow_node : ReplacementJob → Node → NodeState → NodeState → Exec (Unit {0})
  follow_node job node from target =
      when (not job.is_dry_run && node.state == from) (move_node out node target)

  -- `_stage_ip_verified`
  unfoldable pub stage_ip_verified : ℕ → Exec (Unit {0})
  stage_ip_verified job_id = session (do
    job ← require_job job_id
    new_vps ← require_new_vps job
    found ← gets (get_for_attempt job)
    ensure_deployment job new_vps found
    node ← require_node job.node_id
    follow_node job node NodeState.replacing NodeState.deploying
    when (is_none found) (
        add_event out job EventType.deployment_started EventSeverity.info
          "3X-UI deployment started")
    advance out job ReplacementCheckpoint.deploying)

  -- What the first part of `_stage_deploying` hands on.
  pub record Ground : Type 0 where
    pub host : String
    pub deployment : Deployment
    pub dry_run : Bool

  unfoldable pub deploying_ground : ℕ → String → Exec Ground
  deploying_ground job_id lease_token = session (do
    job ← require_job job_id
    node ← require_node job.node_id
    credential ← require_credential node.id
    new_vps ← require_new_vps job
    deployment ← require_deployment job
    host ← lift (require_host new_vps)
    ask (λ n. out.create_ssh n credential.node_id host)
    renew_lease out settings job_id lease_token
    pure (record { host = host; deployment = deployment; dry_run = job.is_dry_run }))

  -- `persist_transition`: the row and the renewed lease are committed.
  unfoldable pub persist_transition : ℕ → String → Deployment → Exec (Unit {0})
  persist_transition job_id lease_token deployment =
      session (do save_deployment deployment; renew_lease out settings job_id lease_token)

  -- A failed `deploy`: the row as it was left and an event are committed, and the error goes on.
  unfoldable pub record_failure : ℕ → Deployment → Error → Exec (Unit {0})
  record_failure job_id deployment e = do
    session (do
      save_deployment deployment
      job ← require_job job_id
      add_event out job EventType.deployment_failed EventSeverity.error "3X-UI deployment failed")
    raise e

  abbrev pub secret : ℕ → String → String → Exec String
  secret job_id name value = do
    call (Effect.write_secret name value)
    ask (λ n. out.write_secret n name value)

  abbrev pub with_config : Deployment → ThreeXUiConfig → String → String → Deployment
  with_config deployment config token_ref password_ref = record deployment {
    api_token_ref = some token_ref;
    panel_password_ref = some password_ref;
    panel_username = some config.username;
    panel_port = some config.panel_port;
    web_base_path = some config.web_base_path;
    access_url = some config.access_url;
    db_type = some config.db_type;
  }

  -- The rest of `_stage_deploying` after a successful `deploy`.
  unfoldable pub record_success : ℕ → Deployment → ThreeXUiConfig → Exec (Unit {0})
  record_success job_id deployment config = session (do
    token_ref ← secret job_id "node-api-token" config.api_token
    password_ref ← secret job_id "panel-password" config.password
    save_deployment (with_config deployment config token_ref password_ref)
    job ← require_job job_id
    node ← require_node job.node_id
    verified ← utc_now out
    follow_node job node NodeState.deploying NodeState.verifying
    advance out (record job { deployment_verified_at = some verified })
        ReplacementCheckpoint.node_verified)

  abbrev pub record_outcome : ℕ → Result ThreeXUiConfig × Attempt → Exec (Unit {0})
  record_outcome job_id (ok config, attempt) = record_success job_id attempt.row config
  record_outcome job_id (err e, attempt) = record_failure job_id attempt.row e

  abbrev pub run_deploy : ℕ → String → Ground → Exec (Result ThreeXUiConfig × Attempt)
  run_deploy job_id lease_token ground_of w =
      let (outcome, w') =
        deploy out settings (persist_transition job_id lease_token) ground_of.host
          (out.dry_run_url ground_of.host) ground_of.dry_run (new_attempt ground_of.deployment) w in
      (ok outcome, w')

  -- `_stage_deploying`
  unfoldable pub stage_deploying : ℕ → String → Exec (Unit {0})
  stage_deploying job_id lease_token = do
    ground_of ← deploying_ground job_id lease_token
    outcome ← run_deploy job_id lease_token ground_of
    record_outcome job_id outcome
