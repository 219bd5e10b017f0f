-- ===== src/Replacement/Stages/Finish.antt =====
-- `_stage_final_check` and `_stage_old_vps_cleanup` of app/replacement/orchestrator.py.
use aso_node_recovery.Prelude.{
  Bool, Option, String, false, get, get_or, if◌then◌else◌, max, nat_eq, none, not, opt_text_eq,
  some, str_eq, string_eq, true, ℕ, ◌&&◌, ◌==◌,
}
use aso_node_recovery.Errors.{Error}
use aso_node_recovery.Models.EventEnums.{
  EventSeverity, EventType, SecretReferenceBackend, event_severity_eq, node_check_outcome_eq,
  replacement_trigger_mode_eq, secret_reference_backend_eq,
}
use aso_node_recovery.Models.JobEnums.{
  ReplacementCheckpoint, replacement_checkpoint_eq, replacement_job_state_eq,
}
use aso_node_recovery.Models.NodeEnums.{
  NodeState, VpsInstanceRole, VpsInstanceState, deployment_state_eq, node_operation_mode_eq,
  node_state_eq, provider_type_eq, ssh_auth_method_eq, vps_instance_role_eq, vps_instance_state_eq,
}
use aso_node_recovery.Models.Rows.{Deployment, Node, NodeCredential, ReplacementJob, VpsInstance}
use aso_node_recovery.Outside.{Adapter, Outside, ProviderServer, ReachabilityDecision}
use aso_node_recovery.Replacement.Access.{
  add_event, advance, move_node, or_raise, renew_lease, require_credential, require_deployment,
  require_host, require_job, require_new_vps, require_node, require_panel_port, require_provider,
  utc_now,
}
use aso_node_recovery.Replacement.Guard.{assert_can_delete}
use aso_node_recovery.Replacement.Stages.Address.{host_to_check}
use aso_node_recovery.Replacement.Stages.Master.{rollback_master}
use aso_node_recovery.Replacement.Stages.Ready.{found_answer}
use aso_node_recovery.Runtime.{
  Effect, Exec, ask, call, gets, lift, pure, raise, save_credential, save_node, save_vps, session,
  when, ◌>>=◌, ◌>>◌,
}
use aso_node_recovery.Settings.{Settings}

module _ (out : Outside) (settings : Settings) where
  abbrev pub final_decision : Bool → String → Exec ReachabilityDecision
  final_decision true host = pure ReachabilityDecision.reachable
  final_decision false host = ask λ n. out.verify n host

  -- The end of `_stage_final_check`, by the decision.
  unfoldable pub record_final : ℕ → ReachabilityDecision → Exec (Unit {0})
  record_final job_id ReachabilityDecision.indeterminate = raise Error.replacement_deferred_error
  record_final job_id ReachabilityDecision.unreachable = do
    rollback_master out settings job_id
    raise Error.safety_violation_error
  record_final job_id ReachabilityDecision.reachable = session (do
    job ← require_job job_id
    verified ← utc_now out
    advance out (record job { final_health_verified_at = some verified })
        ReplacementCheckpoint.final_verified)

  -- `_stage_final_check`
  unfoldable pub stage_final_check : ℕ → String → Exec (Unit {0})
  stage_final_check job_id lease_token = do
    checked ← host_to_check out settings job_id lease_token
    decision ← final_decision checked.0 checked.1
    record_final job_id decision

  -- `_assert_not_emergency_stopped`
  abbrev pub assert_not_emergency_stopped : Bool → Exec (Unit {0})
  assert_not_emergency_stopped dry_run =
      if settings.replacement_emergency_stop && not dry_run
      then raise Error.replacement_deferred_error
      else pure tt

  -- The server that the cleanup deletes, and the registry's host of an old VPS.
  pub record Doomed : Type 0 where
    pub dry_run : Bool
    pub adapter : Adapter
    pub server_id : String
    pub host : Option String

  abbrev pub doomed_new : ReplacementJob → VpsInstance → ℕ → String → Exec Doomed
  doomed_new job new_vps job_id lease_token = do
    provider ← require_provider new_vps.provider_id
    renew_lease out settings job_id lease_token
    pure (record {
      dry_run = true;
      adapter = record { provider_id = provider.id; dry_run = true };
      server_id = new_vps.provider_server_id;
      host = new_vps.host;
    })

  -- Everything that is asked before an old VPS is deleted.
  abbrev pub doomed_old : ReplacementJob → Deployment → VpsInstance → ℕ → String → Exec Doomed
  doomed_old job deployment new_vps job_id lease_token = do
    old_id ← or_raise Error.safety_violation_error job.old_vps_instance_id
    found ← gets (λ db. get db.vps old_id)
    old_vps ← or_raise Error.safety_violation_error found
    when (not settings.allow_old_vps_deletion) (raise Error.replacement_deferred_error)
    lift (assert_can_delete job deployment new_vps old_vps)
    provider ← require_provider old_vps.provider_id
    renew_lease out settings job_id lease_token
    pure (record {
      dry_run = false;
      adapter = record { provider_id = provider.id; dry_run = false };
      server_id = old_vps.provider_server_id;
      host = old_vps.host;
    })

  -- The first session of `_stage_old_vps_cleanup`.
  unfoldable pub choose_doomed : ℕ → String → Exec Doomed
  choose_doomed job_id lease_token = session (do
    job ← require_job job_id
    assert_not_emergency_stopped job.is_dry_run
    new_vps ← require_new_vps job
    deployment ← require_deployment job
    if job.is_dry_run
        then doomed_new job new_vps job_id lease_token
        else doomed_old job deployment new_vps job_id lease_token)

  -- A dry run: the simulated server is deleted, where it still exists, and the job completes.
  unfoldable pub finish_dry_run : ℕ → Doomed → Exec (Unit {0})
  finish_dry_run job_id doomed = do
    call (Effect.delete_server doomed.adapter doomed.server_id)
    ask λ n. found_answer (out.delete_server n doomed.adapter doomed.server_id)
    session (do
      job ← require_job job_id
      new_vps ← require_new_vps job
      save_vps (record new_vps { state = VpsInstanceState.deleted })
      advance out job ReplacementCheckpoint.completed
      add_event out job EventType.replacement_completed EventSeverity.info
          "Dry-run replacement simulation completed; old VPS and node registry unchanged")

  -- The provider's own view of the old server is checked once more before the deletion.
  abbrev pub delete_old : Doomed → Option ProviderServer → Exec (Unit {0})
  delete_old doomed none = pure tt
  delete_old doomed (some server) =
      if not (str_eq server.provider_server_id doomed.server_id)
      then raise Error.safety_violation_error
      else (do
        registered_ip ← or_raise Error.safety_violation_error (out.ip_text (get_or doomed.host ""))
        if opt_text_eq server.ipv4 (some registered_ip)
            then (do
              call (Effect.delete_server doomed.adapter doomed.server_id)
              ask (λ n. out.delete_server n doomed.adapter doomed.server_id))
            else raise Error.safety_violation_error)

  abbrev pub switched_node : Node → VpsInstance → String → ℕ → Node
  switched_node node new_vps host port = record node {
    provider_id = new_vps.provider_id;
    current_host = host;
    current_port = port;
    consecutive_failures = 0;
    consecutive_successes = max 1 node.consecutive_successes;
  }

  abbrev pub switched_credential : NodeCredential → Deployment → NodeCredential
  switched_credential credential deployment = record credential {
    panel_username = deployment.panel_username;
    panel_base_path = deployment.web_base_path;
    panel_password_ref = deployment.panel_password_ref;
    panel_password_backend = some SecretReferenceBackend.file;
    api_token_ref = deployment.api_token_ref;
    api_token_backend = some SecretReferenceBackend.file;
  }

  -- The last session: the registry is switched over to the new server.
  unfoldable pub switch_registry : ℕ → Exec (Unit {0})
  switch_registry job_id = session (do
    job ← require_job job_id
    node ← require_node job.node_id
    credential ← require_credential node.id
    new_vps ← require_new_vps job
    deployment ← require_deployment job
    old_id ← or_raise Error.safety_violation_error job.old_vps_instance_id
    found ← gets (λ db. get db.vps old_id)
    old_vps ← or_raise Error.safety_violation_error found
    save_vps (record old_vps { state = VpsInstanceState.deleted })
    save_vps (record new_vps { role = VpsInstanceRole.current; state = VpsInstanceState.running })
    deleted ← utc_now out
    host ← lift (require_host new_vps)
    port ← lift (require_panel_port deployment)
    save_node (switched_node node new_vps host port)
    save_credential (switched_credential credential deployment)
    when (not (node.state == NodeState.healthy))
        (move_node out (switched_node node new_vps host port) NodeState.healthy)
    add_event out job EventType.old_vps_deleted EventSeverity.info
        "Old VPS deleted after all safety gates"
    advance out (record job { old_vps_deleted_at = some deleted }) ReplacementCheckpoint.completed
    add_event out job EventType.replacement_completed EventSeverity.info
        "Replacement completed successfully")

  unfoldable pub finish_live : ℕ → Doomed → Exec (Unit {0})
  finish_live job_id doomed = do
    server ← ask λ n. found_answer (out.get_server n doomed.adapter doomed.server_id)
    delete_old doomed server
    switch_registry job_id

  -- `_stage_old_vps_cleanup`
  unfoldable pub stage_old_vps_cleanup : ℕ → String → Exec (Unit {0})
  stage_old_vps_cleanup job_id lease_token = do
    doomed ← choose_doomed job_id lease_token
    if doomed.dry_run then finish_dry_run job_id doomed else finish_live job_id doomed
