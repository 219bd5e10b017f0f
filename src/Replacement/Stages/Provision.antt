-- ===== src/Replacement/Stages/Provision.antt =====
-- `_stage_created`, `_stage_provisioning` and `_stage_provisioned` of
-- app/replacement/orchestrator.py, and `ProvisioningSafetyPolicy` of app/providers/policy.py.
pub mod Capacity
use aso_node_recovery.Prelude.{
  Bool, List, Option, String, [], false, get_or, if◌then◌else◌, is_none, leb, ltb, nat_eq, none,
  not, or_text, some, string_eq, truthy, ℕ, ◌&&◌, ◌+◌, ◌-◌, ◌==◌, ◌||◌, ◌∷◌,
}
use aso_node_recovery.Errors.{Error, Result, err, is_provider_transient, ok}
use aso_node_recovery.Models.EventEnums.{
  EventSeverity, EventType, event_severity_eq, node_check_outcome_eq, replacement_trigger_mode_eq,
  secret_reference_backend_eq,
}
use aso_node_recovery.Models.JobEnums.{
  ReplacementCheckpoint, replacement_checkpoint_eq, replacement_job_state_eq,
}
use aso_node_recovery.Models.NodeEnums.{
  ProviderType, SshAuthMethod, VpsInstanceRole, VpsInstanceState, deployment_state_eq,
  node_operation_mode_eq, node_state_eq, provider_type_eq, ssh_auth_method_eq, vps_instance_role_eq,
  vps_instance_state_eq,
}
use aso_node_recovery.Models.Rows.{Node, NodeCredential, Provider, ReplacementJob, VpsInstance}
use aso_node_recovery.Outside.{Adapter, CreateServerRequest, Outside, ProviderServer}
use aso_node_recovery.Replacement.Access.{
  add_event, advance, renew_lease, require_credential, require_job, require_node, require_provider,
  required, utc_now,
}
use aso_node_recovery.Replacement.Queries.{
  count_active, count_active_replacements, get_by_provider_identity, map_vps_state, opt_row,
}
use aso_node_recovery.Replacement.Stages.Deploy.{secret}
use aso_node_recovery.Runtime.{
  Effect, Exec, ask, call, gets, lift, pure, raise, save_job, save_vps, session, try_catch, when,
  ◌>>=◌, ◌>>◌,
}
use aso_node_recovery.Settings.{Settings}

-- `ProvisioningSafetyPolicy.validate`
unfoldable pub validate_capacity : Settings → ℕ → ℕ → ℕ → Result (Unit {0})
validate_capacity settings attempt_number active_temporary_servers active_replacements =
    if ltb attempt_number 1 || ltb settings.max_replacement_attempts attempt_number
    then err Error.safety_violation_error
    else if leb settings.max_temporary_servers active_temporary_servers
    then err Error.safety_violation_error
    else if leb settings.max_concurrent_replacements active_replacements
    then err Error.safety_violation_error
    else ok tt

module _ (out : Outside) (settings : Settings) where
  -- The template's part of `_build_create_request`.
  abbrev pub template_complete : Option String → Option String → Option String → Bool
  template_complete region server_type image = truthy region && truthy server_type && truthy image

  abbrev pub ssh_access :
      Provider → NodeCredential → SshAuthMethod → Exec (List String × Option String)
  ssh_access provider credential SshAuthMethod.private_key =
      if truthy credential.ssh_public_key
      then pure (get_or credential.ssh_public_key "" ∷ [], none)
      else raise Error.replacement_configuration_error
  ssh_access provider credential SshAuthMethod.password =
      if provider.provider_type == ProviderType.linode
      then (do
        secret ← ask λ n. out.resolve_secret n credential.secret_backend credential.ssh_secret_ref
        pure ([], some secret))
      else raise Error.replacement_configuration_error

  -- `_build_create_request`
  unfoldable pub build_create_request :
      ReplacementJob → Node → Provider → NodeCredential → VpsInstance → Exec CreateServerRequest
  build_create_request job node provider credential old_vps =
      let region = or_text old_vps.region provider.default_region in
      let server_type = or_text old_vps.server_type provider.default_server_type in
      let image = or_text old_vps.image provider.default_image in
      if template_complete region server_type image
      then (do
        access ← ssh_access provider credential credential.ssh_auth_method
        pure (record {
          name = out.replacement_server_name node.name job.id job.attempt_count;
          region = get_or region "";
          server_type = get_or server_type "";
          image = get_or image "";
          ssh_public_keys = access.0;
          root_password = access.1;
        }))
      else raise Error.replacement_configuration_error

  -- `_stage_created`
  unfoldable pub stage_created : ℕ → Exec (Unit {0})
  stage_created job_id = session (do
    job ← require_job job_id
    let counted = if ltb job.attempt_count 1 then record job { attempt_count = 1 } else job
    advance out counted ReplacementCheckpoint.provisioning)

  -- What the first session of `_stage_provisioning` hands on.
  pub record Plan : Type 0 where
    pub provider_id : ℕ
    pub adapter : Adapter
    pub request : CreateServerRequest
    pub requested_at : Option ℕ
    pub active_temporary : ℕ
    pub active_jobs : ℕ

  abbrev pub has_live_vps : Option VpsInstance → Bool
  has_live_vps none = false
  has_live_vps (some vps) = not (vps.state == VpsInstanceState.deleted)

  -- The first session: `none` where the VPS of the attempt already exists, and the job has moved on.
  unfoldable pub plan_provisioning : ℕ → Exec (Option Plan)
  plan_provisioning job_id = session (do
    job ← require_job job_id
    node ← require_node job.node_id
    provider ← require_provider node.provider_id
    credential ← require_credential node.id
    existing ← gets (λ db. opt_row db.vps job.new_vps_instance_id)
    if has_live_vps existing
        then (do advance out job ReplacementCheckpoint.provisioned; pure none)
        else do
          temporary ← gets count_active_replacements
          active ← gets count_active
          found ← gets (λ db. opt_row db.vps job.old_vps_instance_id)
          old_vps ← required found
          request ← build_create_request job node provider credential old_vps
          pure (
              some (record {
                provider_id = provider.id;
                adapter = record { provider_id = provider.id; dry_run = job.is_dry_run };
                request = request;
                requested_at = job.provisioning_requested_at;
                active_temporary = temporary;
                active_jobs = active;
              })))

  -- `age < provider_reconcile_grace_seconds`, for a request that was made
  abbrev pub within_grace : Option ℕ → ℕ → Bool
  within_grace none now = false
  within_grace (some requested_at) now =
      ltb now (requested_at + settings.provider_reconcile_grace_seconds)

  abbrev pub defer_transient : {A : Type 0} → Error → Exec A
  defer_transient e =
      if is_provider_transient e then raise Error.replacement_deferred_error else raise e

  -- The server is not known to the provider yet: `ProvisioningService.create_temporary`.
  unfoldable pub create_temporary : ℕ → String → ℕ → Plan → Exec ProviderServer
  create_temporary job_id lease_token now plan =
      if within_grace plan.requested_at now then raise Error.replacement_deferred_error else do
        attempt ← session (do
          job ← require_job job_id
          requested ← utc_now out
          save_job (record job { provisioning_requested_at = some requested })
          renew_lease out settings job_id lease_token
          pure job.attempt_count)
        try_catch
            (do
              lift (validate_capacity settings attempt plan.active_temporary (plan.active_jobs - 1))
              call (Effect.create_server plan.adapter plan.request)
              ask λ n. out.create_server n plan.adapter plan.request)
            defer_transient

  abbrev pub found_or_created : ℕ → String → ℕ → Plan → Option ProviderServer → Exec ProviderServer
  found_or_created job_id lease_token now plan none = create_temporary job_id lease_token now plan
  found_or_created job_id lease_token now plan (some server) = pure server

  abbrev pub new_instance : ℕ → ReplacementJob → Plan → ProviderServer → VpsInstance
  new_instance vps_id job plan server = record {
    id = vps_id;
    provider_id = plan.provider_id;
    node_id = job.node_id;
    provider_server_id = server.provider_server_id;
    role = VpsInstanceRole.replacement;
    state = map_vps_state server.status;
    host = server.ipv4;
    region = server.region;
    server_type = or_text server.server_type (some plan.request.server_type);
    image = or_text server.image (some plan.request.image);
  }

  abbrev pub refreshed : VpsInstance → Plan → ProviderServer → VpsInstance
  refreshed instance_row plan server = record instance_row {
    state = map_vps_state server.status;
    host = or_text server.ipv4 instance_row.host;
    region = or_text server.region instance_row.region;
    server_type = or_text server.server_type instance_row.server_type;
    image = or_text (or_text server.image instance_row.image) (some plan.request.image);
  }

  abbrev pub record_instance : ReplacementJob → Plan → ProviderServer → Option VpsInstance → Exec ℕ
  record_instance job plan server none = do
    vps_id ← ask (λ n. ok (out.new_id n))
    save_vps (new_instance vps_id job plan server)
    pure vps_id
  record_instance job plan server (some existing) = do
    save_vps (refreshed existing plan server)
    pure existing.id

  -- The last session of `_stage_provisioning`.
  unfoldable pub record_server : ℕ → String → Plan → ProviderServer → Exec (Unit {0})
  record_server job_id lease_token plan server = session (do
    job ← require_job job_id
    existing ← gets (get_by_provider_identity plan.provider_id server.provider_server_id)
    vps_id ← record_instance job plan server existing
    advance out (record job { new_vps_instance_id = some vps_id }) ReplacementCheckpoint.provisioned
    when (is_none existing) (
        add_event out job EventType.vps_created EventSeverity.info
          "Replacement VPS created/reconciled")
    renew_lease out settings job_id lease_token)

  abbrev pub follow_plan : ℕ → String → ℕ → Option Plan → Exec (Unit {0})
  follow_plan job_id lease_token now none = pure tt
  follow_plan job_id lease_token now (some plan) = do
    found ← ask λ n. out.find_server_by_name n plan.adapter plan.request.name
    server ← found_or_created job_id lease_token now plan found
    record_server job_id lease_token plan server

  -- `_stage_provisioning`
  unfoldable pub stage_provisioning : ℕ → String → Exec (Unit {0})
  stage_provisioning job_id lease_token = do
    now ← utc_now out
    plan ← plan_provisioning job_id
    follow_plan job_id lease_token now plan
