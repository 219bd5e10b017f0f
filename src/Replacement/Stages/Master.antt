-- ===== src/Replacement/Stages/Master.antt =====
-- `_stage_node_verified`, `_stage_master_updating`, `_stage_master_updated`,
-- `_stage_master_verifying`, `_stage_master_verified` and `_rollback_master` of
-- app/replacement/orchestrator.py.
use aso_node_recovery.Prelude.{
  Option, String, [], false, get_or, if◌then◌else◌, none, not, some, str_eq, true, truthy, ℕ, ◌&&◌,
}
use aso_node_recovery.Errors.{Error, Result, err, ok}
use aso_node_recovery.Models.EventEnums.{EventSeverity, EventType}
use aso_node_recovery.Models.JobEnums.{ReplacementCheckpoint}
use aso_node_recovery.Models.Rows.{
  Deployment, MasterSnapshot, Node, NodeCredential, ReplacementJob, VpsInstance,
}
use aso_node_recovery.Outside.{MasterNode, MasterNodeMutation, Outside}
use aso_node_recovery.Replacement.Access.{
  add_event, advance, renew_lease, require_credential, require_deployment, require_host,
  require_job, require_master_snapshot, require_new_vps, require_node, require_panel_port, utc_now,
}
use aso_node_recovery.Replacement.Mutation.{
  assert_master_test_result, deployment_scheme, from_existing, from_snapshot, parse_master_node_id,
  prepare_pin_if_needed, resolve_deployment_api_token, safe_snapshot, target_mutation,
}
use aso_node_recovery.Runtime.{
  Effect, Exec, ask, call, lift, pure, raise, save_job, session, try_catch, ◌>>=◌, ◌>>◌,
}
use aso_node_recovery.Settings.{Settings}

-- The snapshot that a dry run keeps.
abbrev pub dry_run_snapshot : Node → NodeCredential → MasterSnapshot
dry_run_snapshot node credential = record {
  name = node.name;
  remark = "";
  scheme = "http";
  address = node.current_host;
  port = node.current_port;
  base_path = get_or credential.panel_base_path "";
  has_api_token = truthy credential.api_token_ref;
  enable = true;
  allow_private_address = false;
  tls_verify_mode = "verify";
  pinned_cert_sha256 = "";
  inbound_sync_mode = "all";
  inbound_tags = [];
  outbound_tag = "";
}

abbrev pub keep_snapshot : ReplacementJob → MasterSnapshot → ReplacementJob
keep_snapshot job snapshot = record job {
  master_snapshot = some (get_or job.master_snapshot snapshot);
}

-- The refusals of `_stage_node_verified` before the master is touched.
unfoldable pub assert_replaceable : MasterNode → NodeCredential → Result (Unit {0})
assert_replaceable existing credential =
    if existing.transitive
    then err Error.replacement_configuration_error
    else if str_eq existing.tls_verify_mode "mtls"
    then err Error.replacement_configuration_error
    else if existing.has_api_token && not (truthy credential.api_token_ref)
    then err Error.replacement_configuration_error
    else ok tt

module _ (out : Outside) (settings : Settings) where
  -- What a live stage knows of the node, its credential, the new server and its deployment.
  pub record Target : Type 0 where
    pub master_id : ℕ
    pub credential : NodeCredential
    pub new_vps : VpsInstance
    pub deployment : Deployment

  -- The first session of `_stage_node_verified`; a dry run ends there, with `none`.
  unfoldable pub node_verified_target : ℕ → String → Exec (Option Target)
  node_verified_target job_id lease_token = session (do
    job ← require_job job_id
    node ← require_node job.node_id
    credential ← require_credential node.id
    new_vps ← require_new_vps job
    deployment ← require_deployment job
    if job.is_dry_run
        then (do
          advance out (keep_snapshot job (dry_run_snapshot node credential))
              ReplacementCheckpoint.master_updating
          pure none)
        else do
          master_id ← lift (parse_master_node_id out node)
          renew_lease out settings job_id lease_token
          pure (
              some (record {
                master_id = master_id;
                credential = credential;
                new_vps = new_vps;
                deployment = deployment;
              })))

  -- `_build_new_master_mutation`
  unfoldable pub build_new_master_mutation :
      MasterNode → VpsInstance → Deployment → Exec MasterNodeMutation
  build_new_master_mutation existing new_vps deployment = do
    scheme ← lift (deployment_scheme out deployment)
    host ← lift (require_host new_vps)
    port ← lift (require_panel_port deployment)
    token ← resolve_deployment_api_token out deployment
    lift (from_existing existing scheme host port (get_or deployment.web_base_path "") (some token))

  unfoldable pub preflight : ℕ → Target → Exec (Unit {0})
  preflight job_id target = do
    existing ← ask λ n. out.get_node n target.master_id
    lift (assert_replaceable existing target.credential)
    session (do job ← require_job job_id; save_job (keep_snapshot job (safe_snapshot existing)))
    mutation ← build_new_master_mutation existing target.new_vps target.deployment
    pinned ← prepare_pin_if_needed out mutation
    answer ← ask λ n. out.test_node n pinned
    lift (assert_master_test_result answer)
    session (do job ← require_job job_id; advance out job ReplacementCheckpoint.master_updating)

  abbrev pub follow_target : ℕ → Option Target → Exec (Unit {0})
  follow_target job_id none = pure tt
  follow_target job_id (some target) = preflight job_id target

  -- `_stage_node_verified`
  unfoldable pub stage_node_verified : ℕ → String → Exec (Unit {0})
  stage_node_verified job_id lease_token = do
    target ← node_verified_target job_id lease_token
    follow_target job_id target

  -- The first session of `_stage_master_updating` and of `_stage_master_verifying`: the master's
  -- node and the configuration that it shall have. A dry run sets its marker and ends with `none`.
  unfoldable pub master_target :
      (ReplacementJob → ℕ → ReplacementJob)
      → ReplacementCheckpoint
      → ℕ
      → String
      → Exec (Option (ℕ × MasterNodeMutation))
  master_target mark next job_id lease_token = session (do
    job ← require_job job_id
    if job.is_dry_run
        then (do now ← utc_now out; advance out (mark job now) next; pure none)
        else do
          node ← require_node job.node_id
          new_vps ← require_new_vps job
          deployment ← require_deployment job
          snapshot ← require_master_snapshot job
          master_id ← lift (parse_master_node_id out node)
          mutation ← target_mutation out snapshot deployment new_vps
          renew_lease out settings job_id lease_token
          pure (some (master_id, mutation)))

  abbrev pub mark_updated : ReplacementJob → ℕ → ReplacementJob
  mark_updated job now = record job { master_updated_at = some now }

  abbrev pub mark_verified : ReplacementJob → ℕ → ReplacementJob
  mark_verified job now = record job { master_verified_at = some now }

  -- The last session of both stages: the marker, the event, and the next checkpoint.
  unfoldable pub record_master :
      (ReplacementJob → ℕ → ReplacementJob)
      → EventType
      → String
      → ReplacementCheckpoint
      → ℕ
      → Exec (Unit {0})
  record_master mark event_type message next job_id = session (do
    job ← require_job job_id
    now ← utc_now out
    add_event out job event_type EventSeverity.info message
    advance out (mark job now) next)

  abbrev pub write_master : ℕ → Option (ℕ × MasterNodeMutation) → Exec (Unit {0})
  write_master job_id none = pure tt
  write_master job_id (some (master_id, mutation)) = do
    pinned ← prepare_pin_if_needed out mutation
    call (Effect.update_node master_id pinned)
    ask (λ n. out.update_node n master_id pinned)
    record_master mark_updated EventType.master_updated "Master node configuration updated"
        ReplacementCheckpoint.master_updated job_id

  -- `_stage_master_updating`
  unfoldable pub stage_master_updating : ℕ → String → Exec (Unit {0})
  stage_master_updating job_id lease_token = do
    target ← master_target mark_updated ReplacementCheckpoint.master_updated job_id lease_token
    write_master job_id target

  abbrev pub old_token : MasterSnapshot → NodeCredential → Exec (Option String)
  old_token snapshot credential =
      if snapshot.has_api_token
      then (if truthy credential.api_token_ref
          then (do
            token ← ask λ n.
                out.resolve_secret n (get_or credential.api_token_backend credential.secret_backend)
                  (get_or credential.api_token_ref "")
            pure (some token))
          else raise Error.safety_violation_error)
      else pure none

  -- The session of `_rollback_master`: the old configuration, or `none` in a dry run.
  unfoldable pub rollback_target : ℕ → Exec (Option (ℕ × MasterNodeMutation))
  rollback_target job_id = session (do
    job ← require_job job_id
    if job.is_dry_run then pure none else do
      node ← require_node job.node_id
      credential ← require_credential node.id
      snapshot ← require_master_snapshot job
      master_id ← lift (parse_master_node_id out node)
      token ← old_token snapshot credential
      pure (some (master_id, from_snapshot snapshot token)))

  abbrev pub restore_master : Option (ℕ × MasterNodeMutation) → Exec (Unit {0})
  restore_master none = pure tt
  restore_master (some (master_id, mutation)) = do
    call (Effect.update_node master_id mutation)
    ask (λ n. out.update_node n master_id mutation)
    ask (λ n. out.verify_node n master_id mutation)

  -- `_rollback_master`
  unfoldable pub rollback_master : ℕ → Exec (Unit {0})
  rollback_master job_id = do target ← rollback_target job_id; restore_master target

  -- `except MasterTransientError: raise`, `except MasterNodeVerificationError: rollback, raise`
  abbrev pub on_verify_error : ℕ → Error → Exec (Unit {0})
  on_verify_error job_id Error.master_node_verification_error = do
    rollback_master job_id
    raise Error.master_node_verification_error
  on_verify_error job_id e = raise e

  abbrev pub verify_master : ℕ → Option (ℕ × MasterNodeMutation) → Exec (Unit {0})
  verify_master job_id none = pure tt
  verify_master job_id (some (master_id, mutation)) = do
    expected ← prepare_pin_if_needed out mutation
    try_catch (ask λ n. out.verify_node n master_id expected) (on_verify_error job_id)
    record_master mark_verified EventType.master_verified "Master node update verified"
        ReplacementCheckpoint.master_verified job_id

  -- `_stage_master_verifying`
  unfoldable pub stage_master_verifying : ℕ → String → Exec (Unit {0})
  stage_master_verifying job_id lease_token = do
    target ← master_target mark_verified ReplacementCheckpoint.master_verified job_id lease_token
    verify_master job_id target

  -- A stage that only moves the job on: `_stage_master_updated`, `_stage_master_verified` and
  -- `_stage_final_verified`.
  unfoldable pub stage_next : ReplacementCheckpoint → ℕ → Exec (Unit {0})
  stage_next next job_id = session (do job ← require_job job_id; advance out job next)
