-- ===== src/Replacement/Stages/Cleanup.antt =====
-- `_stage_temp_cleanup` of app/replacement/orchestrator.py.
use aso_node_recovery.Prelude.{
  Bool, Option, String, if◌then◌else◌, leb, nat_eq, none, not, opt_text_eq, some, str_eq, string_eq,
  truthy, ℕ, ◌&&◌, ◌+◌, ◌==◌, ◌||◌,
}
use aso_node_recovery.Errors.{Error}
use aso_node_recovery.Models.EventEnums.{
  event_severity_eq, node_check_outcome_eq, replacement_trigger_mode_eq,
  secret_reference_backend_eq,
}
use aso_node_recovery.Models.JobEnums.{
  ReplacementCheckpoint, replacement_checkpoint_eq, replacement_job_state_eq,
}
use aso_node_recovery.Models.NodeEnums.{
  VpsInstanceState, deployment_state_eq, node_operation_mode_eq, node_state_eq, provider_type_eq,
  ssh_auth_method_eq, vps_instance_role_eq, vps_instance_state_eq,
}
use aso_node_recovery.Models.Rows.{ReplacementJob, VpsInstance}
use aso_node_recovery.Outside.{Adapter, Outside, ProviderServer}
use aso_node_recovery.Replacement.Access.{
  advance, renew_lease, require_job, require_node, require_provider,
}
use aso_node_recovery.Replacement.Queries.{opt_row}
use aso_node_recovery.Replacement.Stages.Ready.{found_answer}
use aso_node_recovery.Runtime.{
  Effect, Exec, ask, call, gets, pure, raise, save_job, save_vps, session, ◌>>=◌, ◌>>◌,
}
use aso_node_recovery.Settings.{Settings}

module _ (out : Outside) (settings : Settings) where
  -- What the first session of `_stage_temp_cleanup` finds: the server to delete, if it is there.
  pub record Leftover : Type 0 where
    pub adapter : Adapter
    pub vps : VpsInstance

  abbrev pub leftover_of : ReplacementJob → Option VpsInstance → Exec (Option Leftover)
  leftover_of job none = pure none
  leftover_of job (some new_vps) = do
    provider ← require_provider new_vps.provider_id
    pure (
        if new_vps.state == VpsInstanceState.deleted
        then none
        else some (record {
          adapter = record { provider_id = provider.id; dry_run = job.is_dry_run };
          vps = new_vps;
        }))

  unfoldable pub find_leftover : ℕ → String → Exec (Option Leftover)
  find_leftover job_id lease_token = session (do
    job ← require_job job_id
    new_vps ← gets (λ db. opt_row db.vps job.new_vps_instance_id)
    leftover ← leftover_of job new_vps
    renew_lease out settings job_id lease_token
    pure leftover)

  -- The identity checks before the deletion of a temporary server.
  abbrev pub identity_matches : Leftover → String → ProviderServer → Bool
  identity_matches leftover expected_name server =
      str_eq server.provider_server_id leftover.vps.provider_server_id
      && str_eq server.name expected_name
      && (not (truthy leftover.vps.host) || opt_text_eq server.ipv4 leftover.vps.host)

  abbrev pub delete_leftover : Leftover → String → Option ProviderServer → Exec (Unit {0})
  delete_leftover leftover expected_name none = pure tt
  delete_leftover leftover expected_name (some server) =
      if identity_matches leftover expected_name server
      then (do
        call (Effect.delete_server leftover.adapter leftover.vps.provider_server_id)
        ask (λ n. out.delete_server n leftover.adapter leftover.vps.provider_server_id))
      else raise Error.safety_violation_error

  -- `_replacement_server_name` of the job as it is stored now
  unfoldable pub expected_name : ℕ → Exec String
  expected_name job_id = session (do
    job ← require_job job_id
    node ← require_node job.node_id
    pure (out.replacement_server_name node.name job.id job.attempt_count))

  abbrev pub clean_leftover : ℕ → Option Leftover → Exec (Unit {0})
  clean_leftover job_id none = pure tt
  clean_leftover job_id (some leftover) = do
    name ← expected_name job_id
    server ←
        ask λ n. found_answer (out.get_server n leftover.adapter leftover.vps.provider_server_id)
    delete_leftover leftover name server

  abbrev pub mark_deleted : Option VpsInstance → Exec (Unit {0})
  mark_deleted none = pure tt
  mark_deleted (some vps) = save_vps (record vps { state = VpsInstanceState.deleted })

  -- The server of the attempt is forgotten, and the next attempt starts unless they are used up.
  abbrev pub start_next_attempt : ReplacementJob → Bool → Exec (Unit {0})
  start_next_attempt job exhausted =
      let cleared = record job { new_vps_instance_id = none; provisioning_requested_at = none } in
      if exhausted
      then save_job cleared
      else advance out (record cleared { attempt_count = job.attempt_count + 1 })
          ReplacementCheckpoint.provisioning

  -- The last session of `_stage_temp_cleanup`; the result tells whether the attempts are used up.
  unfoldable pub end_attempt : ℕ → Exec Bool
  end_attempt job_id = session (do
    job ← require_job job_id
    vps ← gets (λ db. opt_row db.vps job.new_vps_instance_id)
    mark_deleted vps
    let exhausted = leb job.max_attempts job.attempt_count
    start_next_attempt job exhausted
    pure exhausted)

  -- `_stage_temp_cleanup`
  unfoldable pub stage_temp_cleanup : ℕ → String → Exec (Unit {0})
  stage_temp_cleanup job_id lease_token = do
    leftover ← find_leftover job_id lease_token
    clean_leftover job_id leftover
    exhausted ← end_attempt job_id
    if exhausted then raise Error.safety_violation_error else pure tt
