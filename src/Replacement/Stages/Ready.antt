-- ===== src/Replacement/Stages/Ready.antt =====
-- `_sleep_with_lease`, `_wait_for_vps_boot_grace` and `_stage_provisioned` of
-- app/replacement/orchestrator.py.
pub mod Waiting
pub mod Forward
use aso_node_recovery.Prelude.{
  Option, String, if◌then◌else◌, max, min, nat_eq, none, or_text, some, string_eq, suc, zero, ℕ,
  ◌-◌, ◌==◌,
}
use aso_node_recovery.Errors.{Error, Result, err, ok}
use aso_node_recovery.Models.EventEnums.{
  EventSeverity, EventType, event_severity_eq, node_check_outcome_eq, replacement_trigger_mode_eq,
  secret_reference_backend_eq,
}
use aso_node_recovery.Models.JobEnums.{
  ReplacementCheckpoint, replacement_checkpoint_eq, replacement_job_state_eq,
}
use aso_node_recovery.Models.NodeEnums.{
  VpsInstanceState, deployment_state_eq, node_operation_mode_eq, node_state_eq, provider_type_eq,
  ssh_auth_method_eq, vps_instance_role_eq, vps_instance_state_eq,
}
use aso_node_recovery.Models.Rows.{VpsInstance}
use aso_node_recovery.Outside.{Adapter, Outside, ProviderServer}
use aso_node_recovery.Replacement.Access.{
  add_event, advance, assert_not_paused, renew_lease, require_job, require_new_vps,
  require_provider,
}
use aso_node_recovery.Runtime.{Exec, ask, pure, save_vps, session, ◌>>=◌, ◌>>◌}
use aso_node_recovery.Settings.{Settings}

-- A question whose ProviderNotFoundError is an answer: `none`.
abbrev pub found_answer : {A : Type 0} → Result A → Result (Option A)
found_answer (ok a) = ok (some a)
found_answer (err Error.provider_not_found_error) = ok none
found_answer (err e) = err e

module _ (out : Outside) (settings : Settings) where
  -- The lease is renewed after each piece of the wait; `fuel` bounds the pieces, and the number of
  -- thirds of a second is enough, since each piece takes at least three or all that remains.
  unfoldable pub sleep_pieces : ℕ → ℕ → String → ℕ → Exec (Unit {0})
  sleep_pieces zero job_id lease_token remaining = pure tt
  sleep_pieces (suc fuel) job_id lease_token remaining =
      let piece = min remaining (max 3 (min 90 settings.replacement_job_lease_seconds)) in
      let rest = sleep_pieces fuel job_id lease_token (remaining - piece) in
      if remaining == 0
      then pure tt
      else do assert_not_paused out; session (renew_lease out settings job_id lease_token); rest

  -- `_sleep_with_lease`; the waiting itself changes nothing that is modelled
  unfoldable pub sleep_with_lease : ℕ → String → ℕ → Exec (Unit {0})
  unfolding sleep_pieces
  sleep_with_lease job_id lease_token thirds = sleep_pieces thirds job_id lease_token thirds

  -- `_wait_for_vps_boot_grace`
  unfoldable pub wait_for_vps_boot_grace : ℕ → String → Exec (Unit {0})
  wait_for_vps_boot_grace job_id lease_token =
      sleep_with_lease job_id lease_token settings.replacement_vps_boot_grace_thirds

  abbrev pub ready : VpsInstance → ProviderServer → VpsInstance
  ready new_vps server = record new_vps {
    host = server.ipv4;
    state = VpsInstanceState.running;
    region = or_text server.region new_vps.region;
    server_type = or_text server.server_type new_vps.server_type;
    image = or_text server.image new_vps.image;
  }

  -- The sessions of `_stage_provisioned` after the provider reports the server as running.
  unfoldable pub server_running : ℕ → String → ProviderServer → Exec (Unit {0})
  server_running job_id lease_token server = do
    session (do
      job ← require_job job_id
      new_vps ← require_new_vps job
      save_vps (ready new_vps server)
      renew_lease out settings job_id lease_token)
    wait_for_vps_boot_grace job_id lease_token
    session (do
      job ← require_job job_id
      advance out job ReplacementCheckpoint.checking_ip
      add_event out job EventType.ip_check_started EventSeverity.info
          "Replacement IP multi-round reachability verification started"
      renew_lease out settings job_id lease_token)

  -- The server is gone at the provider.
  unfoldable pub server_vanished : ℕ → Exec (Unit {0})
  server_vanished job_id = session (do
    job ← require_job job_id
    new_vps ← require_new_vps job
    save_vps (record new_vps { state = VpsInstanceState.deleted })
    advance out job ReplacementCheckpoint.temp_cleanup)

  abbrev pub after_wait : ℕ → String → Option ProviderServer → Exec (Unit {0})
  after_wait job_id lease_token none = server_vanished job_id
  after_wait job_id lease_token (some server) = server_running job_id lease_token server

  -- The first session of `_stage_provisioned`: the adapter and the server to wait for.
  unfoldable pub server_to_await : ℕ → String → Exec (Adapter × String)
  server_to_await job_id lease_token = session (do
    job ← require_job job_id
    new_vps ← require_new_vps job
    provider ← require_provider new_vps.provider_id
    renew_lease out settings job_id lease_token
    pure (
      record { provider_id = provider.id; dry_run = job.is_dry_run },
      new_vps.provider_server_id,
    ))

  -- `_stage_provisioned`
  unfoldable pub stage_provisioned : ℕ → String → Exec (Unit {0})
  stage_provisioned job_id lease_token = do
    awaited ← server_to_await job_id lease_token
    answer ← ask λ n. found_answer (out.wait_until_ready n awaited.0 awaited.1)
    after_wait job_id lease_token answer
