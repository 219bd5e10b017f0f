-- ===== src/Replacement/Access.antt =====
-- app/replacement/orchestrator.py: the helpers by which the stages read and write their rows.
use aso_node_recovery.NodeLifecycle
use aso_node_recovery.Replacement.Checkpoints
use aso_node_recovery.Prelude.{
  Bool, List, Option, String, Table, [], get, get_or, if◌then◌else◌, leb, nat_eq, none, select,
  some, string_eq, truthy, ℕ, ◌&&◌, ◌++◌, ◌+◌, ◌==◌, ◌∷◌,
}
use aso_node_recovery.Errors.{Error, Result, err, ok}
use aso_node_recovery.Models.EventEnums.{
  EventSeverity, EventType, event_severity_eq, node_check_outcome_eq, replacement_trigger_mode_eq,
  secret_reference_backend_eq,
}
use aso_node_recovery.Models.JobEnums.{
  ReplacementCheckpoint, replacement_checkpoint_eq, replacement_job_state_eq,
}
use aso_node_recovery.Models.NodeEnums.{
  NodeState, deployment_state_eq, node_operation_mode_eq, node_state_eq, provider_type_eq,
  ssh_auth_method_eq, vps_instance_role_eq, vps_instance_state_eq,
}
use aso_node_recovery.Models.Rows.{
  Deployment, MasterSnapshot, Node, NodeCredential, Provider, ReplacementJob, VpsInstance,
}
use aso_node_recovery.Outside.{Outside}
use aso_node_recovery.Replacement.Leases.{release_workflow_lease, try_acquire_workflow_lease}
use aso_node_recovery.Runtime.{
  Db, Exec, ask, gets, lift, modify, pure, raise, save_job, save_node, ◌>>=◌, ◌>>◌,
}
use aso_node_recovery.Settings.{Settings}

abbrev pub or_raise : {A : Type 0} → Error → Option A → Exec A
or_raise e none = raise e
or_raise e (some a) = pure a

-- `ReplacementConfigurationError` where a row is missing
abbrev pub required : {A : Type 0} → Option A → Exec A
required = or_raise Error.replacement_configuration_error

unfoldable pub require_job : ℕ → Exec ReplacementJob
require_job job_id = do found ← gets (λ db. get db.jobs job_id); required found

unfoldable pub require_node : ℕ → Exec Node
require_node node_id = do found ← gets (λ db. get db.nodes node_id); required found

unfoldable pub require_provider : ℕ → Exec Provider
require_provider provider_id = do
  found ← gets (λ db. get db.providers provider_id)
  provider ← required found
  if provider.is_active then pure provider else raise Error.replacement_configuration_error

unfoldable pub require_credential : ℕ → Exec NodeCredential
require_credential node_id = do found ← gets (λ db. get db.credentials node_id); required found

unfoldable pub require_new_vps : ReplacementJob → Exec VpsInstance
require_new_vps job = do
  vps_id ← required job.new_vps_instance_id
  found ← gets (λ db. get db.vps vps_id)
  required found

-- `DeploymentRepository.get_for_attempt`
abbrev pub is_attempt : ReplacementJob → Deployment → Bool
is_attempt job d = d.replacement_job_id == job.id && d.attempt_number == job.attempt_count

abbrev pub first : {A : Type 0} → List A → Option A
first [] = none
first (x ∷ _) = some x

abbrev pub get_for_attempt : ReplacementJob → Db → Option Deployment
get_for_attempt job db = first (select db.deployments (is_attempt job))

unfoldable pub require_deployment : ReplacementJob → Exec Deployment
require_deployment job = do found ← gets (get_for_attempt job); required found

-- `_require_host`: an empty host is none
abbrev pub require_host : VpsInstance → Result String
require_host vps =
    if truthy vps.host then ok (get_or vps.host "") else err Error.replacement_configuration_error

abbrev pub port_in_range : Option ℕ → Result ℕ
port_in_range none = err Error.replacement_configuration_error
port_in_range (some port) =
    if leb 1 port && leb port 65535 then ok port else err Error.replacement_configuration_error

abbrev pub require_panel_port : Deployment → Result ℕ
require_panel_port deployment = port_in_range deployment.panel_port

abbrev pub require_master_snapshot : ReplacementJob → Exec MasterSnapshot
require_master_snapshot job = required job.master_snapshot

module _ (out : Outside) where
  unfoldable pub utc_now : Exec ℕ
  utc_now = ask (λ n. ok (out.now n))

  -- `state_machine.transition(job, target)`, written back
  unfoldable pub advance : ReplacementJob → ReplacementCheckpoint → Exec (Unit {0})
  advance job target = do
    now ← utc_now
    step ← lift (Checkpoints.transition now job target none)
    save_job step.0

  -- `NodeStateMachine.transition(node, target)`, written back
  unfoldable pub move_node : Node → NodeState → Exec (Unit {0})
  move_node node target = do
    now ← utc_now
    step ← lift (NodeLifecycle.transition now node target none)
    save_node step.0

  unfoldable pub add_event : ReplacementJob → EventType → EventSeverity → String → Exec (Unit {0})
  add_event job event_type severity message = do
    now ← utc_now
    modify λ db. record db {
      events =
          db.events
          ++ (record {
            node_id = some job.node_id;
            replacement_job_id = some job.id;
            event_type = event_type;
            severity = severity;
            message = message;
            created_at = now;
          })
            ∷ [];
    }

  module _ (settings : Settings) where
    abbrev pub lease_answer : Table ReplacementJob × Bool → Exec Bool
    lease_answer (jobs, acquired) = do modify (λ db. record db { jobs = jobs }); pure acquired

    -- `_acquire_lease`
    unfoldable pub acquire_lease : ℕ → String → Exec Bool
    acquire_lease job_id token = do
      now ← utc_now
      answer ← gets λ db.
          try_acquire_workflow_lease db.jobs job_id token now
            (now + settings.replacement_job_lease_seconds)
      lease_answer answer

    -- `_renew_lease_in_session`
    unfoldable pub renew_lease : ℕ → String → Exec (Unit {0})
    renew_lease job_id token = do
      acquired ← acquire_lease job_id token
      if acquired then pure tt else raise Error.replacement_busy_error

-- `_release_lease`
unfoldable pub release_lease : ℕ → String → Exec (Unit {0})
release_lease job_id token =
    modify λ db. record db { jobs = release_workflow_lease db.jobs job_id token }

module _ (out : Outside) where
  -- `_assert_not_paused`
  unfoldable pub assert_not_paused : Exec (Unit {0})
  assert_not_paused = do
    paused ← ask (λ n. ok (out.is_paused n))
    if paused then raise Error.replacement_deferred_error else pure tt
