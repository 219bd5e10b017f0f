-- ===== src/Deployment/Service.antt =====
-- app/deployment/service.py: `DeploymentService.deploy`. The methods share the deployment row as an
-- object, which keeps its changes when an exception is raised; so a step of `deploy` takes the row
-- and gives it back, beside its result. `on_transition` persists the row and renews the lease.
pub mod Lawful
pub mod Simulation
use aso_node_recovery.Deployment.Progress
use aso_node_recovery.Prelude.{
  Bool, List, String, [], false, if◌then◌else◌, nat_eq, not, some, string_eq, true, ℕ, ◌==◌, ◌||◌,
  ◌∷◌,
}
use aso_node_recovery.Deployment.Progress.{is_over}
use aso_node_recovery.Errors.{Error, Result, err, is_ok, ok}
use aso_node_recovery.Models.EventEnums.{
  event_severity_eq, node_check_outcome_eq, replacement_trigger_mode_eq,
  secret_reference_backend_eq,
}
use aso_node_recovery.Models.JobEnums.{replacement_checkpoint_eq, replacement_job_state_eq}
use aso_node_recovery.Models.NodeEnums.{
  DeploymentState, deployment_state_eq, node_operation_mode_eq, node_state_eq, provider_type_eq,
  ssh_auth_method_eq, vps_instance_role_eq, vps_instance_state_eq,
}
use aso_node_recovery.Models.Rows.{Deployment}
use aso_node_recovery.Outside.{Outside, ThreeXUiConfig}
use aso_node_recovery.Runtime.{Effect, Exec, World, ask, call}
use aso_node_recovery.Settings.{Settings}

-- The row, and the local flag `installation_may_exist`.
pub record Attempt : Type 0 where
  pub row : Deployment
  pub installation_may_exist : Bool

abbrev pub Flow : Type 0 → Type 0
Flow A = Attempt → World → (Result A × Attempt) × World

abbrev pub flow_continue :
    {A B : Type 0} → Result A → Attempt → World → (A → Flow B) → (Result B × Attempt) × World
flow_continue (ok a) d w f = f a d w
flow_continue (err e) d w f = ((err e, d), w)

infixl 5 ◌>>=◌ ◌>>◌
unfoldable pub ◌>>=◌ : {A B : Type 0} → Flow A → (A → Flow B) → Flow B
◌>>=◌ m f d w = let (rd, w') = m d w in flow_continue rd.0 rd.1 w' f

abbrev pub ◌>>◌ : {A B : Type 0} → Flow A → Flow B → Flow B
m >> n = m >>= λ _. n

abbrev pub done : {A : Type 0} → A → Flow A
done a d w = ((ok a, d), w)

abbrev pub fault : {A : Type 0} → Error → Flow A
fault e d w = ((err e, d), w)

-- The object itself.
abbrev pub current : Flow Deployment
current d w = ((ok d.row, d), w)

-- A method that does not touch the row.
abbrev pub perform : {A : Type 0} → Exec A → Flow A
perform m d w = let (r, w') = m w in ((r, d), w')

-- A question to the remote host.
abbrev pub inquire : {A : Type 0} → (ℕ → Result A) → Flow A
inquire question = perform (ask question)

-- `try: ... except Exception:` with the exception at hand
abbrev pub caught :
    {A : Type 0} → (Result A × Attempt) × World → (Error → Flow A) → (Result A × Attempt) × World
caught ((ok a, d), w) handler = ((ok a, d), w)
caught ((err e, d), w) handler = handler e d w

abbrev pub may_exist : DeploymentState → Bool
may_exist DeploymentState.installing = true
may_exist DeploymentState.verifying = true
may_exist DeploymentState.succeeded = true
may_exist _ = false

-- `_dry_run_config`, with the URL `http://{public_host}:2053/dry-run-panel` for a text
abbrev pub dry_run_config : String → ThreeXUiConfig
dry_run_config access_url = record {
  username = "dry-run-admin";
  password = "dry-run-panel-password";
  panel_port = 2053;
  web_base_path = "dry-run-panel";
  access_url = access_url;
  api_token = "dry-run-node-api-token";
  db_type = "sqlite";
}

-- `remaining` of `_simulate_success`
abbrev pub remaining_states : DeploymentState → List DeploymentState
remaining_states DeploymentState.pending =
    DeploymentState.waiting_ssh ∷ DeploymentState.bootstrapping ∷ DeploymentState.installing
    ∷ DeploymentState.verifying ∷ DeploymentState.succeeded ∷ []
remaining_states DeploymentState.waiting_ssh =
    DeploymentState.bootstrapping ∷ DeploymentState.installing ∷ DeploymentState.verifying
    ∷ DeploymentState.succeeded ∷ []
remaining_states DeploymentState.bootstrapping =
    DeploymentState.installing ∷ DeploymentState.verifying ∷ DeploymentState.succeeded ∷ []
remaining_states DeploymentState.installing =
    DeploymentState.verifying ∷ DeploymentState.succeeded ∷ []
remaining_states DeploymentState.verifying = DeploymentState.succeeded ∷ []
remaining_states DeploymentState.succeeded = []
remaining_states DeploymentState.failed = []

module _ (out : Outside) (settings : Settings) (on_transition : Deployment → Exec (Unit {0})) where
  -- The state machine's assignment to the row; a refused transition leaves it.
  abbrev pub assign : Result Deployment → Flow (Unit {0})
  assign (ok moved) d w = ((ok tt, record d { row = moved }), w)
  assign (err e) d w = ((err e, d), w)

  -- `on_transition(deployment)`
  abbrev pub persist : Flow (Unit {0})
  persist = do d ← current; perform (on_transition d)

  -- `_transition`
  unfoldable pub step_to : DeploymentState → Flow (Unit {0})
  step_to target = do
    now ← inquire (λ n. ok (out.now n))
    d ← current
    assign (Progress.transition now d target)
    persist

  unfoldable pub steps_to : List DeploymentState → Flow (Unit {0})
  steps_to [] = done tt
  steps_to (target ∷ targets) = do step_to target; steps_to targets

  -- `_simulate_success`
  unfoldable pub simulate_success : Flow (Unit {0})
  simulate_success = do
    d ← current
    if d.state == DeploymentState.failed
        then fault Error.runtime_error
        else steps_to (remaining_states d.state)

  -- `if deployment.state is from: work, then _transition(target)`
  abbrev pub phase : DeploymentState → DeploymentState → Flow (Unit {0}) → Flow (Unit {0})
  phase from target work = do
    d ← current
    if d.state == from then (do work; step_to target) else done tt

  abbrev pub bootstrap_host : String → Flow (Unit {0})
  bootstrap_host host = do
    perform (call (Effect.bootstrap host))
    inquire (λ n. out.bootstrap n host)

  -- `installation_may_exist = True`
  abbrev pub mark_existing : Flow (Unit {0})
  mark_existing d w = ((ok tt, record d { installation_may_exist = true }), w)

  -- An installation that verifies is not installed again.
  abbrev pub installed_already : Result (Unit {0}) → Result Bool
  installed_already r = ok (is_ok r)

  abbrev pub install_host : String → Flow (Unit {0})
  install_host host = do
    mark_existing
    already ← inquire (λ n. installed_already (out.verify_installation n host))
    if already
        then done tt
        else do perform (call (Effect.install host)); inquire (λ n. out.install n host)

  abbrev pub finish : String → Flow ThreeXUiConfig
  finish host = do
    d ← current
    if d.state == DeploymentState.verifying || d.state == DeploymentState.succeeded
        then (do
          inquire (λ n. out.verify_installation n host)
          config ← inquire (λ n. out.read_configuration n host)
          inquire (λ n. out.verify_api n config)
          phase DeploymentState.verifying DeploymentState.succeeded (done tt)
          done config)
        else fault Error.runtime_error

  -- The `try` block of `deploy`.
  unfoldable pub deploy_phases : String → Flow ThreeXUiConfig
  deploy_phases host = do
    phase DeploymentState.pending DeploymentState.waiting_ssh (done tt)
    phase DeploymentState.waiting_ssh DeploymentState.bootstrapping
        (inquire (λ n. out.wait_ssh n host))
    phase DeploymentState.bootstrapping DeploymentState.installing (bootstrap_host host)
    phase DeploymentState.installing DeploymentState.verifying (install_host host)
    finish host

  abbrev pub swallow : Result (Unit {0}) → Result (Unit {0})
  swallow r = ok tt

  abbrev pub set_error : Error → Flow (Unit {0})
  set_error e d w = ((ok tt, record d { row = record d.row { error_code = some e } }), w)

  -- The rollback of an installation that may exist; its own failure is ignored.
  abbrev pub undo : String → Bool → Flow (Unit {0})
  undo host false = done tt
  undo host true = do
    perform (call (Effect.rollback host))
    inquire (λ n. swallow (out.rollback n host))

  abbrev pub flag : Flow Bool
  flag d w = ((ok d.installation_may_exist, d), w)

  -- The `except` block.
  unfoldable pub deploy_failed : String → Error → Flow ThreeXUiConfig
  deploy_failed host e = do
    d ← current
    if is_over d.state then done tt else step_to DeploymentState.failed
    set_error e
    persist
    existing ← flag
    undo host existing
    fault e

  -- The dry run of `deploy`.
  abbrev pub simulated_deploy : ThreeXUiConfig → Flow ThreeXUiConfig
  simulated_deploy config = do simulate_success; done config

  -- The `try` of `deploy` with its `except`.
  abbrev pub guarded_phases : String → Flow ThreeXUiConfig
  guarded_phases host d w = caught (deploy_phases host d w) (deploy_failed host)

  -- `deploy`, with the text of the dry run's URL given
  unfoldable pub deploy : String → String → Bool → Flow ThreeXUiConfig
  deploy host dry_run_url dry_run =
      if settings.dry_run || dry_run
      then simulated_deploy (dry_run_config dry_run_url)
      else if not settings.allow_real_infrastructure_mutation
      then fault Error.safety_violation_error
      else if settings.replacement_emergency_stop
      then fault Error.safety_violation_error
      else guarded_phases host

-- A call of `deploy` on a row.
abbrev pub new_attempt : Deployment → Attempt
new_attempt row = record { row = row; installation_may_exist = may_exist row.state }
