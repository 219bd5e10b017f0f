-- ===== src/Deployment/Service/Simulation.antt =====
-- A dry run of `DeploymentService.deploy` always ends.
use mathlib.Core.Path.{subst}
use aso_node_recovery.Deployment.Progress
use aso_node_recovery.Deployment.Service
use aso_node_recovery.Prelude.{
  Bool, List, [], arith, contains, false, inl, inr, nat_eq, refl, string_eq, true, ◌&&◌, ◌+◌, ◌==◌,
  ◌∷◌, ◌≡◌,
}
use aso_node_recovery.Deployment.Progress.{allowed_states, progress_to}
use aso_node_recovery.Deployment.Service.{
  Attempt, done, remaining_states, simulate_success, step_to, steps_to,
}
use aso_node_recovery.Errors.{Result, Result-cases, err, ok}
use aso_node_recovery.Models.EventEnums.{
  event_severity_eq, node_check_outcome_eq, replacement_trigger_mode_eq,
  secret_reference_backend_eq,
}
use aso_node_recovery.Models.JobEnums.{replacement_checkpoint_eq, replacement_job_state_eq}
use aso_node_recovery.Models.NodeEnums.{
  DeploymentState, deployment_state_eq, node_operation_mode_eq, node_state_eq, provider_type_eq,
  ssh_auth_method_eq, vps_instance_role_eq, vps_instance_state_eq,
}
use aso_node_recovery.Models.Rows.{Deployment}
use aso_node_recovery.Outside.{Outside}
use aso_node_recovery.Runtime.{Exec, World, ask}
use aso_node_recovery.Settings.{Settings}

-- Each state of the list may follow the one before it.
is_path : DeploymentState → List DeploymentState → Bool
is_path state [] = true
is_path state (target ∷ targets) = contains (allowed_states state) target && is_path target targets

end_of : DeploymentState → List DeploymentState → DeploymentState
end_of state [] = state
end_of state (target ∷ targets) = end_of target targets

remaining_path : (s : DeploymentState) → is_path s (remaining_states s) ≡ true
unfolding is_path
remaining_path DeploymentState.pending = refl
remaining_path DeploymentState.waiting_ssh = refl
remaining_path DeploymentState.bootstrapping = refl
remaining_path DeploymentState.installing = refl
remaining_path DeploymentState.verifying = refl
remaining_path DeploymentState.succeeded = refl
remaining_path DeploymentState.failed = refl

remaining_end :
    (s : DeploymentState)
    → (s == DeploymentState.failed) ≡ false
    → end_of s (remaining_states s) ≡ DeploymentState.succeeded
unfolding end_of
remaining_end DeploymentState.pending live = refl
remaining_end DeploymentState.waiting_ssh live = refl
remaining_end DeploymentState.bootstrapping live = refl
remaining_end DeploymentState.installing live = refl
remaining_end DeploymentState.verifying live = refl
remaining_end DeploymentState.succeeded live = refl
remaining_end DeploymentState.failed live = absurd (ground arith)

and_left : (a b : Bool) → (a && b) ≡ true → a ≡ true
and_left a b h = ground arith

and_right : (a b : Bool) → (a && b) ≡ true → b ≡ true
and_right a b h = ground arith

module _ (state target : DeploymentState) (targets : List DeploymentState)
    (path : is_path state (target ∷ targets) ≡ true) where
  path_head : contains (allowed_states state) target ≡ true
  unfolding is_path
  path_head = and_left _ _ path

  path_tail : is_path target targets ≡ true
  unfolding is_path
  path_tail = and_right _ _ path

module _ (out : Outside) (settings : Settings) (persist_row : Deployment → Exec (Unit {0})) where
  -- What is left after a run of steps: no error and the row in the state `s`, or an error with which
  -- the callback refused the row.
  abbrev EndsIn : DeploymentState → Result (Unit {0}) × Attempt → Type 0
  EndsIn s (ok done, d) = d.row.state ≡ s
  EndsIn s (err e, d) = (w : World) × ((persist_row d.row w).0 ≡ err e)

  abbrev pub DoneOrRaised : Result (Unit {0}) × Attempt → Type 0
  DoneOrRaised = EndsIn DeploymentState.succeeded

  steps_to-ends :
      (targets : List DeploymentState) (d : Attempt) (w : World)
      → is_path d.row.state targets ≡ true
      → EndsIn (end_of d.row.state targets) (steps_to out settings persist_row targets d w).0
  unfolding steps_to is_path end_of step_to Progress.transition ask Service.◌>>=◌
  steps_to-ends [] d w path = refl
  steps_to-ends (target ∷ targets) d w path =
      let d' = record d { row = progress_to d.row target (out.now w.calls) } in
      let w1 = record w { calls = w.calls + 1 } in
      let step = path_head d.row.state target targets path in
      elim (Result-cases (persist_row d'.row w1).0) [
        | inl (done, e) ↦
            simp (step, e)
              (steps_to-ends targets d' (persist_row d'.row w1).1
                (path_tail d.row.state target targets path))
        | inr (x, raised) ↦ simp (step, raised) (w1, raised)
      ]

  -- The simulation of a dry run ends, whatever was done before and whatever the callback that
  -- persists the row does, from every state but FAILED: it returns with the row in the state
  -- SUCCEEDED, or it raises what the callback raised for the row that is left.
  pub simulate_success-ends :
      (d : Attempt) (w : World)
      → (d.row.state == DeploymentState.failed) ≡ false
      → DoneOrRaised (simulate_success out settings persist_row d w).0
  unfolding simulate_success Service.◌>>=◌
  simulate_success-ends d w live =
      let ends = steps_to-ends (remaining_states d.row.state) d w (remaining_path d.row.state) in
      simp live (
        subst
          (λ s. EndsIn s (steps_to out settings persist_row (remaining_states d.row.state) d w).0)
          (remaining_end d.row.state live) ends)
