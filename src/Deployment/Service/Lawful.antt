-- ===== src/Deployment/Service/Lawful.antt =====
-- Invariants of the database through `DeploymentService.deploy`: what the callback keeps, the whole
-- deployment keeps, on the error paths too.
use aso_node_recovery.Prelude.{Bool, List, String, [], false, if◌then◌else◌, true, ◌∷◌}
use aso_node_recovery.Deployment.Service.{
  Attempt, Flow, assign, caught, current, deploy, deploy_failed, deploy_phases, done, fault, flag,
  flow_continue, guarded_phases, mark_existing, perform, set_error, simulate_success, step_to,
  steps_to, undo, ◌>>=◌,
}
use aso_node_recovery.Errors.{Error, Result, err, ok}
use aso_node_recovery.Models.NodeEnums.{DeploymentState}
use aso_node_recovery.Models.Rows.{Deployment}
use aso_node_recovery.Outside.{Outside, ThreeXUiConfig}
use aso_node_recovery.Runtime.{Db, Exec, World}
use aso_node_recovery.Runtime.Preserves.{Preserves, Preserves-ask, Preserves-call}
use aso_node_recovery.Settings.{Settings}

-- Whether `m` returns or raises, it leads from a database that satisfies `J` to one that does.
pub record FlowPreserves {A : Type 0} (J : Db → Type 0) (m : Flow A) : Type 0 where
  pub leads : (d : Attempt) (w : World) → J w.db → J (m d w).1.db

module _ {A : Type 0} {J : Db → Type 0} where
  FlowPreserves-done : (a : A) → FlowPreserves J (done a)
  FlowPreserves-done a = record { leads = λ d w i. i }

  FlowPreserves-fault : (e : Error) → FlowPreserves J (fault {A = A} e)
  FlowPreserves-fault e = record { leads = λ d w i. i }

  FlowPreserves-perform : (m : Exec A) → Preserves J m → FlowPreserves J (perform m)
  FlowPreserves-perform m keeps = record { leads = λ d w i. keeps.leads w i }

  FlowPreserves-if :
      (b : Bool) (m n : Flow A)
      → FlowPreserves J m
      → FlowPreserves J n
      → FlowPreserves J (if b then m else n)
  FlowPreserves-if true m n keeps_m keeps_n = keeps_m
  FlowPreserves-if false m n keeps_m keeps_n = keeps_n

module _ {A B : Type 0} {J : Db → Type 0} where
  flow_rest :
      (r : Result A) (d : Attempt) (w : World) (f : A → Flow B)
      → J w.db
      → ((a : A) → FlowPreserves J (f a))
      → J (flow_continue r d w f).1.db
  flow_rest (ok a) d w f i keeps = (keeps a).leads d w i
  flow_rest (err e) d w f i keeps = i

  FlowPreserves-bind :
      (m : Flow A) (f : A → Flow B)
      → FlowPreserves J m
      → ((a : A) → FlowPreserves J (f a))
      → FlowPreserves J (m >>= f)
  unfolding ◌>>=◌
  FlowPreserves-bind m f keeps_m keeps_f = record {
    leads = λ d w i. flow_rest (m d w).0.0 (m d w).0.1 (m d w).1 f (keeps_m.leads d w i) keeps_f;
  }

module _ {J : Db → Type 0} where
  FlowPreserves-current : FlowPreserves J current
  FlowPreserves-current = record { leads = λ d w i. i }

module _ (out : Outside) (settings : Settings) (persist_row : Deployment → Exec (Unit {0}))
    (J : Db → Type 0) (keeps : (d : Deployment) → Preserves J (persist_row d)) where
  FlowPreserves-assign :
      (r : Result Deployment) → FlowPreserves J (assign out settings persist_row r)
  FlowPreserves-assign (ok d) = record { leads = λ _ w i. i }
  FlowPreserves-assign (err e) = record { leads = λ _ w i. i }

  FlowPreserves-flag : FlowPreserves J (flag out settings persist_row)
  FlowPreserves-flag = record { leads = λ _ w i. i }

  FlowPreserves-mark_existing : FlowPreserves J (mark_existing out settings persist_row)
  FlowPreserves-mark_existing = record { leads = λ _ w i. i }

  FlowPreserves-set_error : (e : Error) → FlowPreserves J (set_error out settings persist_row e)
  FlowPreserves-set_error e = record { leads = λ _ w i. i }

  ruleset flow_rules = (
    FlowPreserves-done, FlowPreserves-fault, FlowPreserves-perform, FlowPreserves-if,
    FlowPreserves-bind, FlowPreserves-current, FlowPreserves-flag, FlowPreserves-assign,
    FlowPreserves-mark_existing, FlowPreserves-set_error, Preserves-ask, Preserves-call,
  )

  FlowPreserves-step_to :
      (target : DeploymentState) → FlowPreserves J (step_to out settings persist_row target)
  unfolding step_to
  FlowPreserves-step_to target = search (flow_rules, keeps) depth 20

  FlowPreserves-steps_to :
      (targets : List DeploymentState) → FlowPreserves J (steps_to out settings persist_row targets)
  unfolding steps_to
  FlowPreserves-steps_to [] = FlowPreserves-done tt
  FlowPreserves-steps_to (target ∷ targets) =
      FlowPreserves-bind _ _ (FlowPreserves-step_to target) λ _. FlowPreserves-steps_to targets

  FlowPreserves-simulate_success : FlowPreserves J (simulate_success out settings persist_row)
  unfolding simulate_success
  FlowPreserves-simulate_success = search (flow_rules, FlowPreserves-steps_to) depth 20

  FlowPreserves-deploy_phases :
      (host : String) → FlowPreserves J (deploy_phases out settings persist_row host)
  unfolding deploy_phases
  FlowPreserves-deploy_phases host = search (flow_rules, FlowPreserves-step_to) depth 40

  FlowPreserves-undo :
      (host : String) (existing : Bool)
      → FlowPreserves J (undo out settings persist_row host existing)
  FlowPreserves-undo host true = search flow_rules depth 20
  FlowPreserves-undo host false = FlowPreserves-done tt

  FlowPreserves-deploy_failed :
      (host : String) (e : Error) → FlowPreserves J (deploy_failed out settings persist_row host e)
  unfolding deploy_failed
  FlowPreserves-deploy_failed host e =
      search (flow_rules, keeps, FlowPreserves-step_to, FlowPreserves-undo) depth 30

  caught_leads :
      (host : String) (r : Result ThreeXUiConfig) (d : Attempt) (w : World)
      → J w.db
      → J (caught ((r, d), w) (deploy_failed out settings persist_row host)).1.db
  caught_leads host (ok config) d w i = i
  caught_leads host (err e) d w i = (FlowPreserves-deploy_failed host e).leads d w i

  FlowPreserves-guarded_phases :
      (host : String) → FlowPreserves J (guarded_phases out settings persist_row host)
  FlowPreserves-guarded_phases host = record {
    leads = λ d w i.
        let tried = deploy_phases out settings persist_row host d w in
        caught_leads host tried.0.0 tried.0.1 tried.1
          ((FlowPreserves-deploy_phases host).leads d w i);
  }

  -- The callback's invariant is the deployment's.
  pub FlowPreserves-deploy :
      (host dry_run_url : String) (dry_run : Bool)
      → FlowPreserves J (deploy out settings persist_row host dry_run_url dry_run)
  unfolding deploy
  FlowPreserves-deploy host dry_run_url dry_run =
      search (flow_rules, FlowPreserves-simulate_success, FlowPreserves-guarded_phases) depth 20
