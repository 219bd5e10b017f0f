-- ===== src/System.antt =====
-- The whole service as a sequence of calls, as the process of app/main.py makes them: the cycles of
-- its two workers, and what the operators ask for by the control service and the registry, in any
-- order. Calls that overlap in time are not modelled; what one leaves half-done by raising is.
mod Examples
use aso_node_recovery.Workers.MonitoringCycle
use aso_node_recovery.Workers.RepairCycle
use aso_node_recovery.Prelude.{Bool, List, String, [], ℕ, ◌∷◌, ◌≤◌}
use aso_node_recovery.Control.{
  cancel_job, manual_check, resume_job, set_node_operation_mode, set_provider_active,
  trigger_force_repair, trigger_replacement,
}
use aso_node_recovery.Control.Sound.{
  Preserves-cancel_job, Preserves-manual_check, Preserves-monitoring_cycle, Preserves-resume_job,
  Preserves-set_node_operation_mode, Preserves-set_provider_active, Preserves-trigger_force_repair,
  Preserves-trigger_replacement,
}
use aso_node_recovery.Models.NodeEnums.{NodeOperationMode}
use aso_node_recovery.Monitoring.Client.{CheckHost}
use aso_node_recovery.Outside.{Outside}
use aso_node_recovery.Registry.Management.History.{Operation, operate}
use aso_node_recovery.Registry.Management.Sound.{Preserves-operate}
use aso_node_recovery.Replacement.Sound.{AllSound}
use aso_node_recovery.Runtime.{Exec, World}
use aso_node_recovery.Settings.{Settings}
use aso_node_recovery.Workers.RepairCycle.Sound.{Preserves-run_cycle}

pub data Step : Type 0 where
  monitor_all repair_all : Step
  check_now replace_node go_on give_up : ℕ → Step
  force_repair : ℕ → String → Step
  switch_provider : ℕ → Bool → Step
  switch_mode : ℕ → NodeOperationMode → Step
  change_registry : Operation → Step

module _ (out : Outside) (client : CheckHost) (settings : Settings) where
  -- The database, the calls and the clock after a call; its result goes to its caller.
  abbrev pub after : {A : Type 0} → Exec A → World → World
  after m w = (m w).1

  abbrev pub take_step : Step → World → World
  take_step Step.monitor_all = after (MonitoringCycle.run_cycle out client settings)
  take_step Step.repair_all = after (RepairCycle.run_cycle out settings)
  take_step (Step.check_now id) = after (manual_check out settings client id)
  take_step (Step.replace_node id) = after (trigger_replacement out settings id)
  take_step (Step.go_on id) = after (resume_job out settings id)
  take_step (Step.give_up id) = after (cancel_job out settings id)
  take_step (Step.force_repair id key) = after (trigger_force_repair out settings id key)
  take_step (Step.switch_provider id active) = after (set_provider_active out id active)
  take_step (Step.switch_mode id mode) = after (set_node_operation_mode out id mode)
  take_step (Step.change_registry operation) = after (operate out operation)

  unfoldable pub take_steps : List Step → World → World
  take_steps [] w = w
  take_steps (step ∷ steps) w = take_steps steps (take_step step w)

  module _ (attempts : 1 ≤ settings.max_replacement_attempts) where
    step-AllSound : (step : Step) (w : World) → AllSound w.db → AllSound (take_step step w).db
    step-AllSound Step.monitor_all = (Preserves-monitoring_cycle out settings client).leads
    step-AllSound Step.repair_all = (Preserves-run_cycle out settings attempts).leads
    step-AllSound (Step.check_now id) = (Preserves-manual_check out settings client id).leads
    step-AllSound (Step.replace_node id) =
        (Preserves-trigger_replacement out settings attempts id).leads
    step-AllSound (Step.go_on id) = (Preserves-resume_job out settings id).leads
    step-AllSound (Step.give_up id) = (Preserves-cancel_job out settings id).leads
    step-AllSound (Step.force_repair id key) =
        (Preserves-trigger_force_repair out settings attempts id key).leads
    step-AllSound (Step.switch_provider id active) =
        (Preserves-set_provider_active out id active).leads
    step-AllSound (Step.switch_mode id mode) = (Preserves-set_node_operation_mode out id mode).leads
    step-AllSound (Step.change_registry operation) = (Preserves-operate out operation).leads

    -- The two workers, the operators and the changes of the registry, in whatever order their calls
    -- come and whatever is answered to them, leave every replacement job sound: each durable marker
    -- is set once the checkpoint is past the step that sets it, state, slot and times agree with the
    -- checkpoint, and the attempts stay within their bound. A call may return, defer or raise. It
    -- assumes that the jobs were sound before, and that the settings allow an attempt.
    pub take_steps-AllSound :
        (steps : List Step) (w : World) → AllSound w.db → AllSound (take_steps steps w).db
    unfolding take_steps
    take_steps-AllSound [] w i = i
    take_steps-AllSound (step ∷ steps) w i = take_steps-AllSound steps _ (step-AllSound step w i)
