-- ===== src/Control/Sound.antt =====
-- The actions of the operators, on the jobs and on the registry, keep every job sound.
use aso_node_recovery.Workers.MonitoringCycle
use aso_node_recovery.Prelude.{Bool, List, Option, String, refl, ℕ, ◌≤◌}
use aso_node_recovery.Control.{
  add_operator_event, audit, cancel_job, manual_check, resume_job, set_node_operation_mode,
  set_provider_active, store_mode, trigger_force_repair, trigger_replacement,
}
use aso_node_recovery.Models.EventEnums.{EventSeverity, EventType}
use aso_node_recovery.Models.NodeEnums.{NodeOperationMode}
use aso_node_recovery.Monitoring.Client.{CheckHost}
use aso_node_recovery.Outside.{Outside}
use aso_node_recovery.Registry.Management.Sound.{row_writes}
use aso_node_recovery.Replacement.Access.{utc_now}
use aso_node_recovery.Replacement.Sound.{AllSound}
use aso_node_recovery.Replacement.Sound.Actions.{AllSound-jobs, reads}
use aso_node_recovery.Replacement.Sound.Workflow.{Preserves-cancel, Preserves-resume}
use aso_node_recovery.Replacement.Trigger.Admission.{Preserves-trigger}
use aso_node_recovery.Runtime.Preserves.{Preserves, Preserves-ask, Preserves-bind, Preserves-modify}
use aso_node_recovery.Settings.{Settings}
use aso_node_recovery.Workers.MonitoringCycle.Check.{run_node}
use aso_node_recovery.Workers.MonitoringCycle.Untouched.{
  Untouched-run_cycle, Untouched-run_node, unchanged,
}
use aso_node_recovery.Workers.RepairCycle.{resume_with_new_token}

module _ (out : Outside) where
  Preserves-add_operator_event :
      (node_id job_id : Option ℕ) (event_type : EventType) (severity : EventSeverity)
      (message : String)
      → Preserves AllSound (add_operator_event out node_id job_id event_type severity message)
  unfolding add_operator_event utc_now
  Preserves-add_operator_event node_id job_id event_type severity message =
      Preserves-bind _ _ (Preserves-ask _)
        (λ now. Preserves-modify _ (λ db i. AllSound-jobs db _ refl i))

  Preserves-audit :
      (message : String) (node_id job_id : Option ℕ)
      → Preserves AllSound (audit out message node_id job_id)
  unfolding audit
  Preserves-audit message node_id job_id = search (reads, Preserves-add_operator_event)

  pub Preserves-set_provider_active :
      (id : ℕ) (active : Bool) → Preserves AllSound (set_provider_active out id active)
  unfolding set_provider_active
  Preserves-set_provider_active id active =
      search (row_writes, Preserves-add_operator_event) depth 20

  pub Preserves-set_node_operation_mode :
      (id : ℕ) (mode : NodeOperationMode) → Preserves AllSound (set_node_operation_mode out id mode)
  unfolding set_node_operation_mode store_mode utc_now
  Preserves-set_node_operation_mode id mode =
      search (row_writes, Preserves-add_operator_event) depth 20

  module _ (settings : Settings) (attempts : 1 ≤ settings.max_replacement_attempts) where
    pub Preserves-trigger_replacement :
        (id : ℕ) → Preserves AllSound (trigger_replacement out settings id)
    unfolding trigger_replacement
    Preserves-trigger_replacement id =
        search (reads, Preserves-trigger, Preserves-audit, attempts) depth 20

    pub Preserves-trigger_force_repair :
        (id : ℕ) (key : String) → Preserves AllSound (trigger_force_repair out settings id key)
    unfolding trigger_force_repair
    Preserves-trigger_force_repair id key =
        search (reads, Preserves-trigger, Preserves-audit, attempts) depth 20

  module _ (settings : Settings) where
    pub Preserves-resume_job : (id : ℕ) → Preserves AllSound (resume_job out settings id)
    unfolding resume_job resume_with_new_token
    Preserves-resume_job id = search (reads, Preserves-resume, Preserves-audit) depth 20

    pub Preserves-cancel_job : (id : ℕ) → Preserves AllSound (cancel_job out settings id)
    unfolding cancel_job
    Preserves-cancel_job id = search (reads, Preserves-cancel, Preserves-audit) depth 20

    Preserves-run_node :
        (client : CheckHost) (id : ℕ) (nodes : Option (List String))
        → Preserves AllSound (run_node out client settings id nodes)
    Preserves-run_node client id nodes = record {
      leads = λ w i.
          AllSound-jobs w.db _
            ((Untouched-run_node out client settings w.db id nodes).leads w (unchanged w.db)).jobs
            i;
    }

    pub Preserves-manual_check :
        (client : CheckHost) (id : ℕ) → Preserves AllSound (manual_check out settings client id)
    unfolding manual_check
    Preserves-manual_check client id = search (reads, Preserves-run_node, Preserves-audit) depth 20

    pub Preserves-monitoring_cycle :
        (client : CheckHost) → Preserves AllSound (MonitoringCycle.run_cycle out client settings)
    Preserves-monitoring_cycle client = record {
      leads = λ w i.
          AllSound-jobs w.db _
            ((Untouched-run_cycle out client settings w.db).leads w (unchanged w.db)).jobs i;
    }
