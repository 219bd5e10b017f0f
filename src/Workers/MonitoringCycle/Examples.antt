-- ===== src/Workers/MonitoringCycle/Examples.antt =====
-- Checks of a node that answers, of one that does not, and of an answer that cannot be read.
use aso_node_recovery.Runtime
use aso_node_recovery.Workers.MonitoringCycle
use aso_node_recovery.Prelude.{
  [], arith, get, length, none, put, refl, some, sym, ◌+◌, ◌∙◌, ◌∷◌, ◌≡◌,
}
use aso_node_recovery.Errors.{Error, err, ok}
use aso_node_recovery.Models.NodeEnums.{NodeState}
use aso_node_recovery.Monitoring.Client.{CheckHost}
use aso_node_recovery.Monitoring.Health.{apply, apply_checked, apply_reachable}
use aso_node_recovery.Monitoring.Leases.{
  acquire_node, release_monitoring_lease, release_node, try_acquire_monitoring_lease,
}
use aso_node_recovery.Monitoring.Probes.{CheckHostSummary, ProbeStatus, count_status, evaluate}
use aso_node_recovery.Replacement.Access.{utc_now}
use aso_node_recovery.Replacement.SampleWorld.{
  jobless_db, plain_node, plain_outside, plain_settings,
}
use aso_node_recovery.Replacement.Workflow.{try_finally}
use aso_node_recovery.Runtime.{World, session, try_catch}
use aso_node_recovery.Workers.MonitoringCycle.{MonitoringCycleResult}
use aso_node_recovery.Workers.MonitoringCycle.Careful.{run_node-Unharmed}
use aso_node_recovery.Workers.MonitoringCycle.Check.{
  CheckStatus, acquire_check, add_check, add_node_event, check_and_persist, guarded_check,
  leased_check, persist_adapter_error, persist_check, run_node,
}
use aso_node_recovery.Workers.MonitoringCycle.Counts.{listed, run_cycle-counts}
use aso_node_recovery.Workers.MonitoringCycle.Quiet.{run_cycle-observes}
use aso_node_recovery.Workers.MonitoringCycle.Unharmed.{Keyed, Unharmed, health_of}
use aso_node_recovery.Workers.MonitoringCycle.Untouched.{Untouched}

abbrev watched_world : World
watched_world = record {
  db = record jobless_db {
    nodes = put jobless_db.nodes 1 (record plain_node { state = NodeState.failed });
  };
  effects = [];
  calls = 0;
}

abbrev summary_of : ProbeStatus → CheckHostSummary
summary_of status = record {
  request_id = "r1";
  target = "198.51.100.7:2053";
  probes = record { node = "ir1"; status = status } ∷ [];
}

abbrev answering : ProbeStatus → CheckHost
answering status = record {
  resolve_nodes = λ _. ok ("ir1" ∷ []);
  create_tcp_check =
      λ _ _ _ nodes. ok (record { request_id = "r1"; nodes = nodes; target = "198.51.100.7:2053" });
  poll_result = λ _ _. ok (summary_of status);
}

abbrev silent : CheckHost
silent = record (answering ProbeStatus.success) {
  create_tcp_check = λ _ _ _ _. err Error.check_host_error;
}

run_cycle-counts_example :
    (r : MonitoringCycleResult) × ((MonitoringCycle.run_cycle plain_outside
        (answering ProbeStatus.success)
        plain_settings
        watched_world).0
      ≡ ok r)
    × (r.checked_nodes + r.skipped_nodes + r.error_nodes
        ≡ length
            (listed plain_outside (answering ProbeStatus.success) plain_settings watched_world))
    × (r.total_nodes
        ≡ length
            (listed plain_outside (answering ProbeStatus.success) plain_settings watched_world))
run_cycle-counts_example =
    run_cycle-counts plain_outside (answering ProbeStatus.success) plain_settings
      (λ n e h. absurd (cc h)) watched_world

run_cycle-observes_example :
    let w' : World =
      (MonitoringCycle.run_cycle plain_outside
        (answering ProbeStatus.failure)
        plain_settings
        watched_world).1 in
    (w'.effects ≡ []) × Untouched watched_world.db w'.db
run_cycle-observes_example =
    run_cycle-observes plain_outside (answering ProbeStatus.failure) plain_settings watched_world

keyed : Keyed watched_world.db.nodes
keyed k node h = ground arith

one_check :
    (run_node plain_outside silent plain_settings 1 none watched_world).0 ≡ ok CheckStatus.error
unfolding run_node leased_check acquire_check try_acquire_monitoring_lease acquire_node
    guarded_check check_and_persist persist_adapter_error try_finally try_catch session utc_now
    add_check add_node_event Runtime.◌>>=◌
one_check = refl

run_node-Unharmed_example :
    Unharmed watched_world.db
      (run_node plain_outside silent plain_settings 1 none watched_world).1.db
run_node-Unharmed_example =
    run_node-Unharmed plain_outside silent plain_settings 1 none watched_world keyed
      (λ e. absurd (cc (sym one_check ∙ e)))

a_reachable_node_is_counted :
    health_of (
      get
        (run_node plain_outside
          (answering ProbeStatus.success)
          plain_settings
          1
          none
          watched_world).1.db.nodes
        1)
    ≡ some (NodeState.failed, 0, 1, some 1006)
unfolding run_node leased_check acquire_check try_acquire_monitoring_lease acquire_node
    guarded_check check_and_persist persist_check try_finally try_catch session utc_now apply
    apply_checked apply_reachable evaluate count_status add_check release_monitoring_lease
    release_node Runtime.◌>>=◌
a_reachable_node_is_counted = refl
