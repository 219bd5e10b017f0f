-- ===== src/Monitoring/Examples.antt =====
-- Checks of sample nodes.
use aso_node_recovery.NodeLifecycle
use aso_node_recovery.Prelude.{
  List, String, Table, [], arith, eqb, false, get, if◌then◌else◌, none, put, refl, some, str_eq,
  true, ℕ, ◌+◌, ◌↔◌, ◌∷◌, ◌≡◌, ◌≢◌, ◌≤◌, ◌⊎◌,
}
use aso_node_recovery.Errors.{Error, err, is_ok, ok}
use aso_node_recovery.Models.NodeEnums.{NodeOperationMode, NodeState}
use aso_node_recovery.Models.Rows.{Node}
use aso_node_recovery.Monitoring.Health.{MonitoringPolicy, apply, apply_checked, apply_unreachable}
use aso_node_recovery.Monitoring.Health.Debounce.{
  apply_raises_iff, count_failed, failed_needs_failures, run_checks,
}
use aso_node_recovery.Monitoring.Leases.{
  acquire_node, release_monitoring_lease, release_node, try_acquire_monitoring_lease,
  with_monitoring_lease,
}
use aso_node_recovery.Monitoring.Leases.Once.{check-exclusive}
use aso_node_recovery.Monitoring.Probes.{
  CheckHostSummary, ProbeResult, ProbeStatus, RawEntry, RawResult, any_entry, count_status,
  evaluate, parse_node_result, parse_tcp_result,
}
use aso_node_recovery.Monitoring.Probes.Stable.{Later, Unheard, evaluate-Later}
use aso_node_recovery.Outside.{ReachabilityDecision}

abbrev policy : ℕ → MonitoringPolicy
policy threshold = record {
  failure_threshold = threshold;
  recovery_threshold = 2;
  min_success_nodes = 2;
}

abbrev watched : NodeState → Node
watched s = record {
  id = 1;
  name = "node-1";
  master_node_id = "7";
  provider_id = 1;
  current_host = "198.51.100.7";
  current_port = 2053;
  state = s;
  state_changed_at = 5;
  operation_mode = NodeOperationMode.auto_repair;
  monitoring_enabled = true;
  consecutive_failures = 0;
  consecutive_successes = 4;
  last_checked_at = none;
  last_successful_check_at = none;
  monitoring_lease_token = none;
  monitoring_lease_until = none;
}

-- A healthy node that fails a check under a threshold of 1.
apply_raises_iff_example :
    (is_ok (apply 9 (policy 1) (watched NodeState.healthy) ReachabilityDecision.unreachable none)
      ≡ false)
    ↔ (((watched NodeState.healthy).state ≡ NodeState.healthy)
        × (ReachabilityDecision.unreachable ≡ ReachabilityDecision.unreachable)
        × (1 ≤ (watched NodeState.healthy).consecutive_failures + 1))
apply_raises_iff_example =
    apply_raises_iff 9 (policy 1) (watched NodeState.healthy) ReachabilityDecision.unreachable

healthy_raises :
    apply 9 (policy 1) (watched NodeState.healthy) ReachabilityDecision.unreachable none
    ≡ err Error.invalid_node_state_transition_error
unfolding apply apply_checked apply_unreachable NodeLifecycle.transition
healthy_raises = refl

abbrev failed_twice : Node
failed_twice = record (watched NodeState.failed) {
  state_changed_at = 9;
  consecutive_failures = 2;
  consecutive_successes = 0;
  last_checked_at = some 9;
}

abbrev two_failures : List ReachabilityDecision
two_failures = ReachabilityDecision.unreachable ∷ ReachabilityDecision.unreachable ∷ []

failed_needs_failures_example :
    ((watched NodeState.healthy).state ≡ NodeState.failed)
    ⊎ (2 ≤ (watched NodeState.healthy).consecutive_failures + count_failed two_failures)
unfolding run_checks apply apply_checked apply_unreachable NodeLifecycle.transition
failed_needs_failures_example =
    failed_needs_failures 9 (policy 2) two_failures (watched NodeState.healthy) failed_twice refl
      refl

abbrev probe : String → ProbeStatus → ProbeResult
probe node status = record { node = node; status = status }

abbrev summary : List ProbeResult → CheckHostSummary
summary probes = record { request_id = "r"; target = "198.51.100.7:2053"; probes = probes }

abbrev first_answers : List ProbeResult
first_answers =
    probe "ir1" ProbeStatus.success
    ∷ probe "ir2" ProbeStatus.success
    ∷ probe "ir3" ProbeStatus.pending
    ∷ []

abbrev all_answers : List ProbeResult
all_answers =
    probe "ir1" ProbeStatus.success
    ∷ probe "ir2" ProbeStatus.success
    ∷ probe "ir3" ProbeStatus.failure
    ∷ []

evaluate-Later_example : evaluate (summary all_answers) 2 ≡ ok ReachabilityDecision.reachable
unfolding evaluate count_status
evaluate-Later_example =
    evaluate-Later 2 (summary first_answers) (summary all_answers) ReachabilityDecision.reachable
      (Later.same _ (Later.same _ (Later.answered _ _ _ refl Unheard.silent Later.none_left))) refl
      (λ e. ground arith)

answers_are_read :
    parse_tcp_result "r" "198.51.100.7:2053" ("ir1" ∷ "ir2" ∷ []) (λ node.
      if str_eq node "ir1"
      then RawResult.listed (RawEntry.mapping true none ∷ [])
      else RawResult.absent)
    ≡ summary (probe "ir1" ProbeStatus.success ∷ probe "ir2" ProbeStatus.pending ∷ [])
unfolding parse_tcp_result parse_node_result any_entry
answers_are_read = refl

abbrev one_node : Table Node
one_node = record {
  keys = 1 ∷ [];
  row = λ k. if eqb k 1 then some (watched NodeState.healthy) else none;
}

abbrev one_leased : Table Node
one_leased =
    put one_node 1 (with_monitoring_lease (watched NodeState.healthy) (some "a") (some 160))

check-exclusive_example :
    ((node : Node) × (get one_node 1 ≡ some node)
      × (node.monitoring_enabled ≡ true)
      × (node.operation_mode ≢ NodeOperationMode.disabled))
    × (try_acquire_monitoring_lease one_leased 1 "b" 150 210 ≡ (one_leased, false))
unfolding try_acquire_monitoring_lease acquire_node
check-exclusive_example =
    check-exclusive one_node one_leased 1 "a" "b" 100 160 150 210 refl (ground arith)

lease_given_back : get (release_monitoring_lease one_leased 1 "a") 1 ≡ get one_node 1
unfolding release_monitoring_lease release_node
lease_given_back = refl
