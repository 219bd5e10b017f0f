-- ===== src/Workers/MonitoringCycle/Check.antt =====
-- The check of one node, `run_node` of app/workers/monitoring.py.
-- The texts that `run_node` returns.
use aso_node_recovery.Monitoring.Probes
use aso_node_recovery.Prelude.{
  Bool, List, Option, String, Table, [], get, if◌then◌else◌, none, some, ℕ, ◌++◌, ◌+◌, ◌∷◌,
}
use aso_node_recovery.Errors.{Error, ok}
use aso_node_recovery.Models.EventEnums.{EventSeverity, EventType, NodeCheckOutcome}
use aso_node_recovery.Models.Rows.{Node, NodeCheck}
use aso_node_recovery.Moments.{aware}
use aso_node_recovery.Monitoring.Client.{CheckHost}
use aso_node_recovery.Monitoring.Health.{MonitoringPolicy, apply}
use aso_node_recovery.Monitoring.Leases.{release_monitoring_lease, try_acquire_monitoring_lease}
use aso_node_recovery.Monitoring.Probes.{
  CheckHostSummary, evaluate, failure_count, malformed_count, pending_count, success_count,
  total_nodes,
}
use aso_node_recovery.Outside.{Outside, ReachabilityDecision}
use aso_node_recovery.Replacement.Access.{utc_now}
use aso_node_recovery.Replacement.Workflow.{try_finally}
use aso_node_recovery.Runtime.{
  Exec, World, ask, gets, lift, modify, pure, save_node, session, try_catch, ◌>>=◌, ◌>>◌,
}
use aso_node_recovery.Settings.{Settings}
use aso_node_recovery.Workers.MonitoringCycle.Unharmed.{acquired}

pub data CheckStatus : Type 0 where
  checked skipped error : CheckStatus

abbrev pub policy_of : Settings → MonitoringPolicy
policy_of settings = record {
  failure_threshold = settings.failure_threshold;
  recovery_threshold = settings.recovery_threshold;
  min_success_nodes = settings.check_host_min_success_nodes;
}

abbrev pub check_outcome : ReachabilityDecision → NodeCheckOutcome
check_outcome ReachabilityDecision.reachable = NodeCheckOutcome.reachable
check_outcome ReachabilityDecision.unreachable = NodeCheckOutcome.unreachable
check_outcome ReachabilityDecision.indeterminate = NodeCheckOutcome.indeterminate

-- `_build_check`
abbrev pub build_check : ℕ → String → ℕ → CheckHostSummary → ReachabilityDecision → ℕ → NodeCheck
build_check node_id host port summary decision timestamp = record {
  node_id = node_id;
  request_id = some summary.request_id;
  target_host = host;
  target_port = port;
  outcome = check_outcome decision;
  success_count = success_count summary;
  failure_count = failure_count summary;
  pending_count = pending_count summary;
  malformed_count = malformed_count summary;
  total_nodes = Probes.total_nodes summary;
  checked_at = timestamp;
}

abbrev pub health_severity : EventType → EventSeverity
health_severity EventType.node_failed = EventSeverity.error
health_severity EventType.node_degraded = EventSeverity.warning
health_severity _ = EventSeverity.info

unfoldable pub add_check : NodeCheck → Exec (Unit {0})
unfolding modify
add_check check = modify λ db. record db { checks = db.checks ++ check ∷ [] }

unfoldable pub add_node_event : ℕ → EventType → EventSeverity → String → ℕ → Exec (Unit {0})
unfolding modify
add_node_event node_id event_type severity message timestamp = modify λ db. record db {
  events =
      db.events
      ++ (record {
        node_id = some node_id;
        replacement_job_id = none;
        event_type = event_type;
        severity = severity;
        message = message;
        created_at = timestamp;
      })
        ∷ [];
}

abbrev pub add_health_event : ℕ → ℕ → Option EventType → Exec (Unit {0})
add_health_event node_id timestamp none = pure tt
add_health_event node_id timestamp (some event_type) =
    add_node_event node_id event_type (health_severity event_type) "Node health changed" timestamp

module _ (out : Outside) (client : CheckHost) (settings : Settings) where
  -- The last session of `_check_and_persist`.
  abbrev pub persist_found :
      ℕ → String → ℕ → CheckHostSummary → ReachabilityDecision → ℕ → Option Node → Exec (Unit {0})
  persist_found node_id host port summary decision timestamp none = pure tt
  persist_found node_id host port summary decision timestamp (some node) = do
    result ← lift (apply timestamp (policy_of settings) node decision (some (aware timestamp)))
    save_node result.0
    add_check (build_check node_id host port summary decision timestamp)
    add_health_event node_id timestamp result.1.event_type

  unfoldable pub persist_check :
      ℕ → String → ℕ → CheckHostSummary → ReachabilityDecision → ℕ → Exec (Unit {0})
  persist_check node_id host port summary decision timestamp = session (do
    found ← gets (λ db. get db.nodes node_id)
    persist_found node_id host port summary decision timestamp found)

  abbrev pub check_found : ℕ → List String → Option Node → Exec (Unit {0})
  check_found node_id check_nodes none = pure tt
  check_found node_id check_nodes (some node) = do
    request ← ask (λ n. client.create_tcp_check n node.current_host node.current_port check_nodes)
    summary ← ask (λ n. client.poll_result n request)
    decision ← lift (evaluate summary settings.check_host_min_success_nodes)
    timestamp ← utc_now out
    persist_check node_id node.current_host node.current_port summary decision timestamp

  -- `_check_and_persist`
  unfoldable pub check_and_persist : ℕ → List String → Exec (Unit {0})
  check_and_persist node_id check_nodes = do
    found ← session (gets (λ db. get db.nodes node_id))
    check_found node_id check_nodes found

  abbrev pub error_found : ℕ → ℕ → Option Node → Exec (Unit {0})
  error_found node_id timestamp none = pure tt
  error_found node_id timestamp (some node) = do
    save_node (record node { last_checked_at = some timestamp })
    add_check (record {
      node_id = node_id;
      request_id = none;
      target_host = node.current_host;
      target_port = node.current_port;
      outcome = NodeCheckOutcome.error;
      success_count = 0;
      failure_count = 0;
      pending_count = 0;
      malformed_count = 0;
      total_nodes = 0;
      checked_at = timestamp;
    })
    add_node_event node_id EventType.monitoring_check_error EventSeverity.warning
        "Check-Host monitoring request failed; node health counters unchanged" timestamp

  -- `_persist_adapter_error`
  unfoldable pub persist_adapter_error : ℕ → Exec (Unit {0})
  persist_adapter_error node_id = do
    timestamp ← utc_now out
    session (do found ← gets (λ db. get db.nodes node_id); error_found node_id timestamp found)

  -- `check_nodes or await resolve_nodes(...)`
  abbrev pub selected_nodes : Option (List String) → Exec (List String)
  selected_nodes none = ask client.resolve_nodes
  selected_nodes (some []) = ask client.resolve_nodes
  selected_nodes (some (node ∷ nodes)) = pure (node ∷ nodes)

  -- The `except` blocks of `run_node`.
  abbrev pub on_check_error : ℕ → Error → Exec CheckStatus
  on_check_error node_id Error.check_host_error = do
    persist_adapter_error node_id
    pure CheckStatus.error
  on_check_error node_id _ = pure CheckStatus.error

  unfoldable pub guarded_check : ℕ → Option (List String) → Exec CheckStatus
  guarded_check node_id check_nodes =
      try_catch
        (do
          nodes ← selected_nodes check_nodes
          check_and_persist node_id nodes
          pure CheckStatus.checked)
        (on_check_error node_id)

  abbrev pub release_check : ℕ → String → World → World
  release_check node_id token w = record w {
    db = record w.db { nodes = release_monitoring_lease w.db.nodes node_id token };
  }

  abbrev pub lease_taken : Table Node × Bool → Exec Bool
  lease_taken (nodes, acquired) = do modify (λ db. record db { nodes = nodes }); pure acquired

  unfoldable pub acquire_check : ℕ → String → ℕ → Exec Bool
  acquire_check node_id token now = session (do
    answer ← gets λ db.
        try_acquire_monitoring_lease db.nodes node_id token now
          (now + settings.monitoring_lease_seconds)
    lease_taken answer)

  -- `run_node` from the lease on
  unfoldable pub leased_check : ℕ → Option (List String) → Exec CheckStatus
  leased_check node_id check_nodes = do
    now ← utc_now out
    token ← ask (λ n. ok (out.new_token n))
    acquired ← acquire_check node_id token now
    if acquired
        then try_finally (guarded_check node_id check_nodes) (release_check node_id token)
        else pure CheckStatus.skipped

  -- `run_node`
  unfoldable pub run_node : ℕ → Option (List String) → Exec CheckStatus
  run_node node_id check_nodes = do
    paused ← ask (λ n. ok (out.is_paused n))
    if paused then pure CheckStatus.skipped else leased_check node_id check_nodes
