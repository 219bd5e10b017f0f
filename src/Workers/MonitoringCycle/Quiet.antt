-- ===== src/Workers/MonitoringCycle/Quiet.antt =====
-- Monitoring calls nothing that changes the outside, and writes nothing but nodes, checks and events.
use aso_node_recovery.Prelude.{
  Bool, List, Option, String, Table, [], inl, inr, none, some, ℕ, ◌∷◌, ◌≡◌, ◌⊎◌,
}
use aso_node_recovery.Errors.{Error}
use aso_node_recovery.Models.EventEnums.{EventSeverity, EventType}
use aso_node_recovery.Models.Rows.{Node, NodeCheck}
use aso_node_recovery.Monitoring.Client.{CheckHost}
use aso_node_recovery.Monitoring.Probes.{CheckHostSummary}
use aso_node_recovery.Outside.{Outside, ReachabilityDecision}
use aso_node_recovery.Replacement.Access.{utc_now}
use aso_node_recovery.Replacement.Workflow.{try_finally}
use aso_node_recovery.Runtime.{Exec, World, save_node}
use aso_node_recovery.Runtime.Quiet.{Quiet, Quiet-bind, Quiet-modify, Quiet-pure, quiet_rules}
use aso_node_recovery.Settings.{Settings}
use aso_node_recovery.Workers.MonitoringCycle.{
  MonitoringCycleResult, add_counts, after_resolution, check_all, check_listed, check_resolved,
  run_cycle,
}
use aso_node_recovery.Workers.MonitoringCycle.Check.{
  CheckStatus, acquire_check, add_check, add_health_event, add_node_event, check_and_persist,
  check_found, error_found, guarded_check, lease_taken, leased_check, on_check_error,
  persist_adapter_error, persist_check, persist_found, release_check, run_node, selected_nodes,
}
use aso_node_recovery.Workers.MonitoringCycle.Unharmed.{acquired}
use aso_node_recovery.Workers.MonitoringCycle.Untouched.{Untouched, Untouched-run_cycle, unchanged}

Quiet-save_node : (node : Node) → Quiet (save_node node)
unfolding save_node
Quiet-save_node node = Quiet-modify _

Quiet-add_check : (check : NodeCheck) → Quiet (add_check check)
unfolding add_check
Quiet-add_check check = Quiet-modify _

Quiet-add_node_event :
    (node_id : ℕ) (event_type : EventType) (severity : EventSeverity) (message : String)
    (timestamp : ℕ)
    → Quiet (add_node_event node_id event_type severity message timestamp)
unfolding add_node_event
Quiet-add_node_event node_id event_type severity message timestamp = Quiet-modify _

ruleset still = (quiet_rules, Quiet-save_node, Quiet-add_check, Quiet-add_node_event)

Quiet-add_health_event :
    (node_id timestamp : ℕ) (event_type : Option EventType)
    → Quiet (add_health_event node_id timestamp event_type)
Quiet-add_health_event node_id timestamp none = search still
Quiet-add_health_event node_id timestamp (some event_type) = search still

module _ (out : Outside) (client : CheckHost) (settings : Settings) where
  Quiet-persist_found :
      (node_id : ℕ) (host : String) (port : ℕ) (summary : CheckHostSummary)
      (decision : ReachabilityDecision) (timestamp : ℕ) (found : Option Node)
      → Quiet (persist_found out client settings node_id host port summary decision timestamp found)
  Quiet-persist_found node_id host port summary decision timestamp none = search (still)
  Quiet-persist_found node_id host port summary decision timestamp (some node) =
      search (still, Quiet-add_health_event) depth 20

  Quiet-persist_check :
      (node_id : ℕ) (host : String) (port : ℕ) (summary : CheckHostSummary)
      (decision : ReachabilityDecision) (timestamp : ℕ)
      → Quiet (persist_check out client settings node_id host port summary decision timestamp)
  unfolding persist_check
  Quiet-persist_check node_id host port summary decision timestamp =
      search (still, Quiet-persist_found) depth 20

  Quiet-check_found :
      (node_id : ℕ) (nodes : List String) (found : Option Node)
      → Quiet (check_found out client settings node_id nodes found)
  unfolding utc_now
  Quiet-check_found node_id nodes none = search (still)
  Quiet-check_found node_id nodes (some node) = search (still, Quiet-persist_check) depth 20

  Quiet-check_and_persist :
      (node_id : ℕ) (nodes : List String)
      → Quiet (check_and_persist out client settings node_id nodes)
  unfolding check_and_persist
  Quiet-check_and_persist node_id nodes = search (still, Quiet-check_found) depth 20

  Quiet-error_found :
      (node_id timestamp : ℕ) (found : Option Node)
      → Quiet (error_found out client settings node_id timestamp found)
  Quiet-error_found node_id timestamp none = search (still)
  Quiet-error_found node_id timestamp (some node) = search (still) depth 20

  Quiet-persist_adapter_error :
      (node_id : ℕ) → Quiet (persist_adapter_error out client settings node_id)
  unfolding persist_adapter_error utc_now
  Quiet-persist_adapter_error node_id = search (still, Quiet-error_found) depth 20

  Quiet-on_check_error :
      (node_id : ℕ) (e : Error) → Quiet (on_check_error out client settings node_id e)
  Quiet-on_check_error node_id Error.check_host_error =
      search (still, Quiet-persist_adapter_error) depth 20
  Quiet-on_check_error node_id _ = search (still)

  Quiet-selected_nodes :
      (nodes : Option (List String)) → Quiet (selected_nodes out client settings nodes)
  Quiet-selected_nodes none = search (still)
  Quiet-selected_nodes (some []) = search (still)
  Quiet-selected_nodes (some (node ∷ nodes)) = search (still)

  Quiet-guarded_check :
      (node_id : ℕ) (nodes : Option (List String))
      → Quiet (guarded_check out client settings node_id nodes)
  unfolding guarded_check
  Quiet-guarded_check node_id nodes =
      search (still, Quiet-selected_nodes, Quiet-check_and_persist, Quiet-on_check_error) depth 20

  Quiet-finally :
      (node_id : ℕ) (token : String) (m : Exec CheckStatus)
      → Quiet m
      → Quiet (try_finally m (release_check out client settings node_id token))
  unfolding try_finally
  Quiet-finally node_id token m quiet = record { stays = λ w. quiet.stays w }

  Quiet-lease_taken : (answer : Table Node × Bool) → Quiet (lease_taken out client settings answer)
  Quiet-lease_taken (nodes, acquired) = search quiet_rules

  Quiet-acquire_check :
      (node_id : ℕ) (token : String) (now : ℕ)
      → Quiet (acquire_check out client settings node_id token now)
  unfolding acquire_check
  Quiet-acquire_check node_id token now = search (still, Quiet-lease_taken) depth 20

  Quiet-run_node :
      (node_id : ℕ) (nodes : Option (List String))
      → Quiet (run_node out client settings node_id nodes)
  unfolding run_node leased_check utc_now
  Quiet-run_node node_id nodes =
      search (still, Quiet-acquire_check, Quiet-guarded_check, Quiet-finally) depth 20

  Quiet-check_all :
      (r : MonitoringCycleResult) (check_nodes : List String) (nodes : List Node)
      → Quiet (check_all out client settings r check_nodes nodes)
  unfolding check_all
  Quiet-check_all r check_nodes [] = Quiet-pure r
  Quiet-check_all r check_nodes (node ∷ nodes) =
      Quiet-bind _ _ (Quiet-run_node node.id (some check_nodes))
        λ status. Quiet-check_all (add_counts r status) check_nodes nodes

  Quiet-after_resolution :
      (nodes : List Node) (e : Error) → Quiet (after_resolution out client settings nodes e)
  Quiet-after_resolution nodes Error.check_host_error = search (still)
  Quiet-after_resolution nodes _ = search (still)

  Quiet-resolved :
      (nodes : List Node) (resolved : List String ⊎ MonitoringCycleResult)
      → Quiet (check_resolved out client settings nodes resolved)
  Quiet-resolved nodes (inl check_nodes) = Quiet-check_all _ check_nodes nodes
  Quiet-resolved nodes (inr r) = Quiet-pure r

  Quiet-check_listed : (nodes : List Node) → Quiet (check_listed out client settings nodes)
  unfolding check_listed
  Quiet-check_listed nodes = search (still, Quiet-after_resolution, Quiet-resolved) depth 20

  Quiet-run_cycle : Quiet (run_cycle out client settings)
  unfolding run_cycle
  Quiet-run_cycle = search (still, Quiet-check_listed) depth 20

  -- A monitoring cycle only observes: whether it returns or raises, and whatever is answered, it calls
  -- nothing that changes the outside, and the jobs, the servers, the deployments, the credentials and
  -- the providers stay as they were.
  pub run_cycle-observes :
      (w : World)
      → let w' : World = (run_cycle out client settings w).1 in
        (w'.effects ≡ w.effects) × Untouched w.db w'.db
  run_cycle-observes w = (
    Quiet-run_cycle.stays w,
    (Untouched-run_cycle out client settings w.db).leads w (unchanged w.db),
  )
