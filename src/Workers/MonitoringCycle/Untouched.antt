-- ===== src/Workers/MonitoringCycle/Untouched.antt =====
-- Monitoring writes nothing but nodes, checks and events.
use aso_node_recovery.Prelude.{
  Bool, List, Option, String, Table, [], arith, inl, inr, none, refl, some, ℕ, ◌∷◌, ◌≡◌, ◌⊎◌,
}
use aso_node_recovery.Errors.{Error}
use aso_node_recovery.Models.EventEnums.{EventSeverity, EventType}
use aso_node_recovery.Models.Rows.{Node, NodeCheck}
use aso_node_recovery.Monitoring.Client.{CheckHost}
use aso_node_recovery.Monitoring.Probes.{CheckHostSummary}
use aso_node_recovery.Outside.{Outside, ReachabilityDecision}
use aso_node_recovery.Replacement.Access.{utc_now}
use aso_node_recovery.Replacement.Workflow.{try_finally}
use aso_node_recovery.Runtime.{Db, Exec, save_node}
use aso_node_recovery.Runtime.Preserves.{
  Preserves, Preserves-bind, Preserves-modify, Preserves-pure, preserves_rules,
}
use aso_node_recovery.Settings.{Settings}
use aso_node_recovery.Workers.MonitoringCycle.{
  MonitoringCycleResult, add_counts, after_resolution, check_all, check_listed, check_resolved,
  run_cycle,
}
use aso_node_recovery.Workers.MonitoringCycle.Check.{
  CheckStatus, acquire_check, add_check, add_health_event, add_node_event, check_and_persist,
  check_found, error_found, guarded_check, lease_taken, leased_check, on_check_error,
  persist_adapter_error, persist_check, persist_found, release_check, run_node, selected_nodes,
}
use aso_node_recovery.Workers.MonitoringCycle.Unharmed.{acquired}

-- Nothing but the nodes, the checks and the events changed.
pub record Untouched (before db : Db) : Type 0 where
  pub jobs : db.jobs ≡ before.jobs
  pub vps : db.vps ≡ before.vps
  pub deployments : db.deployments ≡ before.deployments
  pub credentials : db.credentials ≡ before.credentials
  pub providers : db.providers ≡ before.providers

module _ (before : Db) where
  Untouched-save_node : (node : Node) → Preserves (Untouched before) (save_node node)
  unfolding save_node
  Untouched-save_node node = Preserves-modify _ λ db same. ground arith

  Untouched-add_check : (check : NodeCheck) → Preserves (Untouched before) (add_check check)
  unfolding add_check
  Untouched-add_check check = Preserves-modify _ λ db same. ground arith

  Untouched-add_node_event :
      (node_id : ℕ) (event_type : EventType) (severity : EventSeverity) (message : String)
      (timestamp : ℕ)
      → Preserves (Untouched before) (add_node_event node_id event_type severity message timestamp)
  unfolding add_node_event
  Untouched-add_node_event node_id event_type severity message timestamp =
      Preserves-modify _ λ db same. ground arith

ruleset writes =
    (preserves_rules, Untouched-save_node, Untouched-add_check, Untouched-add_node_event)

module _ (before : Db) where
  Untouched-add_health_event :
      (node_id timestamp : ℕ) (event_type : Option EventType)
      → Preserves (Untouched before) (add_health_event node_id timestamp event_type)
  Untouched-add_health_event node_id timestamp none = search writes
  Untouched-add_health_event node_id timestamp (some event_type) = search writes

module _ (out : Outside) (client : CheckHost) (settings : Settings) (before : Db) where
  Untouched-persist_found :
      (node_id : ℕ) (host : String) (port : ℕ) (summary : CheckHostSummary)
      (decision : ReachabilityDecision) (timestamp : ℕ) (found : Option Node)
      → Preserves
          (Untouched before)
          (persist_found out client settings node_id host port summary decision timestamp found)
  Untouched-persist_found node_id host port summary decision timestamp none = search (writes)
  Untouched-persist_found node_id host port summary decision timestamp (some node) =
      search (writes, Untouched-add_health_event) depth 20

  Untouched-persist_check :
      (node_id : ℕ) (host : String) (port : ℕ) (summary : CheckHostSummary)
      (decision : ReachabilityDecision) (timestamp : ℕ)
      → Preserves
          (Untouched before)
          (persist_check out client settings node_id host port summary decision timestamp)
  unfolding persist_check
  Untouched-persist_check node_id host port summary decision timestamp =
      search (writes, Untouched-persist_found) depth 20

  Untouched-check_found :
      (node_id : ℕ) (nodes : List String) (found : Option Node)
      → Preserves (Untouched before) (check_found out client settings node_id nodes found)
  unfolding utc_now
  Untouched-check_found node_id nodes none = search (writes)
  Untouched-check_found node_id nodes (some node) =
      search (writes, Untouched-persist_check) depth 20

  Untouched-check_and_persist :
      (node_id : ℕ) (nodes : List String)
      → Preserves (Untouched before) (check_and_persist out client settings node_id nodes)
  unfolding check_and_persist
  Untouched-check_and_persist node_id nodes = search (writes, Untouched-check_found) depth 20

  Untouched-error_found :
      (node_id timestamp : ℕ) (found : Option Node)
      → Preserves (Untouched before) (error_found out client settings node_id timestamp found)
  Untouched-error_found node_id timestamp none = search (writes)
  Untouched-error_found node_id timestamp (some node) = search (writes) depth 20

  Untouched-persist_adapter_error :
      (node_id : ℕ)
      → Preserves (Untouched before) (persist_adapter_error out client settings node_id)
  unfolding persist_adapter_error utc_now
  Untouched-persist_adapter_error node_id = search (writes, Untouched-error_found) depth 20

  Untouched-on_check_error :
      (node_id : ℕ) (e : Error)
      → Preserves (Untouched before) (on_check_error out client settings node_id e)
  Untouched-on_check_error node_id Error.check_host_error =
      search (writes, Untouched-persist_adapter_error) depth 20
  Untouched-on_check_error node_id _ = search (writes)

  Untouched-selected_nodes :
      (nodes : Option (List String))
      → Preserves (Untouched before) (selected_nodes out client settings nodes)
  Untouched-selected_nodes none = search (writes)
  Untouched-selected_nodes (some []) = search (writes)
  Untouched-selected_nodes (some (node ∷ nodes)) = search (writes)

  Untouched-guarded_check :
      (node_id : ℕ) (nodes : Option (List String))
      → Preserves (Untouched before) (guarded_check out client settings node_id nodes)
  unfolding guarded_check
  Untouched-guarded_check node_id nodes =
      search
        (writes, Untouched-selected_nodes, Untouched-check_and_persist, Untouched-on_check_error)
        depth 20

  Untouched-finally :
      (node_id : ℕ) (token : String) (m : Exec CheckStatus)
      → Preserves (Untouched before) m
      → Preserves
          (Untouched before)
          (try_finally m (release_check out client settings node_id token))
  unfolding try_finally
  Untouched-finally node_id token m keeps = record {
    leads = λ w same. let same' = keeps.leads w same in ground arith;
  }

  Untouched-lease_taken :
      (answer : Table Node × Bool)
      → Preserves (Untouched before) (lease_taken out client settings answer)
  Untouched-lease_taken (nodes, acquired) =
      Preserves-bind _ _ (Preserves-modify _ λ db same. ground arith) λ _. Preserves-pure acquired

  Untouched-acquire_check :
      (node_id : ℕ) (token : String) (now : ℕ)
      → Preserves (Untouched before) (acquire_check out client settings node_id token now)
  unfolding acquire_check
  Untouched-acquire_check node_id token now = search (writes, Untouched-lease_taken) depth 20

  pub Untouched-run_node :
      (node_id : ℕ) (nodes : Option (List String))
      → Preserves (Untouched before) (run_node out client settings node_id nodes)
  unfolding run_node leased_check utc_now
  Untouched-run_node node_id nodes =
      search (writes, Untouched-acquire_check, Untouched-guarded_check, Untouched-finally) depth 20

  Untouched-check_all :
      (r : MonitoringCycleResult) (check_nodes : List String) (nodes : List Node)
      → Preserves (Untouched before) (check_all out client settings r check_nodes nodes)
  unfolding check_all
  Untouched-check_all r check_nodes [] = Preserves-pure r
  Untouched-check_all r check_nodes (node ∷ nodes) =
      Preserves-bind _ _ (Untouched-run_node node.id (some check_nodes))
        λ status. Untouched-check_all (add_counts r status) check_nodes nodes

  Untouched-after_resolution :
      (nodes : List Node) (e : Error)
      → Preserves (Untouched before) (after_resolution out client settings nodes e)
  Untouched-after_resolution nodes Error.check_host_error = search (writes)
  Untouched-after_resolution nodes _ = search (writes)

  Untouched-resolved :
      (nodes : List Node) (resolved : List String ⊎ MonitoringCycleResult)
      → Preserves (Untouched before) (check_resolved out client settings nodes resolved)
  Untouched-resolved nodes (inl check_nodes) = Untouched-check_all _ check_nodes nodes
  Untouched-resolved nodes (inr r) = Preserves-pure r

  Untouched-check_listed :
      (nodes : List Node) → Preserves (Untouched before) (check_listed out client settings nodes)
  unfolding check_listed
  Untouched-check_listed nodes =
      search (writes, Untouched-after_resolution, Untouched-resolved) depth 20

  pub Untouched-run_cycle : Preserves (Untouched before) (run_cycle out client settings)
  unfolding run_cycle
  Untouched-run_cycle = search (writes, Untouched-check_listed) depth 20

pub unchanged : (db : Db) → Untouched db db
unchanged db = record {
  jobs = refl;
  vps = refl;
  deployments = refl;
  credentials = refl;
  providers = refl;
}
