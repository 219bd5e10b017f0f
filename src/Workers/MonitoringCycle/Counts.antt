-- ===== src/Workers/MonitoringCycle/Counts.antt =====
-- Every node of a monitoring cycle is counted once.
use aso_node_recovery.Prelude.{
  Bool-cases, List, Option, String, [], arith, if◌then◌else◌, inl, inr, is_empty, length, none, not,
  refl, some, ℕ, ◌+◌, ◌||◌, ◌∷◌, ◌≡◌, ◌⊎◌,
}
use aso_node_recovery.Errors.{Error, Result-cases, err, ok}
use aso_node_recovery.Models.Rows.{Node}
use aso_node_recovery.Monitoring.Client.{CheckHost}
use aso_node_recovery.Outside.{Outside}
use aso_node_recovery.Replacement.Access.{utc_now}
use aso_node_recovery.Replacement.Workflow.{try_finally}
use aso_node_recovery.Runtime.{Exec, World, ask, pure, save_node, session, try_catch, ◌>>=◌}
use aso_node_recovery.Runtime.Always.{
  Always, Always-ask, Always-bind, Always-gets, Always-if, Always-modify, Always-mono, Always-pure,
  Always-session, Always-try_catch, MayReturn-any,
}
use aso_node_recovery.Settings.{Settings}
use aso_node_recovery.Workers.MonitoringCycle.{
  MonitoringCycleResult, add_counts, after_resolution, check_all, check_listed, check_resolved,
  list_monitoring_enabled, run_cycle, start_result,
}
use aso_node_recovery.Workers.MonitoringCycle.Check.{
  CheckStatus, acquire_check, add_check, add_node_event, error_found, guarded_check, leased_check,
  on_check_error, persist_adapter_error, release_check, run_node,
}

abbrev Any : {A : Type 0} → A → Type 0
Any _ = Unit {0}

module _ (out : Outside) (client : CheckHost) (settings : Settings) where
  Always-error_found :
      (node_id timestamp : ℕ) (found : Option Node)
      → Always Any (error_found out client settings node_id timestamp found)
  unfolding save_node add_check add_node_event
  Always-error_found node_id timestamp none = Always-pure _ tt
  Always-error_found node_id timestamp (some node) =
      Always-bind Any _ _ (Always-modify _)
        λ _ _. Always-bind Any _ _ (Always-modify _) λ _ _. Always-modify _

  Always-on_check_error :
      (node_id : ℕ) (e : Error) → Always Any (on_check_error out client settings node_id e)
  unfolding persist_adapter_error utc_now
  Always-on_check_error node_id Error.check_host_error =
      Always-bind Any _ _
        (Always-bind Any _ _ (Always-ask _) λ timestamp _. Always-session _ (
          Always-bind Any _ _ (Always-gets _ λ db. tt)
            λ found _. Always-error_found node_id timestamp found))
        λ _ _. Always-pure _ tt
  Always-on_check_error node_id _ = Always-pure _ tt

  Always-finally :
      (node_id : ℕ) (token : String) (m : Exec CheckStatus)
      → Always Any m
      → Always Any (try_finally m (release_check out client settings node_id token))
  unfolding try_finally
  Always-finally node_id token m always = record { returns = always.returns }

  Always-acquire_check :
      (node_id : ℕ) (token : String) (now : ℕ)
      → Always Any (acquire_check out client settings node_id token now)
  unfolding acquire_check
  Always-acquire_check node_id token now = Always-session _ (
      Always-bind Any _ _ (Always-gets _ λ db. tt)
        λ answer _. Always-bind Any _ _ (Always-modify _) λ _ _. Always-pure _ tt)

  -- The check of one node never raises.
  Always-run_node :
      (node_id : ℕ) (nodes : Option (List String))
      → Always Any (run_node out client settings node_id nodes)
  unfolding run_node leased_check guarded_check utc_now
  Always-run_node node_id nodes = Always-bind Any _ _ (Always-ask _) λ paused _.
      Always-if paused _ _ (Always-pure _ tt) (
        Always-bind Any _ _ (Always-ask _) λ now _. Always-bind Any _ _ (Always-ask _) λ token _.
          Always-bind Any _ _ (Always-acquire_check node_id token now) λ acquired _.
            Always-if acquired _ _
              (Always-finally node_id token _
                (Always-try_catch _ _ (MayReturn-any _) (Always-on_check_error node_id)))
              (Always-pure _ tt))

  abbrev counted : MonitoringCycleResult → ℕ
  counted r = r.checked_nodes + r.skipped_nodes + r.error_nodes

  Always-check_all :
      (r : MonitoringCycleResult) (check_nodes : List String) (nodes : List Node)
      → Always
          (λ r'. (counted r' ≡ counted r + length nodes) × (r'.total_nodes ≡ r.total_nodes))
          (check_all out client settings r check_nodes nodes)
  unfolding check_all
  Always-check_all r check_nodes [] = Always-pure r (omega arith)
  Always-check_all r check_nodes (node ∷ nodes) =
      Always-bind Any _ _ (Always-run_node node.id (some check_nodes)) λ status _.
        Always-mono _ (λ r' more. ground arith)
          (Always-check_all (add_counts r status) check_nodes nodes)

  abbrev Balanced : List Node → List String ⊎ MonitoringCycleResult → Type 0
  Balanced nodes (inl check_nodes) = Unit
  Balanced nodes (inr r) = (counted r ≡ r.total_nodes) × (r.total_nodes ≡ length nodes)

  -- The nodes that a cycle is to check: none while the service is paused or the monitoring is off.
  abbrev pub listed : World → List Node
  listed w =
      if out.is_paused w.calls || not (out.monitoring_enabled (w.calls + 1))
      then []
      else list_monitoring_enabled out client settings w.db

  module _
      (fails : (n : ℕ) (e : Error)
        → client.resolve_nodes n ≡ err e
        → e ≡ Error.check_host_error) where
    Always-resolve :
        (nodes : List Node)
        → Always (Balanced nodes) (
            try_catch
              (do check_nodes ← ask client.resolve_nodes; pure (inl check_nodes))
              (λ e. do r ← after_resolution out client settings nodes e; pure (inr r)))
    unfolding try_catch ask pure ◌>>=◌
    Always-resolve nodes = record {
      returns = λ w. elim (Result-cases (client.resolve_nodes w.calls)) [
        | inl (check_nodes, h) ↦ (inl check_nodes, rw h refl, tt)
        | inr (e, h) ↦ (
          inr (record (start_result out client settings (length nodes)) {
            error_nodes = length nodes;
          }),
          rw (h, fails w.calls e h) refl,
          (omega arith, refl),
        )
      ];
    }

    -- All of the nodes are counted.
    abbrev AllCounted : ℕ → MonitoringCycleResult → Type 0
    AllCounted total r = (counted r ≡ total) × (r.total_nodes ≡ total)

    Always-check_resolved :
        (nodes : List Node) (resolved : List String ⊎ MonitoringCycleResult)
        → Balanced nodes resolved
        → Always (AllCounted (length nodes)) (check_resolved out client settings nodes resolved)
    Always-check_resolved nodes (inl check_nodes) b =
        Always-mono _ (λ r more. omega arith) (Always-check_all _ check_nodes nodes)
    Always-check_resolved nodes (inr r) b = Always-pure r (omega arith)

    Always-check_listed :
        (nodes : List Node)
        → Always (AllCounted (length nodes)) (check_listed out client settings nodes)
    unfolding check_listed
    Always-check_listed nodes =
        Always-bind (Balanced nodes) _ _ (Always-resolve nodes) (Always-check_resolved nodes)

    check_or_none :
        (nodes : List Node)
        → Always (AllCounted (length nodes)) (
            if is_empty nodes
            then pure (start_result out client settings 0)
            else check_listed out client settings nodes)
    check_or_none [] = Always-pure _ (refl, refl)
    check_or_none (node ∷ nodes) = Always-check_listed (node ∷ nodes)

    -- A monitoring cycle never raises, whatever happens to the single checks, and counts each of the
    -- nodes that are monitored once, as checked, skipped or in error, and as their total; none while
    -- the service is paused or the monitoring is off. It assumes that the choice of the Check-Host
    -- nodes fails with `CheckHostError` only.
    pub run_cycle-counts :
        (w : World)
        → (r : MonitoringCycleResult) × ((run_cycle out client settings w).0 ≡ ok r)
          × (r.checked_nodes + r.skipped_nodes + r.error_nodes ≡ length (listed w))
          × (r.total_nodes ≡ length (listed w))
    unfolding run_cycle session ◌>>=◌
    run_cycle-counts w = elim (Bool-cases (out.is_paused w.calls)) [
      | inl paused ↦
          (start_result out client settings 0, rw paused refl, rw paused refl, rw paused refl)
      | inr runs ↦ elim (Bool-cases (out.monitoring_enabled (w.calls + 1))) [
        | inl enabled ↦
            let (r, returned, (counts, total)) =
              (check_or_none (list_monitoring_enabled out client settings w.db)).returns
                (record w { calls = w.calls + 1 + 1 }) in
            (r, rw (runs, enabled) returned, rw (runs, enabled) counts, rw (runs, enabled) total)
        | inr disabled ↦ (
          start_result out client settings 0,
          rw (runs, disabled) refl,
          rw (runs, disabled) refl,
          rw (runs, disabled) refl,
        )
      ]
    ]
