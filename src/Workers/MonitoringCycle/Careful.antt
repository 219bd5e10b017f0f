-- ===== src/Workers/MonitoringCycle/Careful.antt =====
-- A check that does not end as checked leaves the health of every node alone.
use aso_node_recovery.Prelude.{
  List, Option, Option-cases, String, [], ap, get, inl, inr, none, refl, some, ℕ, ◌+◌, ◌∙◌, ◌∷◌,
  ◌≡◌, ◌≢◌,
}
use aso_node_recovery.Errors.{Error, Result, err, ok}
use aso_node_recovery.Models.Rows.{Node}
use aso_node_recovery.Monitoring.Client.{CheckHost}
use aso_node_recovery.Monitoring.Leases.{release_monitoring_lease, try_acquire_monitoring_lease}
use aso_node_recovery.Outside.{Outside}
use aso_node_recovery.Replacement.Access.{utc_now}
use aso_node_recovery.Replacement.Workflow.{try_finally}
use aso_node_recovery.Runtime.{Db, Exec, World, gets, pure, save_node, ◌>>=◌, ◌>>◌}
use aso_node_recovery.Runtime.Preserves.{
  Preserves, Preserves-ask, Preserves-gets, Preserves-lift, Preserves-pure, Preserves-session,
  preserves_rules,
}
use aso_node_recovery.Runtime.Wp.{Post, Wp, Wp-bind}
use aso_node_recovery.Settings.{Settings}
use aso_node_recovery.Workers.MonitoringCycle.Care.{
  Careful, Careful-Preserves, Careful-bind, Careful-if, Careful-try_catch, Checked, Recovers,
  Recovers-bind, Recovers-session,
}
use aso_node_recovery.Workers.MonitoringCycle.Check.{
  CheckStatus, acquire_check, add_check, add_node_event, check_and_persist, check_found,
  error_found, guarded_check, leased_check, on_check_error, persist_adapter_error, persist_check,
  release_check, run_node, selected_nodes,
}
use aso_node_recovery.Workers.MonitoringCycle.Unharmed.{
  Keyed, Unharmed, acquired, put-Unharmed, released,
}

module _ (out : Outside) (client : CheckHost) (settings : Settings) (before : Db) where
  Unharmed-error_found :
      (node_id timestamp : ℕ)
      → Preserves
          (Unharmed before)
          (gets (λ db. get db.nodes node_id) >>= error_found out client settings node_id timestamp)
  unfolding save_node add_check add_node_event ◌>>=◌
  Unharmed-error_found node_id timestamp = record {
    leads = λ (w : World) u. elim (Option-cases (get w.db.nodes node_id)) [
      | inl missing ↦ rw missing u
      | inr (node, found) ↦
          let own = u.keyed node_id node found in
          let found' : get w.db.nodes node.id ≡ some node = ap (get w.db.nodes) own ∙ found in
          let stored =
            put-Unharmed before w.db node.id node (record node { last_checked_at = some timestamp })
              u found' refl refl in
          rw found (record { same = stored.same; keyed = stored.keyed })
    ];
  }

  Unharmed-on_check_error :
      (node_id : ℕ) (e : Error)
      → Preserves (Unharmed before) (on_check_error out client settings node_id e)
  unfolding persist_adapter_error utc_now
  Unharmed-on_check_error node_id Error.check_host_error =
      search (preserves_rules, Unharmed-error_found) depth 20
  Unharmed-on_check_error node_id _ = search preserves_rules

  Unharmed-selected_nodes :
      (nodes : Option (List String))
      → Preserves (Unharmed before) (selected_nodes out client settings nodes)
  Unharmed-selected_nodes none = search preserves_rules
  Unharmed-selected_nodes (some []) = search preserves_rules
  Unharmed-selected_nodes (some (node ∷ nodes)) = search preserves_rules

  Recovers-check_found :
      (node_id : ℕ) (nodes : List String) (found : Option Node)
      → Recovers before (check_found out client settings node_id nodes found)
  unfolding utc_now persist_check pure
  Recovers-check_found node_id nodes none = λ w u. tt
  Recovers-check_found node_id nodes (some node) =
      Recovers-bind before _ _ (Preserves-ask _) λ request.
        Recovers-bind before _ _ (Preserves-ask _) λ summary.
          Recovers-bind before _ _ (Preserves-lift _) λ decision.
            Recovers-bind before _ _ (Preserves-ask _) λ timestamp. Recovers-session before _

  Recovers-check_and_persist :
      (node_id : ℕ) (nodes : List String)
      → Recovers before (check_and_persist out client settings node_id nodes)
  unfolding check_and_persist
  Recovers-check_and_persist node_id nodes =
      Recovers-bind before _ _ (Preserves-session _ (Preserves-gets _))
        (Recovers-check_found node_id nodes)

  then_checked :
      (r : Result (Unit {0})) (w : World)
      → Post (λ _ _. Unit {0}) (λ w'. Unharmed before w'.db) (r, w)
      → Post
          (λ _. Wp (pure CheckStatus.checked) (Checked before) (λ w'. Unharmed before w'.db))
          (λ w'. Unharmed before w'.db)
          (r, w)
  unfolding pure
  then_checked (ok a) w h = λ not_checked. absurd (not_checked refl)
  then_checked (err e) w h = h

  Careful-check :
      (node_id : ℕ) (nodes : List String)
      → Careful before
          (do check_and_persist out client settings node_id nodes; pure CheckStatus.checked)
  Careful-check node_id nodes w u =
      Wp-bind _ _ _ _ w (then_checked _ _ (Recovers-check_and_persist node_id nodes w u))

  Careful-guarded_check :
      (node_id : ℕ) (nodes : Option (List String))
      → Careful before (guarded_check out client settings node_id nodes)
  unfolding guarded_check
  Careful-guarded_check node_id nodes =
      Careful-try_catch before _ _
        (Careful-bind before _ _ (Unharmed-selected_nodes nodes) (Careful-check node_id))
        (Unharmed-on_check_error node_id)

  Unharmed-release :
      (node_id : ℕ) (token : String) (w : World)
      → Unharmed before w.db
      → Unharmed before (release_check out client settings node_id token w).db
  unfolding release_monitoring_lease
  Unharmed-release node_id token w u =
      released before w.db node_id (get w.db.nodes node_id) token u refl

  finished :
      (node_id : ℕ) (token : String) (r : Result CheckStatus) (w : World)
      → Post (Checked before) (λ w'. Unharmed before w'.db) (r, w)
      → Post
          (Checked before)
          (λ w'. Unharmed before w'.db)
          (r, release_check out client settings node_id token w)
  finished node_id token (ok status) w h = λ n. Unharmed-release node_id token w (h n)
  finished node_id token (err e) w u = Unharmed-release node_id token w u

  Careful-finally :
      (node_id : ℕ) (token : String) (m : Exec CheckStatus)
      → Careful before m
      → Careful before (try_finally m (release_check out client settings node_id token))
  unfolding try_finally
  Careful-finally node_id token m careful w u = finished node_id token (m w).0 (m w).1 (careful w u)

  Unharmed-acquire_check :
      (node_id : ℕ) (token : String) (now : ℕ)
      → Preserves (Unharmed before) (acquire_check out client settings node_id token now)
  unfolding acquire_check try_acquire_monitoring_lease ◌>>=◌
  Unharmed-acquire_check node_id token now = Preserves-session _ (record {
    leads = λ (w : World) u.
        acquired before w.db node_id (get w.db.nodes node_id) token now
          (now + settings.monitoring_lease_seconds) u refl;
  })

  Careful-run_node :
      (node_id : ℕ) (nodes : Option (List String))
      → Careful before (run_node out client settings node_id nodes)
  unfolding run_node leased_check utc_now
  Careful-run_node node_id nodes = Careful-bind before _ _ (Preserves-ask _) λ paused.
      Careful-if before paused _ _ (Careful-Preserves before _ (Preserves-pure _)) (
        Careful-bind before _ _ (Preserves-ask _) λ now.
          Careful-bind before _ _ (Preserves-ask _) λ token.
            Careful-bind before _ _ (Unharmed-acquire_check node_id token now) λ acquired.
              Careful-if before acquired _ _
                (Careful-finally node_id token _ (Careful-guarded_check node_id nodes))
                (Careful-Preserves before _ (Preserves-pure _)))

module _ (out : Outside) (client : CheckHost) (settings : Settings) where
  judged :
      (before : Db) (r : Result CheckStatus) (w : World)
      → Post (Checked before) (λ w'. Unharmed before w'.db) (r, w)
      → r ≢ ok CheckStatus.checked
      → Unharmed before w.db
  judged before (ok CheckStatus.checked) w h n = absurd (n refl)
  judged before (ok CheckStatus.skipped) w h n = h (cc)
  judged before (ok CheckStatus.error) w h n = h (cc)
  judged before (err e) w h n = h

  -- A check that does not end as checked harms no node: where Check-Host cannot be asked or answers
  -- badly, or the check is skipped, the state of every node, the counts of its checks and its last
  -- success are as they were. It assumes that each node stands under its own id.
  pub run_node-Unharmed :
      (node_id : ℕ) (nodes : Option (List String)) (w : World)
      → Keyed w.db.nodes
      → (run_node out client settings node_id nodes w).0 ≢ ok CheckStatus.checked
      → Unharmed w.db (run_node out client settings node_id nodes w).1.db
  run_node-Unharmed node_id nodes w keyed not_checked =
      judged w.db _ _
        (Careful-run_node out client settings w.db node_id nodes w
          (record { same = λ k. refl; keyed = keyed }))
        not_checked
