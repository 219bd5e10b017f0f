-- ===== src/Control/Modes.antt =====
-- A change of a node's operation mode: when it is accepted, and what it leaves.
-- The state, the mode and the switch of the monitoring say the same of whether a node is disabled.
use aso_node_recovery.NodeLifecycle
use aso_node_recovery.Prelude.{
  Bool, Bool-cases, Option-cases, Table, arith, contains, eqb, eqb_iff, false, get, inl, inr,
  is_some, nat_eq, none, not, put, refl, some, str_eq, string_eq, sym, true, ℕ, ◌&&◌, ◌==◌, ◌||◌,
  ◌↔◌, ◌∙◌, ◌≡◌,
}
use aso_node_recovery.Control.{
  add_operator_event, change_mode, is_refused, may_repair, set_node_operation_mode, store_mode,
  with_mode, without_lease,
}
use aso_node_recovery.Errors.{Error, err, ok}
use aso_node_recovery.Models.EventEnums.{
  event_severity_eq, node_check_outcome_eq, replacement_trigger_mode_eq,
  secret_reference_backend_eq,
}
use aso_node_recovery.Models.JobEnums.{replacement_checkpoint_eq, replacement_job_state_eq}
use aso_node_recovery.Models.NodeEnums.{
  NodeOperationMode, NodeState, deployment_state_eq, node_operation_mode_eq, node_state_eq,
  provider_type_eq, ssh_auth_method_eq, vps_instance_role_eq, vps_instance_state_eq,
}
use aso_node_recovery.Models.Rows.{Node, Provider, VpsInstance}
use aso_node_recovery.NodeLifecycle.{allowed_targets, apply_state_transition}
use aso_node_recovery.Outside.{Outside}
use aso_node_recovery.Registry.Rows.{Own}
use aso_node_recovery.Replacement.Access.{utc_now}
use aso_node_recovery.Replacement.Checkpoints.{allowed}
use aso_node_recovery.Replacement.Trigger.{get_active_for_node, get_current_for_node}
use aso_node_recovery.Runtime.{Db, World, raise, session, ◌>>=◌}

pub record InMode (mode : NodeOperationMode) (node : Node) : Type 0 where
  pub operation_mode : node.operation_mode ≡ mode
  pub monitoring_enabled : node.monitoring_enabled ≡ not (mode == NodeOperationMode.disabled)
  pub state : (node.state == NodeState.disabled) ≡ (mode == NodeOperationMode.disabled)

-- Every state may go to DISABLED.
may_disable :
    (s : NodeState)
    → (NodeState.disabled == s) ≡ false
    → contains (allowed_targets s) NodeState.disabled ≡ true
may_disable NodeState.unknown h = refl
may_disable NodeState.healthy h = refl
may_disable NodeState.degraded h = refl
may_disable NodeState.failed h = refl
may_disable NodeState.replacing h = refl
may_disable NodeState.deploying h = refl
may_disable NodeState.verifying h = refl
may_disable NodeState.disabled h = absurd (cc h)

-- What the change of a mode leaves of a node.
abbrev Changed : ℕ → NodeOperationMode → Node → Node × Bool → Type 0
Changed now mode node step = (step.0.id ≡ node.id) × InMode mode step.0

module _ (now : ℕ) (node : Node) where
  disabled_lem :
      (step : Node × Bool) × (change_mode now NodeOperationMode.disabled node ≡ ok step)
      × Changed now NodeOperationMode.disabled node step
  unfolding change_mode NodeLifecycle.transition
  disabled_lem = elim (Bool-cases (NodeState.disabled == node.state)) [
    | inl stays ↦
        let same : NodeState.disabled ≡ node.state =
          (node_state_eq.agree_iff NodeState.disabled node.state).0 stays in
        (
          (without_lease (with_mode NodeOperationMode.disabled node), false),
          rw stays refl,
          (
            refl,
            record { operation_mode = refl; monitoring_enabled = refl; state = rw (← same) refl },
          ),
        )
    | inr moves ↦ (
      (
        apply_state_transition (without_lease (with_mode NodeOperationMode.disabled node))
            NodeState.disabled now,
        true,
      ),
      rw (moves, may_disable node.state moves) refl,
      (refl, record { operation_mode = refl; monitoring_enabled = refl; state = refl }),
    )
  ]

  enabled_lem :
      (mode : NodeOperationMode)
      → (mode == NodeOperationMode.disabled) ≡ false
      → (step : Node × Bool) × (change_mode now mode node ≡ ok step) × Changed now mode node step
  unfolding change_mode NodeLifecycle.transition
  enabled_lem mode h = elim (Bool-cases (node.state == NodeState.disabled)) [
    | inl was_disabled ↦
        let same : node.state ≡ NodeState.disabled =
          (node_state_eq.agree_iff node.state NodeState.disabled).0 was_disabled in
        (
          (apply_state_transition (with_mode mode node) NodeState.unknown now, true),
          rw (h, same) refl,
          (refl, record { operation_mode = refl; monitoring_enabled = refl; state = sym h }),
        )
    | inr was_enabled ↦ (
      (with_mode mode node, false),
      rw (h, was_enabled) refl,
      (
        refl,
        record { operation_mode = refl; monitoring_enabled = refl; state = was_enabled ∙ sym h },
      ),
    )
  ]

  -- The change itself is never refused.
  change_mode_lem :
      (mode : NodeOperationMode)
      → (step : Node × Bool) × (change_mode now mode node ≡ ok step) × Changed now mode node step
  change_mode_lem NodeOperationMode.disabled = disabled_lem
  change_mode_lem NodeOperationMode.monitor_only = enabled_lem NodeOperationMode.monitor_only refl
  change_mode_lem NodeOperationMode.auto_repair = enabled_lem NodeOperationMode.auto_repair refl

-- The node has a current server with an id, and its provider is active.
pub record IsRepairable (node_id : ℕ) (node : Node) (db : Db) : Type 0 where
  pub vps : VpsInstance
  pub provider : Provider
  pub server : get_current_for_node node_id db ≡ some vps
  pub has_id : str_eq vps.provider_server_id "" ≡ false
  pub registered : get db.providers node.provider_id ≡ some provider
  pub active : provider.is_active ≡ true

may_repair-IsRepairable :
    (node_id : ℕ) (node : Node) (db : Db)
    → (may_repair node_id node db ≡ true) ↔ IsRepairable node_id node db
may_repair-IsRepairable node_id node db = (
  λ h. elim (Option-cases (get_current_for_node node_id db)) [
    | inl gone ↦ let no : false ≡ true = rw gone at h in absurd (cc no)
    | inr (vps, server) ↦ elim (Option-cases (get db.providers node.provider_id)) [
      | inl unknown ↦ absurd (ground arith)
      | inr (provider, registered) ↦
          let both : (not (str_eq vps.provider_server_id "") && provider.is_active) ≡ true =
            rw (server, registered) at h in
          record {
            vps = vps;
            provider = provider;
            server = server;
            has_id = ground arith;
            registered = registered;
            active = ground arith;
          }
    ]
  ],
  λ r. rw (r.server, r.registered) (rw (r.has_id, r.active) refl),
)

-- What an operator may ask for: the node exists, it has no active job, and the repairs of a node
-- need its current server and a provider that is active.
pub record Allowed (node_id : ℕ) (mode : NodeOperationMode) (node : Node) (db : Db) : Type 0 where
  pub stands : get db.nodes node_id ≡ some node
  pub idle : get_active_for_node node_id db ≡ none
  pub repairable : mode ≡ NodeOperationMode.auto_repair → IsRepairable node_id node db

-- The conditions as the code decides them.
abbrev is_taken : ℕ → NodeOperationMode → Node → Db → Bool
is_taken node_id mode node db =
    is_some (get_active_for_node node_id db) || is_refused mode node_id node db

module _ (node_id : ℕ) (node : Node) (db : Db) (stands : get db.nodes node_id ≡ some node) where
  refused_of : (b : Bool) → not b ≡ false → b ≡ true
  refused_of true h = refl
  refused_of false h = cc

  Allowed-if_free :
      (mode : NodeOperationMode)
      → is_taken node_id mode node db ≡ false
      → Allowed node_id mode node db
  Allowed-if_free mode h = elim (Option-cases (get_active_for_node node_id db)) [
    | inl idle ↦ record {
      stands = stands;
      idle = idle;
      repairable = λ e.
          let decided : not (may_repair node_id node db) ≡ false = rw (idle, e) at h in
          (may_repair-IsRepairable node_id node db).0
            (refused_of (may_repair node_id node db) decided);
    }
    | inr (job, active) ↦ let taken : true ≡ false = rw active at h in absurd (cc taken)
  ]

  free-if_Allowed :
      (mode : NodeOperationMode)
      → Allowed node_id mode node db
      → is_taken node_id mode node db ≡ false
  free-if_Allowed NodeOperationMode.disabled allowed = rw allowed.idle refl
  free-if_Allowed NodeOperationMode.monitor_only allowed = rw allowed.idle refl
  free-if_Allowed NodeOperationMode.auto_repair allowed =
      rw (allowed.idle, (may_repair-IsRepairable node_id node db).1 (allowed.repairable refl)) refl

module _ (out : Outside) (node_id : ℕ) (mode : NodeOperationMode) (w : World) where
  free_run :
      (node : Node)
      → get w.db.nodes node_id ≡ some node
      → is_taken node_id mode node w.db ≡ false
      → (step : Node × Bool) × Changed (out.now w.calls) mode node step
        × ((set_node_operation_mode out node_id mode w).0 ≡ ok tt)
        × ((set_node_operation_mode out node_id mode w).1.db.nodes
            ≡ put w.db.nodes step.0.id step.0)
  unfolding set_node_operation_mode store_mode session utc_now add_operator_event ◌>>=◌
  free_run node stands free =
      let (step, changes, changed) = change_mode_lem (out.now w.calls) node mode in
      (step, changed, rw (stands, free, changes) refl, rw (stands, free, changes) refl)

  accepted_run :
      (set_node_operation_mode out node_id mode w).0 ≡ ok tt
      → (node : Node) × (get w.db.nodes node_id ≡ some node)
        × (is_taken node_id mode node w.db ≡ false)
  unfolding set_node_operation_mode store_mode session ◌>>=◌ raise
  accepted_run h = elim (Option-cases (get w.db.nodes node_id)) [
    | inl missing ↦
        let failed : err Error.value_error ≡ ok tt = rw missing at h in absurd (cc failed)
    | inr (node, stands) ↦ elim (Bool-cases (is_taken node_id mode node w.db)) [
      | inl taken ↦
          let failed : err Error.value_error ≡ ok tt = rw (stands, taken) at h in absurd (cc failed)
      | inr free ↦ (node, stands, free)
    ]
  ]

  -- A change of the operation mode is accepted exactly if the node exists and has no active
  -- replacement job and, where the mode is AUTO_REPAIR, it has a current server with an id and its
  -- provider is active.
  pub set_node_operation_mode_iff :
      ((set_node_operation_mode out node_id mode w).0 ≡ ok tt)
      ↔ ((node : Node) × Allowed node_id mode node w.db)
  set_node_operation_mode_iff = (
    λ h.
        let (node, stands, free) = accepted_run h in
        (node, Allowed-if_free node_id node w.db stands mode free),
    λ (node, allowed).
        (free_run node allowed.stands
          (free-if_Allowed node_id node w.db allowed.stands mode allowed)).2,
  )

  -- An accepted change takes effect: the node has the mode; it is monitored and its state is not
  -- DISABLED exactly if the mode is not DISABLED, whatever they were before; and every other node
  -- is as it was. It assumes that each node stands under its own id.
  pub set_node_operation_mode-effective :
      Own (λ node. node.id) w.db.nodes
      → (set_node_operation_mode out node_id mode w).0 ≡ ok tt
      → let nodes : Table Node = (set_node_operation_mode out node_id mode w).1.db.nodes in
        ((node : Node) × (get nodes node_id ≡ some node) × InMode mode node)
        × ((k : ℕ) → eqb node_id k ≡ false → get nodes k ≡ get w.db.nodes k)
  set_node_operation_mode-effective own h =
      let (node, stands, free) = accepted_run h in
      let (step, changed, accepted, nodes) = free_run node stands free in
      let same : step.0.id ≡ node_id = changed.0 ∙ own node_id node stands in
      (
        (step.0, rw (nodes, same) (rw ((eqb_iff node_id node_id).1 refl) refl), changed.1),
        λ k other. rw nodes (rw same (rw other refl)),
      )
