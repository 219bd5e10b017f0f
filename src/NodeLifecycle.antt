-- ===== src/NodeLifecycle.antt =====
-- app/services/node_state.py: the state machine of a node.
pub mod Transitions
pub mod Paths
pub mod Forced
mod Examples
use aso_node_recovery.Prelude.{
  ℕ, Bool, true, false, ◌||◌, Option, List, [], ◌∷◌, ◌==◌, contains, if◌then◌else◌, not,
}
use aso_node_recovery.Errors.{Error, Result, ok, err, ◌>>=◌}
use aso_node_recovery.Moments.{Datetime, moment}
use aso_node_recovery.Models.NodeEnums.{
  NodeState, unknown, healthy, degraded, failed, replacing, deploying, verifying, disabled,
  node_state_eq,
}
use aso_node_recovery.Models.Rows.{Node}

-- `_ALLOWED_TRANSITIONS`
abbrev pub allowed_targets : NodeState → List NodeState
allowed_targets NodeState.unknown = healthy ∷ degraded ∷ NodeState.failed ∷ NodeState.disabled ∷ []
allowed_targets NodeState.healthy = degraded ∷ NodeState.disabled ∷ []
allowed_targets NodeState.degraded = healthy ∷ NodeState.failed ∷ NodeState.disabled ∷ []
allowed_targets NodeState.failed = healthy ∷ replacing ∷ NodeState.disabled ∷ []
allowed_targets NodeState.replacing =
    NodeState.deploying ∷ NodeState.failed ∷ NodeState.disabled ∷ []
allowed_targets NodeState.deploying =
    NodeState.verifying ∷ replacing ∷ NodeState.failed ∷ NodeState.disabled ∷ []
allowed_targets NodeState.verifying =
    healthy ∷ replacing ∷ NodeState.failed ∷ NodeState.disabled ∷ []
allowed_targets NodeState.disabled = unknown ∷ []

unfoldable pub can_transition : NodeState → NodeState → Bool
can_transition current target = target == current || contains (allowed_targets current) target

-- `{REPLACING, DEPLOYING, VERIFYING}`
abbrev pub is_workflow : NodeState → Bool
is_workflow NodeState.replacing = true
is_workflow NodeState.deploying = true
is_workflow NodeState.verifying = true
is_workflow _ = false

-- `{UNKNOWN, HEALTHY, DEGRADED, FAILED}`
abbrev pub is_restorable : NodeState → Bool
is_restorable NodeState.unknown = true
is_restorable NodeState.healthy = true
is_restorable NodeState.degraded = true
is_restorable NodeState.failed = true
is_restorable _ = false

-- `Node._apply_state_transition`
abbrev pub apply_state_transition : Node → NodeState → ℕ → Node
apply_state_transition node state occurred_at = record node {
  state = state;
  state_changed_at = occurred_at;
}

module _ (now : ℕ) where
  -- A method returns the node that it leaves, and its own result: whether the state changed.
  abbrev enter : Node → NodeState → Option Datetime → Result (Node × Bool)
  enter node target occurred_at =
      moment now occurred_at >>= λ t. ok (apply_state_transition node target t, true)

  unfoldable pub transition : Node → NodeState → Option Datetime → Result (Node × Bool)
  transition node target occurred_at =
      if target == node.state
      then ok (node, false)
      else if not (contains (allowed_targets node.state) target)
      then err Error.invalid_node_state_transition_error
      else enter node target occurred_at

  unfoldable pub transition_forced_replacement : Node → Option Datetime → Result (Node × Bool)
  transition_forced_replacement node occurred_at =
      if node.state == NodeState.disabled
      then err Error.invalid_node_state_transition_error
      else if is_workflow node.state
      then err Error.invalid_node_state_transition_error
      else if node.state == replacing
      then ok (node, false)
      else enter node replacing occurred_at

  unfoldable pub restore_after_forced_replacement :
      Node → NodeState → Option Datetime → Result (Node × Bool)
  restore_after_forced_replacement node original_state occurred_at =
      if not (is_restorable original_state)
      then err Error.invalid_node_state_transition_error
      else if not (is_workflow node.state)
      then (if node.state == original_state
          then ok (node, false)
          else err Error.invalid_node_state_transition_error)
      else enter node original_state occurred_at
