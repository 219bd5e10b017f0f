-- ===== src/Replacement/Workflow/Restore.antt =====
-- What a failed or cancelled job leaves of its node.
use aso_node_recovery.NodeLifecycle
use aso_node_recovery.Prelude.{
  Bool, Option, arith, false, get_or, if◌then◌else◌, none, not, refl, some, true, ℕ, ◌≡◌,
}
use aso_node_recovery.Errors.{Result, ok}
use aso_node_recovery.Models.NodeEnums.{NodeState}
use aso_node_recovery.Models.NodeValues.{node_state_of_value}
use aso_node_recovery.Models.Rows.{Node, ReplacementJob}
use aso_node_recovery.NodeLifecycle.{apply_state_transition, is_restorable, is_workflow}
use aso_node_recovery.NodeLifecycle.Forced.{restore_from_workflow}
use aso_node_recovery.Outside.{Outside}
use aso_node_recovery.Replacement.Workflow.{back_to, restore_node}
use aso_node_recovery.Settings.{Settings}

to_failed :
    (now : ℕ) (node : Node)
    → is_workflow node.state ≡ true
    → NodeLifecycle.transition now node NodeState.failed none
      ≡ ok (apply_state_transition node NodeState.failed now, true)
unfolding NodeLifecycle.transition
to_failed now node busy = ground arith

restorable_out : (s : NodeState) → is_restorable s ≡ true → is_workflow s ≡ false
restorable_out s h = ground arith

module _ (out : Outside) (settings : Settings) (now : ℕ) where
  -- The node that `restore_node` gives back is the same one, outside the workflow.
  abbrev pub LeavesWorkflow : Node → Result (Node × Bool) → Type 0
  LeavesWorkflow node answer =
      (after : Node) × (changed : Bool) × (answer ≡ ok (after, changed))
      × (is_workflow after.state ≡ false)
      × (after.id ≡ node.id)

  back_to-LeavesWorkflow :
      (node : Node) (original : Option NodeState)
      → is_workflow node.state ≡ true
      → ((s : NodeState) → original ≡ some s → is_restorable s ≡ true)
      → LeavesWorkflow node (back_to out settings now node original)
  back_to-LeavesWorkflow node none busy restorable =
      (apply_state_transition node NodeState.failed now, true, to_failed now node busy, refl, refl)
  back_to-LeavesWorkflow node (some s) busy restorable = (
    apply_state_transition node s now,
    true,
    restore_from_workflow now node s (restorable s refl) busy,
    restorable_out s (restorable s refl),
    refl,
  )

  branches :
      (node : Node) (busy forced : Bool) (x y z : Result (Node × Bool))
      → (busy ≡ false → LeavesWorkflow node x)
      → (busy ≡ true → LeavesWorkflow node y)
      → (busy ≡ true → LeavesWorkflow node z)
      → LeavesWorkflow node (if not busy then x else if forced then y else z)
  branches node false forced x y z h j k = h refl
  branches node true true x y z h j k = j refl
  branches node true false x y z h j k = k refl

  -- The restoring itself never raises, if the state that a forced job recorded is one that can be
  -- restored.
  pub restore_node-LeavesWorkflow :
      (node : Node) (job : ReplacementJob)
      → ((s : NodeState)
          → node_state_of_value (get_or job.original_node_state "") ≡ some s
          → is_restorable s ≡ true)
      → LeavesWorkflow node (restore_node out settings now node job)
  unfolding restore_node
  restore_node-LeavesWorkflow node job restorable =
      branches node (is_workflow node.state) _ _ _ _ (λ idle. (node, false, refl, idle, refl))
        (λ busy.
          back_to-LeavesWorkflow node (node_state_of_value (get_or job.original_node_state "")) busy
            restorable)
        (λ busy. back_to-LeavesWorkflow node none busy λ s e. absurd (ground arith))
