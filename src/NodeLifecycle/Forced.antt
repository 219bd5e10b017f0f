-- ===== src/NodeLifecycle/Forced.antt =====
-- The forced repair: how it enters the workflow, and how it is undone.
use aso_node_recovery.Prelude.{Bool, Option, arith, none, true, ℕ, ◌≡◌}
use aso_node_recovery.Errors.{is_ok, ok}
use aso_node_recovery.Models.NodeEnums.{NodeState, node_state_eq}
use aso_node_recovery.Models.Rows.{Node}
use aso_node_recovery.Moments.{Datetime}
use aso_node_recovery.NodeLifecycle.{
  apply_state_transition, is_restorable, is_workflow, restore_after_forced_replacement,
  transition_forced_replacement,
}

-- A forced repair is accepted exactly from a state to which it can be restored later.
pub transition_forced_replacement_accepts :
    (now : ℕ) (node : Node)
    → is_ok (transition_forced_replacement now node none) ≡ is_restorable node.state
unfolding transition_forced_replacement
transition_forced_replacement_accepts now node = ground arith

forced_from_restorable :
    (now : ℕ) (node : Node) (at : Option Datetime) (entered : Node) (changed : Bool)
    → transition_forced_replacement now node at ≡ ok (entered, changed)
    → is_restorable node.state ≡ true
unfolding transition_forced_replacement
forced_from_restorable now node at entered changed h = ground arith

pub restore_from_workflow :
    (now : ℕ) (node : Node) (original : NodeState)
    → is_restorable original ≡ true
    → is_workflow node.state ≡ true
    → restore_after_forced_replacement now node original none
      ≡ ok (apply_state_transition node original now, true)
unfolding restore_after_forced_replacement
restore_from_workflow now node original h k = ground arith

-- Undoing a forced repair. Once a forced repair of a node was accepted, a node that stands in any
-- state of the replacement workflow can be given back the state from before the repair; nothing but
-- the state and its time is changed by that.
pub restore-force :
    (now later : ℕ) (node : Node) (at : Option Datetime) (entered : Node) (changed : Bool)
    (during : Node)
    → transition_forced_replacement now node at ≡ ok (entered, changed)
    → is_workflow during.state ≡ true
    → restore_after_forced_replacement later during node.state none
      ≡ ok (apply_state_transition during node.state later, true)
restore-force now later node at entered changed during h k =
    restore_from_workflow later during node.state
      (forced_from_restorable now node at entered changed h) k

-- A restore never puts a node into DISABLED or into a state of the workflow.
pub restore_target :
    (now : ℕ) (node : Node) (original : NodeState) (at : Option Datetime) (after : Node)
    (changed : Bool)
    → restore_after_forced_replacement now node original at ≡ ok (after, changed)
    → (after.state ≡ original) × (is_restorable after.state ≡ true)
unfolding restore_after_forced_replacement
restore_target now node original at after changed h =
    ground (arith, node_state_eq.agree_iff node.state original)
