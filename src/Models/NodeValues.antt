-- ===== src/Models/NodeValues.antt =====
-- The texts of `NodeState` in app/models/enums.py, as the column `original_node_state` keeps them.
use aso_node_recovery.Prelude.{Option, String, if◌then◌else◌, none, refl, some, str_eq, ◌≡◌}
use aso_node_recovery.Models.NodeEnums.{NodeState}

-- `state.value`
abbrev pub node_state_value : NodeState → String
node_state_value NodeState.unknown = "unknown"
node_state_value NodeState.healthy = "healthy"
node_state_value NodeState.degraded = "degraded"
node_state_value NodeState.failed = "failed"
node_state_value NodeState.replacing = "replacing"
node_state_value NodeState.deploying = "deploying"
node_state_value NodeState.verifying = "verifying"
node_state_value NodeState.disabled = "disabled"

-- `NodeState(text)`; `none` for its ValueError
unfoldable pub node_state_of_value : String → Option NodeState
node_state_of_value text =
    if str_eq text "unknown"
    then some NodeState.unknown
    else if str_eq text "healthy"
    then some NodeState.healthy
    else if str_eq text "degraded"
    then some NodeState.degraded
    else if str_eq text "failed"
    then some NodeState.failed
    else if str_eq text "replacing"
    then some NodeState.replacing
    else if str_eq text "deploying"
    then some NodeState.deploying
    else if str_eq text "verifying"
    then some NodeState.verifying
    else if str_eq text "disabled"
    then some NodeState.disabled
    else none

pub node_state_of_value-value : (s : NodeState) → node_state_of_value (node_state_value s) ≡ some s
unfolding node_state_of_value
node_state_of_value-value NodeState.unknown = refl
node_state_of_value-value NodeState.healthy = refl
node_state_of_value-value NodeState.degraded = refl
node_state_of_value-value NodeState.failed = refl
node_state_of_value-value NodeState.replacing = refl
node_state_of_value-value NodeState.deploying = refl
node_state_of_value-value NodeState.verifying = refl
node_state_of_value-value NodeState.disabled = refl
