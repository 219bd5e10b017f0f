-- ===== src/Control/Examples.antt =====
-- A node that is put under repair, disabled, and refused.
use aso_node_recovery.NodeLifecycle
use aso_node_recovery.Prelude.{Table, [], eqb, false, get, refl, select, some, ℕ, ◌↔◌, ◌≡◌}
use aso_node_recovery.Control.{
  add_operator_event, change_mode, set_node_operation_mode, set_provider_active, store_mode,
}
use aso_node_recovery.Control.Modes.{
  Allowed, InMode, set_node_operation_mode-effective, set_node_operation_mode_iff,
}
use aso_node_recovery.Errors.{Error, err, ok}
use aso_node_recovery.Models.JobEnums.{ReplacementCheckpoint}
use aso_node_recovery.Models.NodeEnums.{NodeOperationMode}
use aso_node_recovery.Models.Rows.{Node}
use aso_node_recovery.Registry.Rows.{Own, Own-put}
use aso_node_recovery.Replacement.Access.{utc_now}
use aso_node_recovery.Replacement.SampleWorld.{
  jobless_db, no_rows, plain_node, plain_outside, sample_world,
}
use aso_node_recovery.Replacement.Samples.{sample_job}
use aso_node_recovery.Replacement.Trigger.{last}
use aso_node_recovery.Runtime.{World, session, ◌>>=◌}

abbrev idle_world : World
idle_world = record { db = jobless_db; effects = []; calls = 0 }

nodes-Own : Own (λ node. node.id) jobless_db.nodes
nodes-Own = Own-put (λ node. node.id) no_rows plain_node (λ k r h. absurd (cc h))

set_node_operation_mode_iff_example :
    ((set_node_operation_mode plain_outside 1 NodeOperationMode.auto_repair idle_world).0 ≡ ok tt)
    ↔ ((node : Node) × Allowed 1 NodeOperationMode.auto_repair node idle_world.db)
set_node_operation_mode_iff_example =
    set_node_operation_mode_iff plain_outside 1 NodeOperationMode.auto_repair idle_world

set_node_operation_mode-effective_example :
    let nodes : Table Node =
      (set_node_operation_mode plain_outside 1 NodeOperationMode.disabled idle_world).1.db.nodes in
    ((node : Node) × (get nodes 1 ≡ some node) × InMode NodeOperationMode.disabled node)
    × ((k : ℕ) → eqb 1 k ≡ false → get nodes k ≡ get idle_world.db.nodes k)
unfolding set_node_operation_mode store_mode session change_mode NodeLifecycle.transition
    add_operator_event utc_now select ◌>>=◌
set_node_operation_mode-effective_example =
    set_node_operation_mode-effective plain_outside 1 NodeOperationMode.disabled idle_world
      nodes-Own refl

-- A node with an active job keeps its mode.
a_busy_node_keeps_its_mode :
    set_node_operation_mode plain_outside 1 NodeOperationMode.disabled
      (sample_world (sample_job ReplacementCheckpoint.deploying))
    ≡ (err Error.value_error, sample_world (sample_job ReplacementCheckpoint.deploying))
unfolding set_node_operation_mode store_mode session select ◌>>=◌
a_busy_node_keeps_its_mode = refl

-- A provider that is switched off takes no repairs.
no_repair_without_provider :
    (set_node_operation_mode plain_outside 1 NodeOperationMode.auto_repair
      (set_provider_active plain_outside 1 false idle_world).1).0
    ≡ err Error.value_error
unfolding set_node_operation_mode store_mode set_provider_active add_operator_event utc_now session
    select last ◌>>=◌
no_repair_without_provider = refl
