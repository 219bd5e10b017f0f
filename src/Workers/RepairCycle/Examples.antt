-- ===== src/Workers/RepairCycle/Examples.antt =====
-- A cycle over a failed node that may be repaired.
use aso_node_recovery.Runtime
use aso_node_recovery.Workers.RepairCycle
use aso_node_recovery.Prelude.{[], arith, map, put, refl, select, true, ◌∷◌, ◌≡◌, ◌≤◌}
use aso_node_recovery.Errors.{ok}
use aso_node_recovery.Models.JobEnums.{ReplacementCheckpoint}
use aso_node_recovery.Models.NodeEnums.{NodeState}
use aso_node_recovery.Models.Rows.{Node}
use aso_node_recovery.Replacement.SampleWorld.{
  jobless_db, plain_node, plain_outside, plain_settings, sample_db,
}
use aso_node_recovery.Replacement.Samples.{sample_job}
use aso_node_recovery.Replacement.Sound.{AllSound}
use aso_node_recovery.Replacement.Trigger.{last}
use aso_node_recovery.Runtime.{World, session}
use aso_node_recovery.Workers.RepairCycle.{
  ReplacementCycleResult, eligible_nodes, no_cycle, resume_all, trigger_new,
}
use aso_node_recovery.Workers.RepairCycle.Bounds.{run_cycle-within}
use aso_node_recovery.Workers.RepairCycle.Sound.{run_cycle-AllSound}

no_job_stored : AllSound jobless_db
no_job_stored = record { row = λ id job e. absurd (ground arith) }

abbrev failed_world : World
failed_world = record {
  db = record jobless_db {
    nodes = put jobless_db.nodes 1 (record plain_node { state = NodeState.failed });
  };
  effects = [];
  calls = 0;
}

run_cycle-AllSound_example :
    AllSound (RepairCycle.run_cycle plain_outside plain_settings failed_world).1.db
run_cycle-AllSound_example =
    run_cycle-AllSound plain_outside plain_settings (ground arith) failed_world
      (record { row = no_job_stored.row })

run_cycle-within_example :
    (r : ReplacementCycleResult) × ((RepairCycle.run_cycle plain_outside plain_settings
        failed_world).0
      ≡ ok r)
    × (r.resumed_jobs ≤ 100)
    × (r.triggered_jobs ≤ 2)
run_cycle-within_example = run_cycle-within plain_outside plain_settings (ground arith) failed_world

-- One node has room for a job, and a node whose last job failed has none.
one_is_eligible :
    map
      (λ (node : Node). node.id)
      (eligible_nodes
        (sample_db (sample_job ReplacementCheckpoint.failed))
        2
        0
        (record plain_node { id = 2 } ∷ plain_node ∷ record plain_node { id = 3 } ∷ []))
    ≡ 2 ∷ 3 ∷ []
unfolding eligible_nodes select last
one_is_eligible = refl

a_dry_cycle_triggers_nothing :
    (RepairCycle.run_cycle
      (record plain_outside { effective_dry_run = λ _. true })
      plain_settings
      failed_world).0
    ≡ ok no_cycle
unfolding RepairCycle.run_cycle resume_all trigger_new session select Runtime.◌>>=◌
a_dry_cycle_triggers_nothing = refl
