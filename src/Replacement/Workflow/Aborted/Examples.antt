-- ===== src/Replacement/Workflow/Aborted/Examples.antt =====
-- A forced repair that is cancelled, and one that fails.
use aso_node_recovery.Prelude.{arith, false, get_or, put, refl, some, true, ◌≡◌}
use aso_node_recovery.Errors.{Error, Result, ok}
use aso_node_recovery.Models.EventEnums.{ReplacementTriggerMode}
use aso_node_recovery.Models.JobEnums.{ReplacementCheckpoint}
use aso_node_recovery.Models.NodeEnums.{NodeState}
use aso_node_recovery.Models.NodeValues.{node_state_of_value}
use aso_node_recovery.Models.Rows.{Node, ReplacementJob}
use aso_node_recovery.NodeLifecycle.{is_restorable}
use aso_node_recovery.Replacement.SampleWorld.{
  no_rows, plain_node, plain_outside, plain_settings, sample_db, sample_world,
}
use aso_node_recovery.Replacement.Samples.{sample_job}
use aso_node_recovery.Replacement.Workflow.{cancel, fail_job}
use aso_node_recovery.Replacement.Workflow.Aborted.{
  CancelEnds, IsAborted, IsUnderWay, cancel-CancelEnds, fail_job-IsAborted,
}
use aso_node_recovery.Runtime.{World}

abbrev forced : ReplacementJob
forced = record (sample_job ReplacementCheckpoint.temp_cleanup) {
  trigger_mode = ReplacementTriggerMode.force;
  original_node_state = some "degraded";
}

restorable_degraded :
    (s : NodeState)
    → node_state_of_value (get_or forced.original_node_state "") ≡ some s
    → is_restorable s ≡ true
unfolding node_state_of_value
restorable_degraded s e = ground arith

abbrev repairing : World
repairing = record (sample_world forced) {
  db = record (sample_db forced) {
    nodes = put no_rows 1 (record plain_node { state = NodeState.replacing });
  };
}

abbrev busy_node : Node
busy_node = record plain_node { state = NodeState.replacing }

repairing-IsUnderWay : IsUnderWay repairing 100 forced busy_node
repairing-IsUnderWay = record {
  found = refl;
  own_id = refl;
  live = refl;
  node_found = refl;
  node_own_id = refl;
  restorable = restorable_degraded;
}

cancel-CancelEnds_example :
    CancelEnds plain_outside plain_settings repairing 100 forced busy_node repairing-IsUnderWay
      false
      (cancel plain_outside plain_settings 100 repairing)
cancel-CancelEnds_example =
    cancel-CancelEnds plain_outside plain_settings repairing 100 forced busy_node
      repairing-IsUnderWay

abbrev after_failure : Result (Unit {0}) × World
after_failure = fail_job plain_outside plain_settings 100 Error.master_error repairing

fail_job-IsAborted_example :
    (after_failure.0 ≡ ok tt)
    × IsAborted ReplacementCheckpoint.failed 100 forced repairing after_failure.1
fail_job-IsAborted_example =
    fail_job-IsAborted plain_outside plain_settings repairing 100 forced busy_node
      repairing-IsUnderWay Error.master_error
