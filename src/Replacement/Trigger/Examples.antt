-- ===== src/Replacement/Trigger/Examples.antt =====
-- A trigger for a failed node with a current VPS.
use aso_node_recovery.NodeLifecycle
use aso_node_recovery.Prelude.{
  Listed, Listed-put, [], arith, false, inr, put, refl, select, some, true, ◌≡◌,
}
use aso_node_recovery.Errors.{ok}
use aso_node_recovery.Models.JobEnums.{ReplacementCheckpoint}
use aso_node_recovery.Models.NodeEnums.{NodeState}
use aso_node_recovery.Models.Rows.{ReplacementJob}
use aso_node_recovery.Replacement.Access.{
  add_event, assert_not_paused, move_node, require_node, require_provider, utc_now,
}
use aso_node_recovery.Replacement.SampleWorld.{
  jobless_db, no_rows, plain_node, plain_outside, plain_settings, sample_world,
}
use aso_node_recovery.Replacement.Samples.{sample_job}
use aso_node_recovery.Replacement.Sound.{AllSound}
use aso_node_recovery.Replacement.Trigger.{add_job, admit, create_job, last, trigger}
use aso_node_recovery.Replacement.Trigger.Admission.{
  Answers, Stored, admit-existing, trigger-AllSound,
}
use aso_node_recovery.Runtime.{World, session, ◌>>=◌}

no_job_stored : AllSound jobless_db
no_job_stored = record { row = λ id job e. absurd (ground arith) }

abbrev failed_world : World
failed_world = record {
  db = record jobless_db {
    nodes = put jobless_db.nodes 1 (record plain_node { state = NodeState.failed });
  };
  effects = [];
  calls = 0;
}

trigger-AllSound_example :
    AllSound (trigger plain_outside plain_settings 1 false (some "request-1") failed_world).1.db
trigger-AllSound_example =
    trigger-AllSound plain_outside plain_settings (ground arith) 1 false (some "request-1")
      failed_world (record { row = no_job_stored.row })

job_admitted :
    (trigger plain_outside plain_settings 1 false (some "request-1") failed_world).0 ≡ ok 503
unfolding trigger ◌>>=◌ assert_not_paused admit session select require_node create_job last
    require_provider add_job move_node utc_now NodeLifecycle.transition add_event
job_admitted = refl

abbrev running_job : ReplacementJob
running_job = record (sample_job ReplacementCheckpoint.deploying) { request_key = some "request-1" }

running_jobs-Listed : Listed (sample_world running_job).db.jobs
running_jobs-Listed = Listed-put no_rows 100 running_job (λ k r h. absurd (cc h))

admit-existing_example :
    let w : World = sample_world running_job in
    Stored
      (λ job.
        Answers 1 (some "request-2") w.db job
        × (admit plain_outside plain_settings 1 true (some "request-2") false w ≡ (ok job.id, w)))
      w.db
admit-existing_example =
    admit-existing plain_outside plain_settings 1 true (some "request-2") false
      (sample_world running_job) running_jobs-Listed
      (inr ((plain_node, refl), (100, running_job, refl, (refl, refl))))
