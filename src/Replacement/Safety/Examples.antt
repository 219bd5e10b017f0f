-- ===== src/Replacement/Safety/Examples.antt =====
-- The workflow on sample rows.
use aso_node_recovery.NodeLifecycle
use aso_node_recovery.Replacement.Checkpoints
use aso_node_recovery.Prelude.{
  Option, Table, [], arith, false, get, if◌then◌else◌, nat_eq, none, put, refl, select, some,
  string_eq, true, ◌<◌, ◌==◌, ◌↔◌, ◌∷◌, ◌≡◌, ◌≤◌,
}
use aso_node_recovery.Deployment.Service.{new_attempt, simulate_success}
use aso_node_recovery.Deployment.Service.Simulation.{DoneOrRaised, simulate_success-ends}
use aso_node_recovery.Errors.{Error, err, ok}
use aso_node_recovery.Models.EventEnums.{
  event_severity_eq, node_check_outcome_eq, replacement_trigger_mode_eq,
  secret_reference_backend_eq,
}
use aso_node_recovery.Models.JobEnums.{
  ReplacementCheckpoint, replacement_checkpoint_eq, replacement_job_state_eq,
}
use aso_node_recovery.Models.NodeEnums.{
  DeploymentState, NodeState, deployment_state_eq, node_operation_mode_eq, node_state_eq,
  provider_type_eq, ssh_auth_method_eq, vps_instance_role_eq, vps_instance_state_eq,
}
use aso_node_recovery.Models.Rows.{Deployment, ReplacementJob}
use aso_node_recovery.Outside.{Adapter, ReachabilityDecision}
use aso_node_recovery.Replacement.Access.{
  acquire_lease, add_event, advance, assert_not_paused, move_node, release_lease, renew_lease,
  require_credential, require_deployment, require_job, require_new_vps, require_node,
  require_provider, utc_now,
}
use aso_node_recovery.Replacement.Guard.{assert_can_delete, missing_gates, note}
use aso_node_recovery.Replacement.Leases.{
  acquire_row, release_row, release_workflow_lease, try_acquire_workflow_lease, with_lease,
}
use aso_node_recovery.Replacement.Leases.Exclusion.{acquire-exclusive, release-acquire}
use aso_node_recovery.Replacement.Safety.OldVps.{
  JustifiedCalls, stage_old_vps_cleanup-JustifiedCalls,
}
use aso_node_recovery.Replacement.Safety.Provisioning.{RoomyCalls, stage_provisioning-RoomyCalls}
use aso_node_recovery.Replacement.Safety.Reads.{Returns}
use aso_node_recovery.Replacement.Safety.Temporary.{LeftoverCalls, stage_temp_cleanup-LeftoverCalls}
use aso_node_recovery.Replacement.SampleWorld.{
  jobless_db, plain_node, plain_outside, plain_settings, sample_db, sample_world,
}
use aso_node_recovery.Replacement.Samples.{new_server, sample_deployment, sample_job, verified_job}
use aso_node_recovery.Replacement.Stages.Address.{Rounds, consensus, verify_candidate_reachability}
use aso_node_recovery.Replacement.Stages.Address.Consensus.{
  RestsOnRounds, consensus_iff, verify_candidate_reachability-RestsOnRounds,
}
use aso_node_recovery.Replacement.Stages.Cleanup.{
  end_attempt, expected_name, find_leftover, stage_temp_cleanup,
}
use aso_node_recovery.Replacement.Stages.Finish.{
  choose_doomed, finish_live, stage_old_vps_cleanup, switch_registry,
}
use aso_node_recovery.Replacement.Stages.Provision.{stage_provisioning}
use aso_node_recovery.Replacement.Stages.Ready.{sleep_pieces}
use aso_node_recovery.Replacement.Stages.Ready.Waiting.{sleep_pieces-enough}
use aso_node_recovery.Replacement.Workflow.{
  assert_runtime_execution_allowed, dispatch, fail_job, get_checkpoint, one_round, restore_node,
  resume, rounds, run_checkpoint, try_finally,
}
use aso_node_recovery.Runtime.{Effect, Exec, World, session, try_catch, ◌>>=◌}

abbrev cleaning : ReplacementJob
cleaning = verified_job ReplacementCheckpoint.old_vps_cleanup

abbrev live : Adapter
live = record { provider_id = 1; dry_run = false }

stage_old_vps_cleanup-JustifiedCalls_example :
    JustifiedCalls plain_outside plain_settings
      (sample_db cleaning)
      100
      (sample_world cleaning)
      (stage_old_vps_cleanup plain_outside plain_settings 100 "t" (sample_world cleaning)).1
stage_old_vps_cleanup-JustifiedCalls_example =
    stage_old_vps_cleanup-JustifiedCalls plain_outside plain_settings 100 "t"
      (sample_world cleaning)

-- The registered address is the one that the provider reports: the old server is deleted.
old_server_deleted :
    (stage_old_vps_cleanup plain_outside plain_settings 100 "t" (sample_world cleaning)).1.effects
    ≡ Effect.delete_server live "srv-old" ∷ []
unfolding stage_old_vps_cleanup choose_doomed finish_live switch_registry assert_can_delete
    missing_gates note select session try_catch require_job require_node require_provider
    require_credential require_new_vps require_deployment utc_now advance move_node add_event
    renew_lease acquire_lease try_acquire_workflow_lease acquire_row Checkpoints.transition
    NodeLifecycle.transition Checkpoints.allowed Checkpoints.move_to ◌>>=◌
old_server_deleted = refl

-- A failed attempt: its server is there, under its name and its address.
abbrev filtered : ReplacementJob
filtered = sample_job ReplacementCheckpoint.temp_cleanup

abbrev filtered_world : World
filtered_world = record (sample_world filtered) {
  db = record (sample_db filtered) {
    vps = put jobless_db.vps 11 (record new_server { host = some "198.51.100.7" });
  };
}

stage_temp_cleanup-LeftoverCalls_example :
    LeftoverCalls plain_outside plain_settings filtered_world.db
      (find_leftover plain_outside plain_settings 100 "t" filtered_world).1
      100
      filtered_world
      (stage_temp_cleanup plain_outside plain_settings 100 "t" filtered_world).1
stage_temp_cleanup-LeftoverCalls_example =
    stage_temp_cleanup-LeftoverCalls plain_outside plain_settings 100 "t" filtered_world

temporary_server_deleted :
    (stage_temp_cleanup plain_outside plain_settings 100 "t" filtered_world).1.effects
    ≡ Effect.delete_server live "srv-new" ∷ []
unfolding stage_temp_cleanup find_leftover expected_name end_attempt session try_catch require_job
    require_node require_provider require_credential require_new_vps require_deployment utc_now
    advance move_node add_event renew_lease acquire_lease try_acquire_workflow_lease acquire_row
    Checkpoints.transition NodeLifecycle.transition Checkpoints.allowed Checkpoints.move_to ◌>>=◌
temporary_server_deleted = refl

abbrev leased_jobs : Table ReplacementJob
leased_jobs = put (sample_db filtered).jobs 100 (with_lease filtered (some "t") (some 1090))

acquire-exclusive_example :
    (try_acquire_workflow_lease leased_jobs 100 "other" 1050 1200 ≡ (leased_jobs, false))
    × ((try_acquire_workflow_lease leased_jobs 100 "t" 1050 1200).1 ≡ true)
unfolding try_acquire_workflow_lease acquire_row
acquire-exclusive_example =
    acquire-exclusive (sample_db filtered).jobs leased_jobs 100 "t" "other" 1000 1090 1050 1200 refl
      refl (ground arith)

release-acquire_example :
    ((try_acquire_workflow_lease
        (release_workflow_lease (sample_db filtered).jobs 100 "t")
        100
        "other"
        1050
        1200).1
      ≡ true)
    × (release_workflow_lease (sample_db filtered).jobs 100 "other" ≡ (sample_db filtered).jobs)
release-acquire_example =
    release-acquire (sample_db filtered).jobs 100 filtered "t" "other" 1050 1200 refl refl refl refl

abbrev two_clean : Rounds
two_clean = record { clean = 2; filtered = 1; external_unavailable = 0; indeterminate = 0 }

consensus_iff_example :
    ((consensus 2 two_clean ≡ ReachabilityDecision.reachable) ↔ (2 ≤ two_clean.clean))
    × ((consensus 2 two_clean ≡ ReachabilityDecision.unreachable)
        ↔ ((2 ≤ two_clean.filtered) × (two_clean.clean < 2)))
consensus_iff_example = consensus_iff 2 two_clean

verify_candidate_reachability-RestsOnRounds_example :
    Returns
      (verify_candidate_reachability plain_outside plain_settings 100 "t" "203.0.113.9")
      (RestsOnRounds plain_outside plain_settings "203.0.113.9" 0)
      (sample_world filtered)
verify_candidate_reachability-RestsOnRounds_example =
    verify_candidate_reachability-RestsOnRounds plain_outside plain_settings 100 "t" "203.0.113.9"
      (sample_world filtered)

-- A job whose server is still to be created.
abbrev starting : World
starting = sample_world (record filtered {
  checkpoint = ReplacementCheckpoint.provisioning;
  new_vps_instance_id = none;
})

stage_provisioning-RoomyCalls_example :
    RoomyCalls plain_outside plain_settings starting.db 100 starting
      (stage_provisioning plain_outside plain_settings 100 "t" starting).1
stage_provisioning-RoomyCalls_example =
    stage_provisioning-RoomyCalls plain_outside plain_settings 100 "t" starting

abbrev interrupted : Deployment
interrupted = record sample_deployment { state = DeploymentState.installing; completed_at = none }

-- A callback whose lease is lost at the last step.
abbrev lease_lost : Deployment → Exec (Unit {0})
lease_lost row w =
    if row.state == DeploymentState.succeeded
    then (err Error.replacement_busy_error, w)
    else (ok tt, w)

simulate_success-ends_example :
    DoneOrRaised plain_outside plain_settings lease_lost
      (simulate_success plain_outside plain_settings lease_lost
        (new_attempt interrupted)
        (sample_world filtered)).0
simulate_success-ends_example =
    simulate_success-ends plain_outside plain_settings lease_lost (new_attempt interrupted)
      (sample_world filtered) refl

sleep_pieces-enough_example :
    sleep_pieces plain_outside plain_settings 90 100 "t" 90
    ≡ sleep_pieces plain_outside plain_settings 200 100 "t" 90
sleep_pieces-enough_example =
    sleep_pieces-enough plain_outside plain_settings 100 "t" 90 200 90 (ground arith) (ground arith)

-- A node that an operator disabled during the cleanup: its old server is deleted, the switch of the
-- registry is refused, and the job fails.
abbrev disabled_world : World
disabled_world = record (sample_world cleaning) {
  db = record (sample_db cleaning) {
    nodes = put jobless_db.nodes 1 (record plain_node { state = NodeState.disabled });
  };
}

abbrev ended : World
ended = (resume plain_outside plain_settings 100 "t" disabled_world).1

abbrev checkpoint_of : Option ReplacementJob → Option ReplacementCheckpoint
checkpoint_of none = none
checkpoint_of (some job) = some job.checkpoint

deleted_then_failed :
    (ended.effects ≡ Effect.delete_server live "srv-old" ∷ [])
    × (checkpoint_of (get ended.db.jobs 100) ≡ some ReplacementCheckpoint.failed)
unfolding resume try_finally rounds one_round run_checkpoint dispatch get_checkpoint
    assert_runtime_execution_allowed fail_job release_lease release_workflow_lease release_row
    restore_node stage_old_vps_cleanup choose_doomed finish_live switch_registry assert_can_delete
    missing_gates note select session try_catch require_job require_node require_provider
    require_credential require_new_vps require_deployment utc_now advance move_node add_event
    renew_lease acquire_lease assert_not_paused try_acquire_workflow_lease acquire_row
    Checkpoints.transition NodeLifecycle.transition Checkpoints.allowed Checkpoints.move_to ◌>>=◌
deleted_then_failed = (refl, refl)
