-- ===== src/Replacement/Workflow/Examples.antt =====
-- A live replacement from its first checkpoint to its end, in one call of `resume`.
use aso_node_recovery.Deployment.Progress
use aso_node_recovery.Deployment.Service
use aso_node_recovery.NodeLifecycle
use aso_node_recovery.Replacement.Checkpoints
use aso_node_recovery.Runtime
use aso_node_recovery.Prelude.{
  String, [], false, if◌then◌else◌, map, none, put, refl, select, true, ◌∷◌, ◌≡◌,
}
use aso_node_recovery.Deployment.Service.{
  deploy, deploy_phases, simulate_success, step_to, steps_to,
}
use aso_node_recovery.Errors.{Result, ok}
use aso_node_recovery.Models.JobEnums.{ReplacementCheckpoint}
use aso_node_recovery.Models.NodeEnums.{NodeState}
use aso_node_recovery.Models.Rows.{ReplacementJob}
use aso_node_recovery.Replacement.Access.{
  acquire_lease, add_event, advance, assert_not_paused, move_node, release_lease, renew_lease,
  require_credential, require_deployment, require_job, require_new_vps, require_node,
  require_provider, utc_now,
}
use aso_node_recovery.Replacement.Guard.{assert_can_delete, missing_gates, note}
use aso_node_recovery.Replacement.Leases.{
  acquire_row, release_row, release_workflow_lease, try_acquire_workflow_lease,
}
use aso_node_recovery.Replacement.Mutation.{
  assert_master_test_result, deployment_scheme, from_existing, from_snapshot,
  normalize_target_mutation, parse_master_node_id, prepare_pin_if_needed,
  resolve_deployment_api_token, retarget, target_mutation,
}
use aso_node_recovery.Replacement.SampleWorld.{
  jobless_db, no_rows, plain_node, plain_outside, plain_settings, sample_db, sample_world,
}
use aso_node_recovery.Replacement.Samples.{old_server, sample_job}
use aso_node_recovery.Replacement.Stages.Address.{
  consensus, host_to_check, record_decision, run_round, run_rounds, stage_checking_ip,
  verify_candidate_reachability,
}
use aso_node_recovery.Replacement.Stages.Deploy.{
  deploying_ground, persist_transition, record_success, stage_deploying, stage_ip_verified,
}
use aso_node_recovery.Replacement.Stages.Finish.{
  choose_doomed, finish_dry_run, finish_live, record_final, stage_final_check,
  stage_old_vps_cleanup, switch_registry,
}
use aso_node_recovery.Replacement.Stages.Master.{
  assert_replaceable, build_new_master_mutation, master_target, node_verified_target, preflight,
  record_master, stage_master_updating, stage_master_verifying, stage_next, stage_node_verified,
}
use aso_node_recovery.Replacement.Stages.Provision.{
  build_create_request, create_temporary, plan_provisioning, record_server, stage_created,
  stage_provisioning, validate_capacity,
}
use aso_node_recovery.Replacement.Stages.Ready.{
  server_running, server_to_await, sleep_pieces, sleep_with_lease, stage_provisioned,
  wait_for_vps_boot_grace,
}
use aso_node_recovery.Replacement.Workflow.{
  RunResult, assert_runtime_execution_allowed, dispatch, get_checkpoint, one_round, resume, rounds,
  run_checkpoint, try_finally,
}
use aso_node_recovery.Runtime.{Effect, World, session, try_catch}

abbrev fresh : ReplacementJob
fresh = record (sample_job ReplacementCheckpoint.created) {
  attempt_count = 0;
  new_vps_instance_id = none;
}

abbrev fresh_world : World
fresh_world = record (sample_world fresh) {
  db = record (sample_db fresh) {
    nodes = put jobless_db.nodes 1 (record plain_node { state = NodeState.replacing });
    vps = put no_rows 10 old_server;
    deployments = no_rows;
  };
}

abbrev finished : Result RunResult × World
finished = resume plain_outside plain_settings 100 "t" fresh_world

abbrev effect_name : Effect → String
effect_name (Effect.create_server adapter request) =
    if adapter.dry_run then "simulated" else "create"
effect_name (Effect.delete_server adapter server_id) =
    if adapter.dry_run then "simulated" else server_id
effect_name (Effect.update_node master_id mutation) = mutation.address
effect_name (Effect.write_secret name value) = name
effect_name (Effect.delete_secret reference) = reference
effect_name (Effect.bootstrap host) = "bootstrap"
effect_name (Effect.install host) = "install"
effect_name (Effect.rollback host) = "rollback"

abbrev completed : Result RunResult
completed =
    ok (record { checkpoint = ReplacementCheckpoint.completed; terminal = true; deferred = false })

replacement_completes :
    (finished.0 ≡ completed)
    × (map effect_name finished.1.effects
        ≡ "create" ∷ "bootstrap" ∷ "node-api-token" ∷ "panel-password" ∷ "203.0.113.9" ∷ "srv-old"
          ∷ [])
unfolding resume try_finally rounds one_round run_checkpoint dispatch get_checkpoint
    assert_runtime_execution_allowed release_lease release_workflow_lease release_row stage_created
    stage_provisioning plan_provisioning build_create_request create_temporary validate_capacity
    record_server stage_provisioned server_to_await server_running wait_for_vps_boot_grace
    sleep_with_lease sleep_pieces stage_checking_ip host_to_check verify_candidate_reachability
    run_rounds run_round consensus record_decision stage_ip_verified stage_deploying
    deploying_ground deploy deploy_phases step_to Progress.transition record_success
    persist_transition stage_node_verified node_verified_target preflight assert_replaceable
    build_new_master_mutation prepare_pin_if_needed from_existing from_snapshot
    normalize_target_mutation retarget assert_master_test_result parse_master_node_id
    deployment_scheme resolve_deployment_api_token target_mutation stage_master_updating
    master_target record_master stage_next stage_master_verifying stage_final_check record_final
    stage_old_vps_cleanup choose_doomed finish_live switch_registry assert_can_delete missing_gates
    note select session try_catch require_job require_node require_provider require_credential
    require_new_vps require_deployment utc_now advance move_node add_event renew_lease acquire_lease
    assert_not_paused try_acquire_workflow_lease acquire_row Checkpoints.transition
    NodeLifecycle.transition Checkpoints.allowed Checkpoints.move_to Service.◌>>=◌ Runtime.◌>>=◌
replacement_completes = (refl, refl)

-- The same as a dry run: only the simulating adapter and the secret store are called.
abbrev simulated : Result RunResult × World
simulated = resume plain_outside plain_settings 100 "t" (record fresh_world {
  db = record fresh_world.db { jobs = put no_rows 100 (record fresh { is_dry_run = true }) };
})

simulation_completes :
    (simulated.0 ≡ completed)
    × (map effect_name simulated.1.effects
        ≡ "simulated" ∷ "node-api-token" ∷ "panel-password" ∷ "simulated" ∷ [])
unfolding resume try_finally rounds one_round run_checkpoint dispatch get_checkpoint
    assert_runtime_execution_allowed release_lease release_workflow_lease release_row stage_created
    stage_provisioning plan_provisioning build_create_request create_temporary validate_capacity
    record_server stage_provisioned server_to_await server_running wait_for_vps_boot_grace
    sleep_with_lease sleep_pieces stage_checking_ip host_to_check verify_candidate_reachability
    run_rounds run_round consensus record_decision stage_ip_verified stage_deploying
    deploying_ground deploy deploy_phases step_to Progress.transition record_success
    persist_transition stage_node_verified node_verified_target preflight assert_replaceable
    build_new_master_mutation prepare_pin_if_needed from_existing from_snapshot
    normalize_target_mutation retarget assert_master_test_result parse_master_node_id
    deployment_scheme resolve_deployment_api_token target_mutation stage_master_updating
    master_target record_master stage_next stage_master_verifying stage_final_check record_final
    stage_old_vps_cleanup choose_doomed finish_live switch_registry assert_can_delete missing_gates
    note select session try_catch require_job require_node require_provider require_credential
    require_new_vps require_deployment utc_now advance move_node add_event renew_lease acquire_lease
    assert_not_paused try_acquire_workflow_lease acquire_row Checkpoints.transition
    NodeLifecycle.transition Checkpoints.allowed Checkpoints.move_to Service.◌>>=◌ Runtime.◌>>=◌
    simulate_success steps_to finish_dry_run
simulation_completes = (refl, refl)
