-- ===== src/Replacement/Guard.antt =====
-- app/replacement/safety.py: the guard around the deletion of an old VPS.
pub mod Exact
mod Examples
use aso_node_recovery.Prelude.{
  Bool, is_empty, List, String, [], if◌then◌else◌, is_none, nat_eq, not, opt_is, string_eq, truthy,
  ◌&&◌, ◌++◌, ◌==◌, ◌||◌, ◌∷◌,
}
use aso_node_recovery.Errors.{Error, Result, err, ok}
use aso_node_recovery.Models.EventEnums.{
  event_severity_eq, node_check_outcome_eq, replacement_trigger_mode_eq,
  secret_reference_backend_eq,
}
use aso_node_recovery.Models.JobEnums.{replacement_checkpoint_eq, replacement_job_state_eq}
use aso_node_recovery.Models.NodeEnums.{
  DeploymentState, VpsInstanceRole, VpsInstanceState, deployment_state_eq, node_operation_mode_eq,
  node_state_eq, provider_type_eq, ssh_auth_method_eq, vps_instance_role_eq, vps_instance_state_eq,
}
use aso_node_recovery.Models.Rows.{Deployment, ReplacementJob, VpsInstance}

-- `if test: missing.append(name)`
unfoldable pub note : Bool → String → List String → List String
note test name missing = if test then missing ++ name ∷ [] else missing

module _ (job : ReplacementJob) (deployment : Deployment) (new_vps old_vps : VpsInstance) where
  -- The gates that are missing, in the order in which `assert_can_delete` collects them.
  unfoldable pub missing_gates : List String
  missing_gates =
      let m1 = note (not (opt_is job.old_vps_instance_id old_vps.id)) "old_vps_job_identity" [] in
      let m2 = note (not (old_vps.node_id == job.node_id)) "old_vps_node_identity" m1 in
      let m3 = note (not (old_vps.role == VpsInstanceRole.current)) "old_vps_current_role" m2 in
      let m4 = note (old_vps.state == VpsInstanceState.deleted) "old_vps_not_deleted" m3 in
      let m5 = note (not (new_vps.node_id == job.node_id)) "new_vps_node_identity" m4 in
      let m6 =
        note (not (new_vps.role == VpsInstanceRole.replacement)) "new_vps_replacement_role" m5 in
      let m7 = note (not (deployment.replacement_job_id == job.id)) "deployment_job_identity" m6 in
      let m8 = note (not (deployment.vps_instance_id == new_vps.id)) "deployment_vps_identity" m7 in
      let m9 =
        note
          (new_vps.provider_id == old_vps.provider_id
            && new_vps.provider_server_id == old_vps.provider_server_id)
          "distinct_provider_identity" m8 in
      let m10 = note (not (opt_is job.new_vps_instance_id new_vps.id)) "new_vps" m9 in
      let m11 = note (new_vps.id == old_vps.id) "distinct_new_vps" m10 in
      let m12 =
        note (not (new_vps.state == VpsInstanceState.running) || not (truthy new_vps.host))
          "new_vps_running" m11 in
      let m13 = note (is_none job.new_ip_verified_at) "new_ip_verified" m12 in
      let m14 =
        note (not (deployment.state == DeploymentState.succeeded)) "deployment_succeeded" m13 in
      let m15 = note (is_none job.deployment_verified_at) "deployment_verified" m14 in
      let m16 = note (is_none job.master_updated_at) "master_updated" m15 in
      let m17 = note (is_none job.master_verified_at) "master_verified" m16 in
      note (is_none job.final_health_verified_at) "final_health_verified" m17

  unfoldable pub assert_can_delete : Result (Unit {0})
  assert_can_delete = if is_empty missing_gates then ok tt else err Error.safety_violation_error
