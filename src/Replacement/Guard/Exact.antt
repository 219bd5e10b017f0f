-- ===== src/Replacement/Guard/Exact.antt =====
-- What the guard means: it passes exactly on the jobs that meet every gate.
use aso_node_recovery.Prelude.{
  Bool, is_empty, List, String, [], arith, eq_iff, false, is_some, not, refl, some, true, truthy,
  ◌&&◌, ◌↔◌, ◌∷◌, ◌≡◌, ◌≢◌,
}
use aso_node_recovery.Errors.{is_ok}
use aso_node_recovery.Models.NodeEnums.{DeploymentState, VpsInstanceRole, VpsInstanceState}
use aso_node_recovery.Models.Rows.{Deployment, ReplacementJob, VpsInstance}
use aso_node_recovery.Replacement.Guard.{assert_can_delete, missing_gates, note}

module _ (job : ReplacementJob) (deployment : Deployment) (new_vps old_vps : VpsInstance) where
  -- The conditions for deleting `old_vps`, as statements: who is who, and which steps have been
  -- verified.
  pub record CanDelete : Type 0 where
    pub old_of_job : job.old_vps_instance_id ≡ some old_vps.id
    pub old_of_node : old_vps.node_id ≡ job.node_id
    pub old_current : old_vps.role ≡ VpsInstanceRole.current
    pub old_exists : old_vps.state ≢ VpsInstanceState.deleted
    pub new_of_job : job.new_vps_instance_id ≡ some new_vps.id
    pub new_of_node : new_vps.node_id ≡ job.node_id
    pub new_replacement : new_vps.role ≡ VpsInstanceRole.replacement
    pub new_running : new_vps.state ≡ VpsInstanceState.running
    pub new_host : truthy new_vps.host ≡ true
    pub distinct_rows : new_vps.id ≢ old_vps.id
    pub distinct_servers :
        new_vps.provider_id ≡ old_vps.provider_id
        → new_vps.provider_server_id ≢ old_vps.provider_server_id
    pub deployment_of_job : deployment.replacement_job_id ≡ job.id
    pub deployment_of_new : deployment.vps_instance_id ≡ new_vps.id
    pub deployed : deployment.state ≡ DeploymentState.succeeded
    pub ip_verified : is_some job.new_ip_verified_at ≡ true
    pub deployment_verified : is_some job.deployment_verified_at ≡ true
    pub master_updated : is_some job.master_updated_at ≡ true
    pub master_verified : is_some job.master_verified_at ≡ true
    pub final_verified : is_some job.final_health_verified_at ≡ true

is_empty-note :
    (test : Bool) (name : String) (missing : List String)
    → is_empty (note test name missing) ≡ (not test && is_empty missing)
unfolding note
is_empty-note true name [] = refl
is_empty-note true name (x ∷ missing) = refl
is_empty-note false name missing = refl

-- The deletion of an old VPS is allowed exactly when every identity and every durable marker is in
-- place; if any one is missing the guard raises.
pub assert_can_delete_iff :
    (job : ReplacementJob) (deployment : Deployment) (new_vps old_vps : VpsInstance)
    → (is_ok (assert_can_delete job deployment new_vps old_vps) ≡ true)
      ↔ CanDelete job deployment new_vps old_vps
unfolding assert_can_delete missing_gates
assert_can_delete_iff job deployment new_vps old_vps = simp is_empty-note (
  (λ h. ground (arith, eq_iff new_vps.provider_server_id old_vps.provider_server_id)),
  (λ v. ground (arith, eq_iff new_vps.provider_server_id old_vps.provider_server_id)),
)
