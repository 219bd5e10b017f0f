-- ===== src/Registry.antt =====
-- `RegistryOnboardingService` of app/registry/service.py: the operators' records of providers, nodes,
-- servers and credentials. The constraints of the database are not relied on.
pub mod Forms
pub mod Providers
pub mod Nodes
pub mod Rows
pub mod Links
pub mod Unique
pub mod Management
mod Examples
use aso_node_recovery.Prelude.{
  Bool, leb, length, ltb, nat_eq, not, select, string_eq, true, ℕ, ◌&&◌, ◌==◌,
}
use aso_node_recovery.Models.EventEnums.{
  event_severity_eq, node_check_outcome_eq, replacement_trigger_mode_eq,
  secret_reference_backend_eq,
}
use aso_node_recovery.Models.JobEnums.{replacement_checkpoint_eq, replacement_job_state_eq}
use aso_node_recovery.Models.NodeEnums.{
  VpsInstanceRole, VpsInstanceState, deployment_state_eq, node_operation_mode_eq, node_state_eq,
  provider_type_eq, ssh_auth_method_eq, vps_instance_role_eq, vps_instance_state_eq,
}
use aso_node_recovery.Models.Rows.{VpsInstance}
use aso_node_recovery.Runtime.{Exec, gets, session}

-- `RegistryReadiness` and its property `ready`
pub record RegistryReadiness : Type 0 where
  pub provider_count : ℕ
  pub node_count : ℕ
  pub current_vps_count : ℕ
  pub credential_count : ℕ

abbrev pub is_ready : RegistryReadiness → Bool
is_ready r =
    ltb 0 r.provider_count
    && ltb 0 r.node_count
    && leb r.node_count r.current_vps_count
    && leb r.node_count r.credential_count

abbrev pub is_current : VpsInstance → Bool
is_current vps = vps.role == VpsInstanceRole.current && not (vps.state == VpsInstanceState.deleted)

unfoldable pub readiness : Exec RegistryReadiness
readiness = session (
    gets λ db. record {
      provider_count = length (select db.providers (λ _. true));
      node_count = length (select db.nodes (λ _. true));
      current_vps_count = length (select db.vps is_current);
      credential_count = length (select db.credentials (λ _. true));
    })
