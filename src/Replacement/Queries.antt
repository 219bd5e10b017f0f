-- ===== src/Replacement/Queries.antt =====
-- The counts and searches that the stages make, from app/database/repositories/registry.py, and
-- `_map_vps_state` of app/replacement/orchestrator.py.
use aso_node_recovery.Prelude.{
  Bool, Option, String, Table, get, length, nat_eq, none, not, select, some, string_eq, ℕ, ◌&&◌,
  ◌==◌,
}
use aso_node_recovery.Models.EventEnums.{
  event_severity_eq, node_check_outcome_eq, replacement_trigger_mode_eq,
  secret_reference_backend_eq,
}
use aso_node_recovery.Models.JobEnums.{replacement_checkpoint_eq, replacement_job_state_eq}
use aso_node_recovery.Models.NodeEnums.{
  VpsInstanceRole, VpsInstanceState, deployment_state_eq, node_operation_mode_eq, node_state_eq,
  provider_type_eq, ssh_auth_method_eq, vps_instance_role_eq, vps_instance_state_eq,
}
use aso_node_recovery.Models.Rows.{VpsInstance}
use aso_node_recovery.Outside.{ProviderServerStatus}
use aso_node_recovery.Replacement.Access.{first}
use aso_node_recovery.Runtime.{Db}

-- `_map_vps_state`
abbrev pub map_vps_state : ProviderServerStatus → VpsInstanceState
map_vps_state ProviderServerStatus.provisioning = VpsInstanceState.provisioning
map_vps_state ProviderServerStatus.running = VpsInstanceState.running
map_vps_state ProviderServerStatus.offline = VpsInstanceState.error
map_vps_state ProviderServerStatus.deleting = VpsInstanceState.deleting
map_vps_state ProviderServerStatus.deleted = VpsInstanceState.deleted
map_vps_state ProviderServerStatus.error = VpsInstanceState.error
map_vps_state ProviderServerStatus.unknown = VpsInstanceState.provisioning

-- `VpsInstanceRepository.count_active_replacements`
abbrev pub is_active_replacement : VpsInstance → Bool
is_active_replacement vps =
    vps.role == VpsInstanceRole.replacement && not (vps.state == VpsInstanceState.deleted)

abbrev pub count_active_replacements : Db → ℕ
count_active_replacements db = length (select db.vps is_active_replacement)

-- `ReplacementJobRepository.count_active`
abbrev pub count_active : Db → ℕ
count_active db = length (select db.jobs (λ job. job.active_slot))

-- `VpsInstanceRepository.get_by_provider_identity`
abbrev pub same_identity : ℕ → String → VpsInstance → Bool
same_identity provider_id server_id vps =
    vps.provider_id == provider_id && vps.provider_server_id == server_id

abbrev pub get_by_provider_identity : ℕ → String → Db → Option VpsInstance
get_by_provider_identity provider_id server_id db =
    first (select db.vps (same_identity provider_id server_id))

abbrev pub opt_row : {R : Type 0} → Table R → Option ℕ → Option R
opt_row t none = none
opt_row t (some k) = get t k
