-- ===== src/Monitoring/Leases.antt =====
-- The lease of a check: `try_acquire_monitoring_lease` and `release_monitoring_lease` of
-- app/database/repositories/registry.py.
pub mod Once
use aso_node_recovery.Prelude.{
  Bool, Option, String, Table, false, get, if◌then◌else◌, nat_eq, none, not, put, some, string_eq,
  true, ℕ, ◌&&◌, ◌==◌,
}
use aso_node_recovery.Models.EventEnums.{
  event_severity_eq, node_check_outcome_eq, replacement_trigger_mode_eq,
  secret_reference_backend_eq,
}
use aso_node_recovery.Models.JobEnums.{replacement_checkpoint_eq, replacement_job_state_eq}
use aso_node_recovery.Models.NodeEnums.{
  NodeOperationMode, deployment_state_eq, node_operation_mode_eq, node_state_eq, provider_type_eq,
  ssh_auth_method_eq, vps_instance_role_eq, vps_instance_state_eq,
}
use aso_node_recovery.Models.Rows.{Node}
use aso_node_recovery.Replacement.Leases.{holds_token, lease_expired}

-- The WHERE clause of `try_acquire_monitoring_lease`.
abbrev pub may_check : Node → ℕ → Bool
may_check node now =
    node.monitoring_enabled
    && not (node.operation_mode == NodeOperationMode.disabled)
    && lease_expired node.monitoring_lease_until now

abbrev pub with_monitoring_lease : Node → Option String → Option ℕ → Node
with_monitoring_lease node token until = record node {
  monitoring_lease_token = token;
  monitoring_lease_until = until;
}

unfoldable pub acquire_node : Table Node → ℕ → Option Node → String → ℕ → ℕ → Table Node × Bool
acquire_node nodes node_id none token now until = (nodes, false)
acquire_node nodes node_id (some node) token now until =
    if may_check node now
    then (put nodes node_id (with_monitoring_lease node (some token) (some until)), true)
    else (nodes, false)

unfoldable pub try_acquire_monitoring_lease : Table Node → ℕ → String → ℕ → ℕ → Table Node × Bool
try_acquire_monitoring_lease nodes node_id token now until =
    acquire_node nodes node_id (get nodes node_id) token now until

unfoldable pub release_node : Table Node → ℕ → Option Node → String → Table Node
release_node nodes node_id none token = nodes
release_node nodes node_id (some node) token =
    if holds_token node.monitoring_lease_token token
    then put nodes node_id (with_monitoring_lease node none none)
    else nodes

unfoldable pub release_monitoring_lease : Table Node → ℕ → String → Table Node
release_monitoring_lease nodes node_id token = release_node nodes node_id (get nodes node_id) token
