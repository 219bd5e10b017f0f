-- ===== src/Replacement/Samples.antt =====
-- Rows on which the theorems about replacements are applied.
use aso_node_recovery.Prelude.{false, if◌then◌else◌, nat_eq, none, not, some, string_eq, ◌==◌}
use aso_node_recovery.Models.EventEnums.{
  ReplacementTriggerMode, event_severity_eq, node_check_outcome_eq, replacement_trigger_mode_eq,
  secret_reference_backend_eq,
}
use aso_node_recovery.Models.JobEnums.{
  ReplacementCheckpoint, replacement_checkpoint_eq, replacement_job_state_eq,
}
use aso_node_recovery.Models.NodeEnums.{
  DeploymentState, VpsInstanceRole, VpsInstanceState, deployment_state_eq, node_operation_mode_eq,
  node_state_eq, provider_type_eq, ssh_auth_method_eq, vps_instance_role_eq, vps_instance_state_eq,
}
use aso_node_recovery.Models.Rows.{Deployment, ReplacementJob, VpsInstance}
use aso_node_recovery.Replacement.Checkpoints.{is_terminal, state_for_checkpoint}

-- A job of node 1 at a checkpoint, with no marker set.
abbrev pub sample_job : ReplacementCheckpoint → ReplacementJob
sample_job c = record {
  id = 100;
  node_id = 1;
  state = state_for_checkpoint c;
  checkpoint = c;
  active_slot = not (is_terminal c);
  is_dry_run = false;
  trigger_mode = ReplacementTriggerMode.standard;
  request_key = none;
  original_node_state = none;
  attempt_count = 1;
  max_attempts = 5;
  old_vps_instance_id = some 10;
  new_vps_instance_id = some 11;
  last_error_code = none;
  workflow_lease_token = some "t";
  workflow_lease_until = some 900;
  provisioning_requested_at = none;
  master_snapshot = none;
  new_ip_verified_at = none;
  deployment_verified_at = none;
  master_updated_at = none;
  master_verified_at = none;
  final_health_verified_at = none;
  old_vps_deleted_at = none;
  started_at = if c == ReplacementCheckpoint.created then none else some 1;
  completed_at = if is_terminal c then some 2 else none;
}

-- The same with every marker set.
abbrev pub verified_job : ReplacementCheckpoint → ReplacementJob
verified_job c = record (sample_job c) {
  new_ip_verified_at = some 2;
  deployment_verified_at = some 3;
  master_updated_at = some 4;
  master_verified_at = some 5;
  final_health_verified_at = some 6;
}

abbrev pub old_server : VpsInstance
old_server = record {
  id = 10;
  provider_id = 1;
  node_id = 1;
  provider_server_id = "srv-old";
  role = VpsInstanceRole.current;
  state = VpsInstanceState.running;
  host = some "198.51.100.7";
  region = some "r1";
  server_type = some "s1";
  image = some "i1";
}

abbrev pub new_server : VpsInstance
new_server = record old_server {
  id = 11;
  provider_server_id = "srv-new";
  role = VpsInstanceRole.replacement;
  host = some "203.0.113.9";
}

abbrev pub sample_deployment : Deployment
sample_deployment = record {
  id = 20;
  replacement_job_id = 100;
  vps_instance_id = 11;
  attempt_number = 1;
  state = DeploymentState.succeeded;
  started_at = some 2;
  completed_at = some 3;
  error_code = none;
  panel_username = some "admin";
  panel_port = some 2053;
  web_base_path = some "panel";
  access_url = some "http://203.0.113.9:2053/panel";
  api_token_ref = some "token-ref";
  panel_password_ref = some "password-ref";
  db_type = some "sqlite";
}
