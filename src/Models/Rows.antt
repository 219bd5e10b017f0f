-- ===== src/Models/Rows.antt =====
-- The rows of app/models/node.py, provider.py and operations.py. A UUID and a point in time (an
-- aware datetime, in UTC) are numbers. A row has its `state` and `checkpoint`, whose columns are
-- not nullable; the code's `or` for an object that was never saved has nothing to add then.
use aso_node_recovery.Prelude.{Bool, List, Option, String, ℕ}
use aso_node_recovery.Errors.{Error}
use aso_node_recovery.Models.EventEnums.{
  EventSeverity, EventType, NodeCheckOutcome, ReplacementTriggerMode, SecretReferenceBackend,
}
use aso_node_recovery.Models.JobEnums.{ReplacementCheckpoint, ReplacementJobState}
use aso_node_recovery.Models.NodeEnums.{
  DeploymentState, NodeOperationMode, NodeState, ProviderType, SshAuthMethod, VpsInstanceRole,
  VpsInstanceState,
}

-- `Node` of node.py, without its name's uniqueness and its relationships
pub record Node : Type 0 where
  pub id : ℕ
  pub name : String
  pub master_node_id : String
  pub provider_id : ℕ
  pub current_host : String
  pub current_port : ℕ
  pub state : NodeState
  pub state_changed_at : ℕ
  pub operation_mode : NodeOperationMode
  pub monitoring_enabled : Bool
  pub consecutive_failures : ℕ
  pub consecutive_successes : ℕ
  pub last_checked_at : Option ℕ
  pub last_successful_check_at : Option ℕ
  pub monitoring_lease_token : Option String
  pub monitoring_lease_until : Option ℕ

-- `NodeCredential` of node.py
pub record NodeCredential : Type 0 where
  pub node_id : ℕ
  pub ssh_username : String
  pub ssh_port : ℕ
  pub ssh_auth_method : SshAuthMethod
  pub secret_backend : SecretReferenceBackend
  pub ssh_secret_ref : String
  pub ssh_public_key : Option String
  pub panel_username : Option String
  pub panel_password_ref : Option String
  pub panel_password_backend : Option SecretReferenceBackend
  pub panel_base_path : Option String
  pub api_token_ref : Option String
  pub api_token_backend : Option SecretReferenceBackend

-- `NodeCheck` of node.py, without the details of the probes and the text of the error
pub record NodeCheck : Type 0 where
  pub node_id : ℕ
  pub request_id : Option String
  pub target_host : String
  pub target_port : ℕ
  pub outcome : NodeCheckOutcome
  pub success_count : ℕ
  pub failure_count : ℕ
  pub pending_count : ℕ
  pub malformed_count : ℕ
  pub total_nodes : ℕ
  pub checked_at : ℕ

-- `Provider` of provider.py
pub record Provider : Type 0 where
  pub id : ℕ
  pub key : String
  pub display_name : String
  pub provider_type : ProviderType
  pub is_active : Bool
  pub credential_backend : SecretReferenceBackend
  pub credential_ref : String
  pub default_region : Option String
  pub default_server_type : Option String
  pub default_image : Option String

-- `VpsInstance` of operations.py
pub record VpsInstance : Type 0 where
  pub id : ℕ
  pub provider_id : ℕ
  pub node_id : ℕ
  pub provider_server_id : String
  pub role : VpsInstanceRole
  pub state : VpsInstanceState
  pub host : Option String
  pub region : Option String
  pub server_type : Option String
  pub image : Option String

-- The rollback snapshot, `MasterNode.safe_snapshot` of app/master/types.py: the keys that
-- `MasterNodeMutation.from_snapshot` reads back, and `hasApiToken`
pub record MasterSnapshot : Type 0 where
  pub name : String
  pub remark : String
  pub scheme : String
  pub address : String
  pub port : ℕ
  pub base_path : String
  pub has_api_token : Bool
  pub enable : Bool
  pub allow_private_address : Bool
  pub tls_verify_mode : String
  pub pinned_cert_sha256 : String
  pub inbound_sync_mode : String
  pub inbound_tags : List String
  pub outbound_tag : String

-- `ReplacementJob` of operations.py. `active_slot` is true or null, and true alone is kept as true.
-- `original_node_state` is the text that the column holds.
pub record ReplacementJob : Type 0 where
  pub id : ℕ
  pub node_id : ℕ
  pub state : ReplacementJobState
  pub checkpoint : ReplacementCheckpoint
  pub active_slot : Bool
  pub is_dry_run : Bool
  pub trigger_mode : ReplacementTriggerMode
  pub request_key : Option String
  pub original_node_state : Option String
  pub attempt_count : ℕ
  pub max_attempts : ℕ
  pub old_vps_instance_id : Option ℕ
  pub new_vps_instance_id : Option ℕ
  pub last_error_code : Option Error
  pub workflow_lease_token : Option String
  pub workflow_lease_until : Option ℕ
  pub provisioning_requested_at : Option ℕ
  pub master_snapshot : Option MasterSnapshot
  pub new_ip_verified_at : Option ℕ
  pub deployment_verified_at : Option ℕ
  pub master_updated_at : Option ℕ
  pub master_verified_at : Option ℕ
  pub final_health_verified_at : Option ℕ
  pub old_vps_deleted_at : Option ℕ
  pub started_at : Option ℕ
  pub completed_at : Option ℕ

-- `Deployment` of operations.py
pub record Deployment : Type 0 where
  pub id : ℕ
  pub replacement_job_id : ℕ
  pub vps_instance_id : ℕ
  pub attempt_number : ℕ
  pub state : DeploymentState
  pub started_at : Option ℕ
  pub completed_at : Option ℕ
  pub error_code : Option Error
  pub panel_username : Option String
  pub panel_port : Option ℕ
  pub web_base_path : Option String
  pub access_url : Option String
  pub api_token_ref : Option String
  pub panel_password_ref : Option String
  pub db_type : Option String

-- `Event` of operations.py, without its payload
pub record Event : Type 0 where
  pub node_id : Option ℕ
  pub replacement_job_id : Option ℕ
  pub event_type : EventType
  pub severity : EventSeverity
  pub message : String
  pub created_at : ℕ
