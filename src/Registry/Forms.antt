-- ===== src/Registry/Forms.antt =====
-- What the operators hand over to app/registry/service.py, and how its fields are read.
-- The arguments of `register_node`.
use aso_node_recovery.Prelude.{
  Bool, List, Option, String, contains, if◌then◌else◌, ltb, nat_eq, none, some, str_eq, string_eq,
  strip, ℕ, ◌||◌,
}
use aso_node_recovery.Models.EventEnums.{
  SecretReferenceBackend, event_severity_eq, node_check_outcome_eq, replacement_trigger_mode_eq,
  secret_reference_backend_eq,
}
use aso_node_recovery.Models.JobEnums.{replacement_checkpoint_eq, replacement_job_state_eq}
use aso_node_recovery.Models.NodeEnums.{
  ProviderType, SshAuthMethod, deployment_state_eq, node_operation_mode_eq, node_state_eq,
  provider_type_eq, ssh_auth_method_eq, vps_instance_role_eq, vps_instance_state_eq,
}

pub record NodeForm : Type 0 where
  pub name : String
  pub provider_key : String
  pub master_node_id : String
  pub current_host : String
  pub current_port : ℕ
  pub provider_server_id : String
  pub ssh_username : String
  pub ssh_port : ℕ
  pub ssh_auth_method : SshAuthMethod
  pub ssh_secret_ref : String
  pub ssh_public_key : Option String
  pub provider_host : Option String
  pub region : Option String
  pub server_type : Option String
  pub provider_image : Option String
  pub panel_base_path : Option String
  pub api_token_ref : Option String

-- The arguments of `register_provider`.
pub record ProviderForm : Type 0 where
  pub key : String
  pub display_name : String
  pub provider_type : ProviderType
  pub credential_ref : String
  pub default_region : Option String
  pub default_server_type : Option String
  pub default_image : Option String
  pub credential_backend : SecretReferenceBackend

-- `(text or "").strip() or None`
abbrev pub some_text : String → Option String
some_text s = if str_eq s "" then none else some s

abbrev pub cleaned : Option String → Option String
cleaned none = none
cleaned (some s) = some_text (strip s)

abbrev pub or_else : Option String → Option String → Option String
or_else none other = other
or_else (some s) other = some s

abbrev pub any_empty : List String → Bool
any_empty texts = contains texts ""

abbrev pub bad_port : ℕ → Bool
bad_port port = ltb port 1 || ltb 65535 port
