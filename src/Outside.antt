-- ===== src/Outside.antt =====
-- What lies outside the repository, as seen by the workflow: cloud providers, Check-Host, the master
-- panel, the remote host, stored secrets, the clock and the operators. Each question is asked with
-- the number of questions asked before it, so that two equal questions may have different answers;
-- nothing is assumed of the answers.
use aso_node_recovery.Prelude.{Bool, List, Option, String, ℕ}
use aso_node_recovery.Errors.{Result}
use aso_node_recovery.Models.EventEnums.{SecretReferenceBackend}
use aso_node_recovery.Models.NodeEnums.{ProviderType}
use aso_node_recovery.Models.Rows.{Node}

-- `ProviderServerStatus` and `ProviderServer` of app/providers/types.py
pub data ProviderServerStatus : Type 0 where
  provisioning running offline deleting deleted error unknown : ProviderServerStatus

pub record ProviderServer : Type 0 where
  pub provider_server_id : String
  pub name : String
  pub status : ProviderServerStatus
  pub ipv4 : Option String
  pub region : Option String
  pub server_type : Option String
  pub image : Option String

-- `CreateServerRequest` of app/providers/types.py, without the labels
pub record CreateServerRequest : Type 0 where
  pub name : String
  pub region : String
  pub server_type : String
  pub image : String
  pub ssh_public_keys : List String
  pub root_password : Option String

-- An adapter of `ProviderManager.get`: the provider's row, and whether the dry-run adapter stands in.
pub record Adapter : Type 0 where
  pub provider_id : ℕ
  pub dry_run : Bool

-- `ReachabilityDecision` of app/monitoring/types.py
pub data ReachabilityDecision : Type 0 where
  reachable unreachable indeterminate : ReachabilityDecision

-- `MasterNode` of app/master/types.py, without its id, its guid, its states and the raw payload
pub record MasterNode : Type 0 where
  pub name : String
  pub remark : String
  pub scheme : String
  pub address : String
  pub port : ℕ
  pub base_path : String
  pub has_api_token : Bool
  pub enable : Bool
  pub allow_private_address : Bool
  pub tls_verify_mode : String
  pub pinned_cert_sha256 : String
  pub inbound_sync_mode : String
  pub inbound_tags : List String
  pub outbound_tag : String
  pub transitive : Bool

-- `MasterNodeMutation` of app/master/types.py
pub record MasterNodeMutation : Type 0 where
  pub name : String
  pub remark : String
  pub scheme : String
  pub address : String
  pub port : ℕ
  pub base_path : String
  pub api_token : Option String
  pub enable : Bool
  pub allow_private_address : Bool
  pub tls_verify_mode : String
  pub pinned_cert_sha256 : String
  pub inbound_sync_mode : String
  pub inbound_tags : List String
  pub outbound_tag : String

-- `ThreeXUiConfig` of app/deployment/types.py
pub record ThreeXUiConfig : Type 0 where
  pub username : String
  pub password : String
  pub panel_port : ℕ
  pub web_base_path : String
  pub access_url : String
  pub api_token : String
  pub db_type : String

-- The answers. `status` and `xray_state` of `test_node` are lower-cased by the reader.
pub record Outside : Type 0 where
  pub now : ℕ → ℕ
  pub new_id : ℕ → ℕ
  pub is_paused : ℕ → Bool
  pub effective_dry_run : ℕ → Bool
  pub monitoring_enabled : ℕ → Bool
  pub replacement_enabled : ℕ → Bool
  pub new_token : ℕ → String
  pub admission_lock : ℕ → Bool
  pub find_server_by_name : ℕ → Adapter → String → Result (Option ProviderServer)
  pub create_server : ℕ → Adapter → CreateServerRequest → Result ProviderServer
  pub wait_until_ready : ℕ → Adapter → String → Result ProviderServer
  pub get_server : ℕ → Adapter → String → Result ProviderServer
  pub delete_server : ℕ → Adapter → String → Result (Unit {0})
  pub verify : ℕ → String → Result ReachabilityDecision
  pub verify_external : ℕ → String → Result ReachabilityDecision
  pub get_node : ℕ → ℕ → Result MasterNode
  pub test_node : ℕ → MasterNodeMutation → Result (String × String)
  pub update_node : ℕ → ℕ → MasterNodeMutation → Result (Unit {0})
  pub verify_node : ℕ → ℕ → MasterNodeMutation → Result (Unit {0})
  pub certificate_fingerprint : ℕ → MasterNodeMutation → Result String
  pub resolve_secret : ℕ → SecretReferenceBackend → String → Result String
  pub create_ssh : ℕ → ℕ → String → Result (Unit {0})
  pub delete_reference : ℕ → String → Result (Unit {0})
  pub validate_provider_secret : ℕ → ProviderType → String → Result (Unit {0})
  pub write_secret : ℕ → String → String → Result String
  pub wait_ssh : ℕ → String → Result (Unit {0})
  pub bootstrap : ℕ → String → Result (Unit {0})
  pub verify_installation : ℕ → String → Result (Unit {0})
  pub install : ℕ → String → Result (Unit {0})
  pub read_configuration : ℕ → String → Result ThreeXUiConfig
  pub verify_api : ℕ → ThreeXUiConfig → Result (Unit {0})
  pub rollback : ℕ → String → Result (Unit {0})
  -- `_replacement_server_name`: the deterministic name from the node's name, the job and the attempt
  pub replacement_server_name : String → ℕ → ℕ → String
  -- `str.lower`, and `lower` of the database
  pub lower : String → String
  -- `ORDER BY name`, by the collation of the database
  pub in_name_order : List Node → List Node
  -- `int(text)` where it is not negative, `urlsplit(url).scheme.lower()`, `str(ip_address(text))`
  pub parse_int : String → Option ℕ
  pub url_scheme : String → String
  pub ip_text : String → Option String
  -- `http://{host}:2053/dry-run-panel`
  pub dry_run_url : String → String
