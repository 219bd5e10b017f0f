-- ===== src/Replacement/Mutation.antt =====
-- The master node's configuration: `MasterNode` and `MasterNodeMutation` of app/master/types.py, and
-- the helpers of app/replacement/orchestrator.py that build the configuration to write.
pub mod Written
use aso_node_recovery.Prelude.{
  Option, String, get_or, if◌then◌else◌, nat_eq, none, not, some, str_eq, string_eq, truthy, ℕ,
  ◌&&◌, ◌==◌, ◌||◌,
}
use aso_node_recovery.Errors.{Error, Result, err, ok}
use aso_node_recovery.Models.EventEnums.{
  SecretReferenceBackend, event_severity_eq, node_check_outcome_eq, replacement_trigger_mode_eq,
  secret_reference_backend_eq,
}
use aso_node_recovery.Models.JobEnums.{replacement_checkpoint_eq, replacement_job_state_eq}
use aso_node_recovery.Models.NodeEnums.{
  deployment_state_eq, node_operation_mode_eq, node_state_eq, provider_type_eq, ssh_auth_method_eq,
  vps_instance_role_eq, vps_instance_state_eq,
}
use aso_node_recovery.Models.Rows.{Deployment, MasterSnapshot, Node, VpsInstance}
use aso_node_recovery.Outside.{MasterNode, MasterNodeMutation, Outside}
use aso_node_recovery.Replacement.Access.{require_host, require_panel_port}
use aso_node_recovery.Runtime.{Exec, ask, lift, pure, raise, ◌>>=◌, ◌>>◌}

-- `str(value or default)`
abbrev pub or_default : String → String → String
or_default value default = if str_eq value "" then default else value

-- `MasterNode.safe_snapshot`, the keys that `from_snapshot` reads and `hasApiToken`
unfoldable pub safe_snapshot : MasterNode → MasterSnapshot
safe_snapshot node = record {
  name = node.name;
  remark = node.remark;
  scheme = node.scheme;
  address = node.address;
  port = node.port;
  base_path = node.base_path;
  has_api_token = node.has_api_token;
  enable = node.enable;
  allow_private_address = node.allow_private_address;
  tls_verify_mode = node.tls_verify_mode;
  pinned_cert_sha256 = node.pinned_cert_sha256;
  inbound_sync_mode = node.inbound_sync_mode;
  inbound_tags = node.inbound_tags;
  outbound_tag = node.outbound_tag;
}

-- `MasterNodeMutation.from_snapshot`
unfoldable pub from_snapshot : MasterSnapshot → Option String → MasterNodeMutation
from_snapshot snapshot api_token = record {
  name = snapshot.name;
  remark = snapshot.remark;
  scheme = or_default snapshot.scheme "http";
  address = snapshot.address;
  port = snapshot.port;
  base_path = snapshot.base_path;
  api_token = api_token;
  enable = snapshot.enable;
  allow_private_address = snapshot.allow_private_address;
  tls_verify_mode = or_default snapshot.tls_verify_mode "verify";
  pinned_cert_sha256 = snapshot.pinned_cert_sha256;
  inbound_sync_mode = or_default snapshot.inbound_sync_mode "all";
  inbound_tags = snapshot.inbound_tags;
  outbound_tag = snapshot.outbound_tag;
}

-- `MasterNodeMutation.from_existing`
unfoldable pub from_existing :
    MasterNode → String → String → ℕ → String → Option String → Result MasterNodeMutation
from_existing existing scheme address port base_path api_token =
    if existing.transitive
    then err Error.value_error
    else ok (record {
      name = existing.name;
      remark = existing.remark;
      scheme = scheme;
      address = address;
      port = port;
      base_path = base_path;
      api_token = api_token;
      enable = existing.enable;
      allow_private_address = existing.allow_private_address;
      tls_verify_mode = if str_eq scheme "https" then existing.tls_verify_mode else "verify";
      pinned_cert_sha256 = if str_eq scheme "https" then existing.pinned_cert_sha256 else "";
      inbound_sync_mode = existing.inbound_sync_mode;
      inbound_tags = existing.inbound_tags;
      outbound_tag = existing.outbound_tag;
    })

-- `_normalize_target_mutation`
unfoldable pub normalize_target_mutation : MasterNodeMutation → MasterNodeMutation
normalize_target_mutation mutation =
    if str_eq mutation.scheme "https"
    then mutation
    else record mutation { tls_verify_mode = "verify"; pinned_cert_sha256 = "" }

-- `replace(mutation, scheme=..., address=..., port=..., base_path=...)`, normalized
unfoldable pub retarget : MasterNodeMutation → String → String → ℕ → String → MasterNodeMutation
unfolding normalize_target_mutation
retarget mutation scheme address port base_path =
    normalize_target_mutation
      (record mutation { scheme = scheme; address = address; port = port; base_path = base_path })

-- `_assert_master_test_result`, on the two states in lower case
unfoldable pub assert_master_test_result : String × String → Result (Unit {0})
assert_master_test_result (status, xray_state) =
    if not (str_eq status "") && not (str_eq status "online")
    then err Error.master_node_verification_error
    else if not (str_eq xray_state "") && not (str_eq xray_state "running")
    then err Error.master_node_verification_error
    else ok tt

module _ (out : Outside) where
  -- `_prepare_pin_if_needed`
  unfoldable pub prepare_pin_if_needed : MasterNodeMutation → Exec MasterNodeMutation
  prepare_pin_if_needed mutation =
      if str_eq mutation.scheme "https" && str_eq mutation.tls_verify_mode "pin"
      then (do
        fingerprint ←
            ask λ n. out.certificate_fingerprint n (record mutation { pinned_cert_sha256 = "" })
        pure (record mutation { pinned_cert_sha256 = fingerprint }))
      else pure mutation

  -- `_parse_master_node_id`
  abbrev pub positive : Option ℕ → Result ℕ
  positive none = err Error.replacement_configuration_error
  positive (some value) = if value == 0 then err Error.replacement_configuration_error else ok value

  unfoldable pub parse_master_node_id : Node → Result ℕ
  parse_master_node_id node = positive (out.parse_int node.master_node_id)

  -- `_deployment_scheme`
  unfoldable pub deployment_scheme : Deployment → Result String
  deployment_scheme deployment =
      if truthy deployment.access_url
      then (let scheme = out.url_scheme (get_or deployment.access_url "") in
          if str_eq scheme "http" || str_eq scheme "https"
          then ok scheme
          else err Error.replacement_configuration_error)
      else err Error.replacement_configuration_error

  abbrev pub token_of : String → Exec String
  token_of ref = ask λ n. out.resolve_secret n SecretReferenceBackend.file ref

  -- `_resolve_deployment_api_token`
  unfoldable pub resolve_deployment_api_token : Deployment → Exec String
  resolve_deployment_api_token deployment =
      if truthy deployment.api_token_ref
      then token_of (get_or deployment.api_token_ref "")
      else raise Error.replacement_configuration_error

-- The mutation that points the master at the new server, from the rollback snapshot: what
-- `_stage_master_updating` writes and `_stage_master_verifying` expects.
module _ (out : Outside) where
  unfoldable pub target_mutation :
      MasterSnapshot → Deployment → VpsInstance → Exec MasterNodeMutation
  target_mutation snapshot deployment new_vps = do
    token ← resolve_deployment_api_token out deployment
    scheme ← lift (deployment_scheme out deployment)
    host ← lift (require_host new_vps)
    port ← lift (require_panel_port deployment)
    pure (
        retarget (from_snapshot snapshot (some token)) scheme host port
          (get_or deployment.web_base_path ""))
