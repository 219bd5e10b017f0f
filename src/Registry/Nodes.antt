-- ===== src/Registry/Nodes.antt =====
-- `register_node` of app/registry/service.py.
-- `select(Node).where(Node.master_node_id == ...)`
use aso_node_recovery.Prelude.{
  Bool, Option, String, [], false, get, get_or, if◌then◌else◌, is_none, is_some, nat_eq, none,
  or_text, select, some, string_eq, strip, true, ℕ, ◌&&◌, ◌==◌, ◌||◌, ◌∷◌,
}
use aso_node_recovery.Deployment.Service.{current}
use aso_node_recovery.Errors.{Error, Result, err, ok}
use aso_node_recovery.Models.EventEnums.{
  SecretReferenceBackend, event_severity_eq, node_check_outcome_eq, replacement_trigger_mode_eq,
  secret_reference_backend_eq,
}
use aso_node_recovery.Models.JobEnums.{replacement_checkpoint_eq, replacement_job_state_eq}
use aso_node_recovery.Models.NodeEnums.{
  NodeOperationMode, NodeState, SshAuthMethod, VpsInstanceRole, VpsInstanceState,
  deployment_state_eq, node_operation_mode_eq, node_state_eq, provider_type_eq, ssh_auth_method_eq,
  vps_instance_role_eq, vps_instance_state_eq,
}
use aso_node_recovery.Models.Rows.{Node, NodeCredential, Provider, VpsInstance}
use aso_node_recovery.Outside.{Outside}
use aso_node_recovery.Registry.Forms.{NodeForm, any_empty, bad_port, cleaned, or_else}
use aso_node_recovery.Registry.Providers.{provider_by_key}
use aso_node_recovery.Replacement.Access.{first, or_raise, utc_now}
use aso_node_recovery.Replacement.Queries.{get_by_provider_identity}
use aso_node_recovery.Replacement.Trigger.{get_current_for_node}
use aso_node_recovery.Runtime.{
  Db, Exec, ask, gets, lift, pure, raise, save_credential, save_node, save_provider, save_vps,
  session, ◌>>=◌, ◌>>◌,
}

abbrev pub get_by_master : String → Db → Option Node
get_by_master master_node_id db =
    first (select db.nodes (λ node. node.master_node_id == master_node_id))

-- The defaults of the provider that a registration renews.
abbrev pub with_defaults : Provider → NodeForm → Provider
with_defaults provider form = record provider {
  default_region = or_else (cleaned form.region) provider.default_region;
  default_server_type = or_else (cleaned form.server_type) provider.default_server_type;
  default_image = or_else (cleaned form.provider_image) provider.default_image;
}

abbrev pub file_backend : Option String → Option SecretReferenceBackend
file_backend none = none
file_backend (some _) = some SecretReferenceBackend.file

abbrev pub new_node : ℕ → ℕ → Provider → NodeForm → Node
new_node id now provider form = record {
  id = id;
  name = form.name;
  master_node_id = form.master_node_id;
  provider_id = provider.id;
  current_host = form.current_host;
  current_port = form.current_port;
  state = NodeState.unknown;
  state_changed_at = now;
  operation_mode = NodeOperationMode.monitor_only;
  monitoring_enabled = true;
  consecutive_failures = 0;
  consecutive_successes = 0;
  last_checked_at = none;
  last_successful_check_at = none;
  monitoring_lease_token = none;
  monitoring_lease_until = none;
}

abbrev pub new_credential : ℕ → NodeForm → NodeCredential
new_credential node_id form = record {
  node_id = node_id;
  ssh_username = form.ssh_username;
  ssh_port = form.ssh_port;
  ssh_auth_method = form.ssh_auth_method;
  secret_backend = SecretReferenceBackend.file;
  ssh_secret_ref = form.ssh_secret_ref;
  ssh_public_key = cleaned form.ssh_public_key;
  panel_username = none;
  panel_password_ref = none;
  panel_password_backend = none;
  panel_base_path = cleaned form.panel_base_path;
  api_token_ref = cleaned form.api_token_ref;
  api_token_backend = file_backend (cleaned form.api_token_ref);
}

abbrev pub new_current_vps : ℕ → ℕ → Provider → NodeForm → VpsInstance
new_current_vps id node_id provider form = record {
  id = id;
  provider_id = provider.id;
  node_id = node_id;
  provider_server_id = form.provider_server_id;
  role = VpsInstanceRole.current;
  state = VpsInstanceState.running;
  host = form.provider_host;
  region = or_else (cleaned form.region) provider.default_region;
  server_type = or_else (cleaned form.server_type) provider.default_server_type;
  image = or_else (cleaned form.provider_image) provider.default_image;
}

-- `stable_identity`
abbrev pub same_server : Option VpsInstance → String → Bool
same_server none server_id = false
same_server (some vps) server_id = vps.provider_server_id == server_id

abbrev pub stable_identity :
    Node → Provider → Option VpsInstance → Option NodeCredential → NodeForm → Bool
stable_identity existing provider current credential form =
    existing.provider_id == provider.id
    && existing.master_node_id == form.master_node_id
    && same_server current form.provider_server_id
    && is_some credential

-- The refresh of a node that is registered already.
abbrev pub refreshed_vps : VpsInstance → NodeForm → VpsInstance
refreshed_vps current form = record current {
  host = form.provider_host;
  region = or_else (cleaned form.region) current.region;
  server_type = or_else (cleaned form.server_type) current.server_type;
  image = or_else (cleaned form.provider_image) current.image;
}

abbrev pub refreshed_credential : NodeCredential → NodeForm → NodeCredential
refreshed_credential credential form = record credential {
  ssh_username = form.ssh_username;
  ssh_port = form.ssh_port;
  ssh_auth_method = form.ssh_auth_method;
  secret_backend = SecretReferenceBackend.file;
  ssh_secret_ref = form.ssh_secret_ref;
  ssh_public_key = cleaned form.ssh_public_key;
  panel_base_path = cleaned form.panel_base_path;
  api_token_ref = or_else (cleaned form.api_token_ref) credential.api_token_ref;
  api_token_backend =
      if is_some (cleaned form.api_token_ref)
      then some SecretReferenceBackend.file
      else credential.api_token_backend;
}

abbrev pub refresh : Node → Option VpsInstance → Option NodeCredential → NodeForm → Exec ℕ
refresh existing (some current) (some credential) form = do
  save_node (record existing { current_host = form.current_host; current_port = form.current_port })
  save_vps (refreshed_vps current form)
  save_credential (refreshed_credential credential form)
  pure existing.id
refresh existing _ _ form = raise Error.value_error

unfoldable pub refresh_node : Node → Provider → NodeForm → Exec ℕ
refresh_node existing provider form = do
  current ← gets (get_current_for_node existing.id)
  credential ← gets (λ db. get db.credentials existing.id)
  if stable_identity existing provider current credential form
      then refresh existing current credential form
      else raise Error.value_error

abbrev pub is_private_key : SshAuthMethod → Bool
is_private_key SshAuthMethod.private_key = true
is_private_key _ = false

unfoldable pub check_form : NodeForm → Result NodeForm
check_form form =
    if any_empty (
      form.name
      ∷ form.provider_key
      ∷ form.master_node_id
      ∷ form.current_host
      ∷ form.provider_server_id
      ∷ get_or form.provider_host ""
      ∷ form.ssh_username
      ∷ form.ssh_secret_ref
      ∷ [])
    then err Error.value_error
    else if bad_port form.current_port || bad_port form.ssh_port
    then err Error.value_error
    else if is_private_key form.ssh_auth_method && is_none (cleaned form.ssh_public_key)
    then err Error.value_error
    else ok form

module _ (out : Outside) where
  -- `NodeRepository.get_by_name`
  abbrev pub has_name : String → Node → Bool
  has_name name node = out.lower node.name == out.lower name

  abbrev pub get_by_name : String → Db → Option Node
  get_by_name name db = first (select db.nodes (has_name name))

  -- The first lines of `register_node`.
  abbrev pub stripped_form : NodeForm → NodeForm
  stripped_form form = record form {
    name = strip form.name;
    provider_key = out.lower (strip form.provider_key);
    master_node_id = strip form.master_node_id;
    current_host = strip form.current_host;
    provider_server_id = strip form.provider_server_id;
    provider_host =
        some (strip (get_or (or_text form.provider_host (some (strip form.current_host))) ""));
    ssh_username = strip form.ssh_username;
    ssh_secret_ref = strip form.ssh_secret_ref;
  }

  unfoldable pub create_node : Provider → NodeForm → Exec ℕ
  create_node provider form = do
    duplicate_master ← gets (get_by_master form.master_node_id)
    duplicate_vps ← gets (get_by_provider_identity provider.id form.provider_server_id)
    if is_some duplicate_master || is_some duplicate_vps then raise Error.value_error else do
      now ← utc_now out
      node_id ← ask (λ n. ok (out.new_id n))
      vps_id ← ask (λ n. ok (out.new_id n))
      save_node (new_node node_id now provider form)
      save_credential (new_credential node_id form)
      save_vps (new_current_vps vps_id node_id provider form)
      pure node_id

  abbrev pub refresh_or_create : Option Node → Provider → NodeForm → Exec ℕ
  refresh_or_create none provider form = create_node provider form
  refresh_or_create (some existing) provider form = refresh_node existing provider form

  -- The session of `register_node`.
  unfoldable pub persist_node : NodeForm → Exec ℕ
  persist_node form = do
    found ← gets (provider_by_key form.provider_key)
    provider ← or_raise Error.value_error found
    save_provider (with_defaults provider form)
    existing ← gets (get_by_name form.name)
    refresh_or_create existing (with_defaults provider form) form

  -- `register_node`
  unfoldable pub register_node : NodeForm → Exec ℕ
  register_node form = do
    checked ← lift (check_form (stripped_form form))
    session (persist_node checked)
