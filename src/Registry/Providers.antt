-- ===== src/Registry/Providers.antt =====
-- `register_provider` of app/registry/service.py.
-- `ProviderRepository.provider_by_key`
use aso_node_recovery.Prelude.{
  Option, String, [], if◌then◌else◌, nat_eq, none, select, some, string_eq, strip, true, ℕ, ◌==◌,
  ◌∷◌,
}
use aso_node_recovery.Errors.{Error, ok}
use aso_node_recovery.Models.EventEnums.{
  event_severity_eq, node_check_outcome_eq, replacement_trigger_mode_eq,
  secret_reference_backend_eq,
}
use aso_node_recovery.Models.JobEnums.{replacement_checkpoint_eq, replacement_job_state_eq}
use aso_node_recovery.Models.NodeEnums.{
  deployment_state_eq, node_operation_mode_eq, node_state_eq, provider_type_eq, ssh_auth_method_eq,
  vps_instance_role_eq, vps_instance_state_eq,
}
use aso_node_recovery.Models.Rows.{Provider}
use aso_node_recovery.Outside.{Outside}
use aso_node_recovery.Registry.Forms.{ProviderForm, any_empty, cleaned, or_else}
use aso_node_recovery.Replacement.Access.{first}
use aso_node_recovery.Runtime.{
  Db, Exec, ask, gets, pure, raise, save_provider, session, ◌>>=◌, ◌>>◌,
}

abbrev pub provider_by_key : String → Db → Option Provider
provider_by_key key db = first (select db.providers (λ provider. provider.key == key))

-- The update of a provider that has the key already.
abbrev pub refreshed_provider : Provider → ProviderForm → Provider
refreshed_provider existing form = record existing {
  display_name = form.display_name;
  credential_backend = form.credential_backend;
  credential_ref = form.credential_ref;
  default_region = or_else form.default_region existing.default_region;
  default_server_type = or_else form.default_server_type existing.default_server_type;
  default_image = or_else form.default_image existing.default_image;
  is_active = true;
}

abbrev pub new_provider : ℕ → ProviderForm → Provider
new_provider id form = record {
  id = id;
  key = form.key;
  display_name = form.display_name;
  provider_type = form.provider_type;
  is_active = true;
  credential_backend = form.credential_backend;
  credential_ref = form.credential_ref;
  default_region = form.default_region;
  default_server_type = form.default_server_type;
  default_image = form.default_image;
}

module _ (out : Outside) where
  abbrev pub stripped_provider : ProviderForm → ProviderForm
  stripped_provider form = record form {
    key = out.lower (strip form.key);
    display_name = strip form.display_name;
    credential_ref = strip form.credential_ref;
    default_region = cleaned form.default_region;
    default_server_type = cleaned form.default_server_type;
    default_image = cleaned form.default_image;
  }

  abbrev pub refresh_or_add : Option Provider → ProviderForm → Exec ℕ
  refresh_or_add none form = do
    id ← ask (λ n. ok (out.new_id n))
    save_provider (new_provider id form)
    pure id
  refresh_or_add (some existing) form =
      if existing.provider_type == form.provider_type
      then (do save_provider (refreshed_provider existing form); pure existing.id)
      else raise Error.value_error

  unfoldable pub persist_provider : ProviderForm → Exec ℕ
  persist_provider form =
      if any_empty (form.key ∷ form.display_name ∷ form.credential_ref ∷ [])
      then raise Error.value_error
      else session (do existing ← gets (provider_by_key form.key); refresh_or_add existing form)

  -- `register_provider`
  unfoldable pub register_provider : ProviderForm → Exec ℕ
  register_provider form = persist_provider (stripped_provider form)
