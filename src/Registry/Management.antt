-- ===== src/Registry/Management.antt =====
-- `RegistryManagementService` of app/registry/management.py: what the operators change in the
-- registry, the removals among them. The discovery of a node at its provider and at the master node
-- is not modelled, and neither is the validation of an SSH login.
pub mod Linked
pub mod Discards
pub mod Registered
pub mod Changed
pub mod History
pub mod Sound
mod Examples
use aso_node_recovery.Prelude.{
  Bool, List, Option, String, [], eqb, false, get, if◌then◌else◌, is_some, length, ltb, map, none,
  not, opt_text_eq, remove, remove_where, select, some, str_eq, strip, ℕ, ◌+◌, ◌||◌, ◌∷◌,
}
use aso_node_recovery.Errors.{Error}
use aso_node_recovery.Models.EventEnums.{SecretReferenceBackend}
use aso_node_recovery.Models.Rows.{Event, Node, NodeCheck, NodeCredential, Provider}
use aso_node_recovery.Outside.{Outside}
use aso_node_recovery.Registry.Nodes.{get_by_name}
use aso_node_recovery.Replacement.Access.{or_raise}
use aso_node_recovery.Replacement.Stages.Deploy.{secret}
use aso_node_recovery.Replacement.Trigger.{get_active_for_node, latest_for_node}
use aso_node_recovery.Runtime.{
  Db, Effect, Exec, ask, call, gets, modify, pure, raise, save_node, save_provider, session,
  try_catch, ◌>>=◌, ◌>>◌,
}

-- `session.delete(node)`: the checks go with their node.
abbrev pub other_checks : ℕ → List NodeCheck → List NodeCheck
other_checks node_id [] = []
other_checks node_id (c ∷ checks) =
    let rest = other_checks node_id checks in if eqb c.node_id node_id then rest else c ∷ rest

-- `ondelete="SET NULL"`: the events stay, without their node.
abbrev pub other_node : ℕ → Option ℕ → Option ℕ
other_node node_id none = none
other_node node_id (some id) = if eqb id node_id then none else some id

abbrev pub orphan : ℕ → Event → Event
orphan node_id event = record event { node_id = other_node node_id event.node_id }

-- The rows that are left when a node goes, with its servers, its credentials and its checks.
unfoldable pub without_node : ℕ → Db → Db
without_node node_id db = record db {
  nodes = remove db.nodes node_id;
  vps = remove_where db.vps (λ vps. eqb vps.node_id node_id);
  credentials = remove db.credentials node_id;
  checks = other_checks node_id db.checks;
  events = map (orphan node_id) db.events;
}

unfoldable pub without_provider : ℕ → Db → Db
without_provider provider_id db = record db { providers = remove db.providers provider_id }

abbrev pub find_provider : ℕ → Exec Provider
find_provider provider_id = do
  found ← gets (λ db. get db.providers provider_id)
  or_raise Error.value_error found

abbrev pub find_node : ℕ → Exec Node
find_node node_id = do found ← gets (λ db. get db.nodes node_id); or_raise Error.value_error found

-- `rename_provider`
unfoldable pub rename_provider : ℕ → String → Exec (Unit {0})
rename_provider provider_id display_name =
    if str_eq (strip display_name) ""
    then raise Error.value_error
    else session (do
      provider ← find_provider provider_id
      save_provider (record provider { display_name = strip display_name }))

abbrev pub provider_rows : ℕ → Db → ℕ
provider_rows provider_id db =
    length (select db.nodes (λ node. eqb node.provider_id provider_id))
    + length (select db.vps (λ vps. eqb vps.provider_id provider_id))

-- A secret that a row referred to.
abbrev pub SecretRef : Type 0
SecretRef = Option SecretReferenceBackend × Option String

abbrev pub secrets_of : Option NodeCredential → List SecretRef
secrets_of none = []
secrets_of (some c) =
    (some c.secret_backend, some c.ssh_secret_ref) ∷ (c.api_token_backend, c.api_token_ref) ∷ []

module _ (out : Outside) where
  -- `except ConfigurationError: return`
  abbrev pub retained : Error → Exec (Unit {0})
  retained Error.configuration_error = pure tt
  retained e = raise e

  abbrev pub delete_managed : String → Exec (Unit {0})
  delete_managed reference =
      try_catch
        (do call (Effect.delete_secret reference); ask (λ n. out.delete_reference n reference))
        retained

  -- `_discard_old_managed_secret`, of a backend that is known
  unfoldable pub discard_old : SecretRef → Option String → Exec (Unit {0})
  discard_old (some SecretReferenceBackend.file, some reference) keep =
      if str_eq reference "" || opt_text_eq (some reference) keep
      then pure tt
      else delete_managed reference
  discard_old _ keep = pure tt

  unfoldable pub discard_all : List SecretRef → Exec (Unit {0})
  discard_all [] = pure tt
  discard_all (secret ∷ secrets) = do discard_old secret none; discard_all secrets

  -- `rename_node`
  abbrev pub of_other : ℕ → Option Node → Bool
  of_other node_id none = false
  of_other node_id (some node) = not (eqb node.id node_id)

  unfoldable pub rename_node : ℕ → String → Exec (Unit {0})
  rename_node node_id name =
      if str_eq (strip name) ""
      then raise Error.value_error
      else session (do
        existing ← gets (get_by_name out (strip name))
        if of_other node_id existing
            then raise Error.value_error
            else do node ← find_node node_id; save_node (record node { name = strip name }))

  -- The session of `remove_provider_from_registry`.
  unfoldable pub drop_provider : ℕ → Exec SecretRef
  drop_provider provider_id = do
    provider ← find_provider provider_id
    rows ← gets (provider_rows provider_id)
    if ltb 0 rows then raise Error.value_error else do
      modify (without_provider provider_id)
      pure (some provider.credential_backend, some provider.credential_ref)

  -- `remove_provider_from_registry`
  unfoldable pub remove_provider_from_registry : ℕ → Exec (Unit {0})
  remove_provider_from_registry provider_id = do
    secret ← session (drop_provider provider_id)
    discard_old secret none

  -- The session of `remove_node_from_registry`.
  unfoldable pub drop_node : ℕ → Exec (List SecretRef)
  drop_node node_id = do
    node ← find_node node_id
    active ← gets (get_active_for_node node_id)
    any_job ← gets (latest_for_node node_id)
    if is_some active || is_some any_job then raise Error.value_error else do
      credential ← gets (λ db. get db.credentials node_id)
      modify (without_node node_id)
      pure (secrets_of credential)

  -- `remove_node_from_registry`
  unfoldable pub remove_node_from_registry : ℕ → Exec (Unit {0})
  remove_node_from_registry node_id = do refs ← session (drop_node node_id); discard_all refs

  -- The session of `replace_provider_token` that stores the new reference.
  unfoldable pub store_token : ℕ → String → Exec (Unit {0})
  store_token provider_id staged_ref = do
    provider ← find_provider provider_id
    save_provider (record provider {
      credential_backend = SecretReferenceBackend.file;
      credential_ref = staged_ref;
    })

  -- `replace_provider_token`
  unfoldable pub replace_provider_token : ℕ → String → Exec (Unit {0})
  replace_provider_token provider_id staged_ref = do
    candidate ← ask (λ n. out.resolve_secret n SecretReferenceBackend.file staged_ref)
    provider ← session (find_provider provider_id)
    ask (λ n. out.validate_provider_secret n provider.provider_type candidate)
    session (store_token provider_id staged_ref)
    discard_old (some provider.credential_backend, some provider.credential_ref) (some staged_ref)
