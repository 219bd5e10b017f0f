-- ===== src/Registry/Management/Sound.antt =====
-- The operators' changes of the registry leave the jobs alone, and so keep every job sound.
use aso_node_recovery.Prelude.{Option, String, none, refl, some, ℕ}
use aso_node_recovery.Models.Rows.{Node, NodeCredential, Provider, VpsInstance}
use aso_node_recovery.Outside.{Outside}
use aso_node_recovery.Registry.Forms.{NodeForm, ProviderForm}
use aso_node_recovery.Registry.Management.{
  SecretRef, drop_node, drop_provider, remove_node_from_registry, remove_provider_from_registry,
  rename_node, rename_provider, replace_provider_token, store_token, without_node, without_provider,
}
use aso_node_recovery.Registry.Management.Discards.{Preserves-discard_all, Preserves-discard_old}
use aso_node_recovery.Registry.Management.History.{Operation, operate}
use aso_node_recovery.Registry.Nodes.{
  create_node, persist_node, refresh, refresh_node, refresh_or_create, register_node,
}
use aso_node_recovery.Registry.Providers.{persist_provider, refresh_or_add, register_provider}
use aso_node_recovery.Replacement.Access.{utc_now}
use aso_node_recovery.Replacement.Sound.{AllSound}
use aso_node_recovery.Replacement.Sound.Actions.{
  AllSound-jobs, Preserves-save_credential, Preserves-save_node, Preserves-save_vps, reads,
}
use aso_node_recovery.Runtime.{modify, save_provider}
use aso_node_recovery.Runtime.Preserves.{Preserves, Preserves-bind, Preserves-modify}

pub Preserves-save_provider : (provider : Provider) → Preserves AllSound (save_provider provider)
unfolding save_provider
Preserves-save_provider provider = Preserves-modify _ (λ db i. AllSound-jobs db _ refl i)

pub Preserves-without_node : (id : ℕ) → Preserves AllSound (modify (without_node id))
unfolding without_node
Preserves-without_node id = Preserves-modify _ (λ db i. AllSound-jobs db _ refl i)

pub Preserves-without_provider : (id : ℕ) → Preserves AllSound (modify (without_provider id))
unfolding without_provider
Preserves-without_provider id = Preserves-modify _ (λ db i. AllSound-jobs db _ refl i)

pub ruleset row_writes = (
  reads, Preserves-save_node, Preserves-save_vps, Preserves-save_credential,
  Preserves-save_provider, Preserves-without_node, Preserves-without_provider,
)

Preserves-refresh :
    (existing : Node) (current : Option VpsInstance) (credential : Option NodeCredential)
    (form : NodeForm)
    → Preserves AllSound (refresh existing current credential form)
Preserves-refresh existing none credential form = search row_writes
Preserves-refresh existing (some vps) none form = search row_writes
Preserves-refresh existing (some vps) (some c) form = search (row_writes) depth 20

module _ (out : Outside) where
  Preserves-refresh_node :
      (existing : Node) (provider : Provider) (form : NodeForm)
      → Preserves AllSound (refresh_node existing provider form)
  unfolding refresh_node
  Preserves-refresh_node existing provider form = search (row_writes, Preserves-refresh) depth 20

  Preserves-refresh_or_create :
      (existing : Option Node) (provider : Provider) (form : NodeForm)
      → Preserves AllSound (refresh_or_create out existing provider form)
  unfolding create_node utc_now
  Preserves-refresh_or_create none provider form = search (row_writes) depth 20
  Preserves-refresh_or_create (some existing) provider form =
      Preserves-refresh_node existing provider form

  Preserves-register_node : (form : NodeForm) → Preserves AllSound (register_node out form)
  unfolding register_node persist_node
  Preserves-register_node form = search (row_writes, Preserves-refresh_or_create) depth 20

  Preserves-refresh_or_add :
      (existing : Option Provider) (form : ProviderForm)
      → Preserves AllSound (refresh_or_add out existing form)
  Preserves-refresh_or_add none form = search row_writes
  Preserves-refresh_or_add (some existing) form = search row_writes

  Preserves-register_provider :
      (form : ProviderForm) → Preserves AllSound (register_provider out form)
  unfolding register_provider persist_provider
  Preserves-register_provider form = search (row_writes, Preserves-refresh_or_add) depth 20

  Preserves-rename_provider :
      (id : ℕ) (name : String) → Preserves AllSound (rename_provider id name)
  unfolding rename_provider
  Preserves-rename_provider id name = search (row_writes) depth 20

  Preserves-rename_node : (id : ℕ) (name : String) → Preserves AllSound (rename_node out id name)
  unfolding rename_node
  Preserves-rename_node id name = search (row_writes) depth 20

  Preserves-store_token :
      (id : ℕ) (reference : String) → Preserves AllSound (store_token out id reference)
  unfolding store_token
  Preserves-store_token id reference = search (row_writes) depth 20

  Preserves-replace_provider_token :
      (id : ℕ) (reference : String) → Preserves AllSound (replace_provider_token out id reference)
  unfolding replace_provider_token
  Preserves-replace_provider_token id reference =
      search (row_writes, Preserves-store_token, Preserves-discard_old) depth 20

  Preserves-remove_node : (id : ℕ) → Preserves AllSound (remove_node_from_registry out id)
  unfolding remove_node_from_registry drop_node
  Preserves-remove_node id = search (row_writes, Preserves-discard_all) depth 20

  Preserves-remove_provider : (id : ℕ) → Preserves AllSound (remove_provider_from_registry out id)
  unfolding remove_provider_from_registry drop_provider
  Preserves-remove_provider id =
      Preserves-bind _ _ (search (row_writes) depth 20)
        (λ (secret : SecretRef). Preserves-discard_old out secret.0 secret.1 none)

  pub Preserves-operate : (operation : Operation) → Preserves AllSound (operate out operation)
  Preserves-operate (Operation.enroll_provider form) = search (reads, Preserves-register_provider)
  Preserves-operate (Operation.enroll_node form) = search (reads, Preserves-register_node)
  Preserves-operate (Operation.retitle_provider id name) = Preserves-rename_provider id name
  Preserves-operate (Operation.rotate_token id ref) = Preserves-replace_provider_token id ref
  Preserves-operate (Operation.forget_provider id) = Preserves-remove_provider id
  Preserves-operate (Operation.retitle_node id name) = Preserves-rename_node id name
  Preserves-operate (Operation.forget_node id) = Preserves-remove_node id
