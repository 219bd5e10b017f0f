-- ===== src/Registry/Management/Registered.antt =====
-- A registration refers to rows that stand, the new ones included.
use aso_node_recovery.Prelude.{
  Bool-cases, IsSelected, Option, ap, get, get-put, inl, inr, is_some, none, put, refl,
  select-IsSelected, some, ℕ, ◌+◌, ◌||◌, ◌≡◌,
}
use aso_node_recovery.Models.Rows.{Node, NodeCredential, Provider, VpsInstance}
use aso_node_recovery.Outside.{Outside}
use aso_node_recovery.Registry.Forms.{NodeForm, ProviderForm}
use aso_node_recovery.Registry.Links.{Has, Has-put}
use aso_node_recovery.Registry.Management.Linked.{
  IsLinked, IsLinked-credential, IsLinked-node, IsLinked-provider, IsLinked-save_provider,
  IsLinked-vps,
}
use aso_node_recovery.Registry.Nodes.{
  create_node, get_by_master, get_by_name, has_name, new_credential, new_current_vps, new_node,
  persist_node, refresh, refresh_node, refresh_or_create, refreshed_credential, refreshed_vps,
  register_node, stable_identity,
}
use aso_node_recovery.Registry.Providers.{persist_provider, refresh_or_add, register_provider}
use aso_node_recovery.Registry.Rows.{first-IsSelected, last-IsSelected}
use aso_node_recovery.Replacement.Access.{utc_now}
use aso_node_recovery.Replacement.Queries.{get_by_provider_identity}
use aso_node_recovery.Replacement.Sound.Actions.{Preserves-or_raise}
use aso_node_recovery.Replacement.Trigger.{get_current_for_node}
use aso_node_recovery.Runtime.{World, gets, raise, save_provider, ◌>>=◌, ◌>>◌}
use aso_node_recovery.Runtime.Preserves.{Preserves, preserves_rules}

module _ (out : Outside) where
  IsLinked-refresh :
      (existing : Node) (current : Option VpsInstance) (credential : Option NodeCredential)
      (form : NodeForm) (w : World)
      → IsLinked w.db
      → Has (get w.db.providers existing.provider_id)
      → ((vps : VpsInstance)
          → current ≡ some vps
          → Has (get w.db.providers vps.provider_id) × Has (get w.db.nodes vps.node_id))
      → ((c : NodeCredential) → credential ≡ some c → Has (get w.db.nodes c.node_id))
      → IsLinked (refresh existing current credential form w).1.db
  unfolding ◌>>=◌ raise
  IsLinked-refresh existing none credential form w i has vps_has credential_has = i
  IsLinked-refresh existing (some vps) none form w i has vps_has credential_has = i
  IsLinked-refresh existing (some vps) (some c) form w i has vps_has credential_has =
      let node : Node = record existing {
        current_host = form.current_host;
        current_port = form.current_port;
      } in
      let has_node = λ (k : ℕ) (h : Has (get w.db.nodes k)). Has-put w.db.nodes node.id k node h in
      IsLinked-credential _
        (IsLinked-vps _ (IsLinked-node w.db i node has) (refreshed_vps vps form)
          (vps_has vps refl).0 (has_node vps.node_id (vps_has vps refl).1))
        (refreshed_credential c form) (has_node c.node_id (credential_has c refl))

  IsLinked-refresh_node :
      (existing : Node) (provider : Provider) (form : NodeForm) (w : World)
      → IsLinked w.db
      → Has (get w.db.providers existing.provider_id)
      → IsLinked (refresh_node existing provider form w).1.db
  unfolding refresh_node ◌>>=◌ raise
  IsLinked-refresh_node existing provider form w i has =
      let current = get_current_for_node existing.id w.db in
      let credential = get w.db.credentials existing.id in
      elim (Bool-cases (stable_identity existing provider current credential form)) [
        | inl stable ↦ rw stable (
            IsLinked-refresh existing current credential form w i has
              (λ vps e.
                let (k, found, passed) =
                  last-IsSelected (IsSelected w.db.vps.row _) _ vps (select-IsSelected w.db.vps _)
                    e in
                (i.vps_provider k vps found, i.vps_node k vps found))
              (λ c e. i.credential_node existing.id c e))
        | inr unstable ↦ rw unstable i
      ]

  IsLinked-create_node :
      (provider : Provider) (form : NodeForm) (w : World)
      → IsLinked w.db
      → Has (get w.db.providers provider.id)
      → IsLinked (create_node out provider form w).1.db
  unfolding create_node utc_now ◌>>=◌ raise
  IsLinked-create_node provider form w i has =
      let taken =
        is_some (get_by_master form.master_node_id w.db)
        || is_some (get_by_provider_identity provider.id form.provider_server_id w.db) in
      elim (Bool-cases taken) [
        | inl refused ↦ rw refused i
        | inr free ↦ rw free (
            let node_id = out.new_id (w.calls + 1) in
            let node = new_node node_id (out.now w.calls) provider form in
            let stands : Has (get (put w.db.nodes node_id node) node_id) =
              ap is_some (get-put w.db.nodes node_id node) in
            IsLinked-vps _
              (IsLinked-credential _ (IsLinked-node w.db i node has) (new_credential node_id form)
                stands)
              (new_current_vps (out.new_id (w.calls + 1 + 1)) node_id provider form) has stands)
      ]

  IsLinked-refresh_or_create :
      (existing : Option Node) (provider : Provider) (form : NodeForm) (w : World)
      → IsLinked w.db
      → Has (get w.db.providers provider.id)
      → get_by_name out form.name w.db ≡ existing
      → IsLinked (refresh_or_create out existing provider form w).1.db
  IsLinked-refresh_or_create none provider form w i has h =
      IsLinked-create_node provider form w i has
  IsLinked-refresh_or_create (some existing) provider form w i has h =
      let (k, found, passed) =
        first-IsSelected (IsSelected w.db.nodes.row _) _ existing
          (select-IsSelected w.db.nodes (has_name out form.name)) h in
      IsLinked-refresh_node existing provider form w i (i.node_provider k existing found)

  Preserves-store_node :
      (provider : Provider) (form : NodeForm)
      → Preserves IsLinked (do
        save_provider provider
        existing ← gets (get_by_name out form.name)
        refresh_or_create out existing provider form)
  unfolding ◌>>=◌
  Preserves-store_node provider form = record {
    leads = λ (w : World) i.
        IsLinked-refresh_or_create _ provider form _ (IsLinked-provider w.db i provider)
          (ap is_some (get-put w.db.providers provider.id provider)) refl;
  }

  pub Preserves-register_node : (form : NodeForm) → Preserves IsLinked (register_node out form)
  unfolding register_node persist_node
  Preserves-register_node form =
      search (preserves_rules, Preserves-or_raise, Preserves-store_node) depth 20

  Preserves-refresh_or_add :
      (existing : Option Provider) (form : ProviderForm)
      → Preserves IsLinked (refresh_or_add out existing form)
  Preserves-refresh_or_add none form = search (preserves_rules, IsLinked-save_provider)
  Preserves-refresh_or_add (some existing) form = search (preserves_rules, IsLinked-save_provider)

  pub Preserves-register_provider :
      (form : ProviderForm) → Preserves IsLinked (register_provider out form)
  unfolding register_provider persist_provider
  Preserves-register_provider form = search (preserves_rules, Preserves-refresh_or_add) depth 20
