-- ===== src/Registry/Unique.antt =====
-- Registration never maps a master node twice, names a node twice or registers a server twice.
use aso_node_recovery.Prelude.{
  Bool-cases, Listed, Listed-put, Option, Option-cases, String, Table, ap, eq_iff, eqb, eqb_iff,
  get, inl, inr, nat_eq, none, put, refl, some, string_eq, true, ℕ, ◌==◌, ◌≡◌, ◌≢◌,
}
use aso_node_recovery.Models.EventEnums.{
  event_severity_eq, node_check_outcome_eq, replacement_trigger_mode_eq,
  secret_reference_backend_eq,
}
use aso_node_recovery.Models.JobEnums.{replacement_checkpoint_eq, replacement_job_state_eq}
use aso_node_recovery.Models.NodeEnums.{
  deployment_state_eq, node_operation_mode_eq, node_state_eq, provider_type_eq, ssh_auth_method_eq,
  vps_instance_role_eq, vps_instance_state_eq,
}
use aso_node_recovery.Models.Rows.{Node, NodeCredential, Provider, VpsInstance}
use aso_node_recovery.Outside.{Outside}
use aso_node_recovery.Registry.Forms.{NodeForm}
use aso_node_recovery.Registry.Nodes.{
  create_node, get_by_master, get_by_name, has_name, persist_node, refresh, refresh_node,
  refresh_or_create, refreshed_vps, register_node, stable_identity,
}
use aso_node_recovery.Registry.Rows.{
  Distinct, Distinct-put, Own, Own-put, first-fails, first-row, last-row,
}
use aso_node_recovery.Replacement.Access.{utc_now}
use aso_node_recovery.Replacement.Queries.{get_by_provider_identity, same_identity}
use aso_node_recovery.Replacement.Sound.Actions.{Preserves-or_raise}
use aso_node_recovery.Replacement.Trigger.{get_current_for_node}
use aso_node_recovery.Runtime.{Db, World, gets, raise, save_provider, ◌>>=◌}
use aso_node_recovery.Runtime.Preserves.{Preserves, Preserves-modify, preserves_rules}

abbrev pub server_identity : VpsInstance → ℕ × String
server_identity vps = (vps.provider_id, vps.provider_server_id)

abbrev pub lower_name : Outside → Node → String
lower_name out node = out.lower node.name

pub record IsRegistry (out : Outside) (db : Db) : Type 0 where
  pub nodes_listed : Listed db.nodes
  pub vps_listed : Listed db.vps
  pub nodes_own : Own (λ node. node.id) db.nodes
  pub vps_own : Own (λ vps. vps.id) db.vps
  pub masters : Distinct (λ node. node.master_node_id) db.nodes
  pub names : Distinct (lower_name out) db.nodes
  pub servers : Distinct server_identity db.vps

module _ (out : Outside) where
  Preserves-save_provider :
      (provider : Provider) → Preserves (IsRegistry out) (save_provider provider)
  unfolding save_provider
  Preserves-save_provider provider = Preserves-modify _ λ db i. record {
    nodes_listed = i.nodes_listed;
    vps_listed = i.vps_listed;
    nodes_own = i.nodes_own;
    vps_own = i.vps_own;
    masters = i.masters;
    names = i.names;
    servers = i.servers;
  }

  -- A node and its server written at once, each with values that no other row has.
  written :
      (db : Db) (node : Node) (vps : VpsInstance) (credentials : Table NodeCredential)
      → IsRegistry out db
      → ((j : ℕ) (r : Node)
          → get db.nodes j ≡ some r
          → r.master_node_id ≡ node.master_node_id
          → j ≡ node.id)
      → ((j : ℕ) (r : Node)
          → get db.nodes j ≡ some r
          → lower_name out r ≡ lower_name out node
          → j ≡ node.id)
      → ((j : ℕ) (r : VpsInstance)
          → get db.vps j ≡ some r
          → server_identity r ≡ server_identity vps
          → j ≡ vps.id)
      → IsRegistry out (record db {
        nodes = put db.nodes node.id node;
        vps = put db.vps vps.id vps;
        credentials = credentials;
      })
  written db node vps credentials i free_master free_name free_server = record {
    nodes_listed = Listed-put db.nodes node.id node i.nodes_listed;
    vps_listed = Listed-put db.vps vps.id vps i.vps_listed;
    nodes_own = Own-put (λ r. r.id) db.nodes node i.nodes_own;
    vps_own = Own-put (λ r. r.id) db.vps vps i.vps_own;
    masters = Distinct-put (λ r. r.master_node_id) db.nodes node.id node i.masters free_master;
    names = Distinct-put (lower_name out) db.nodes node.id node i.names free_name;
    servers = Distinct-put server_identity db.vps vps.id vps i.servers free_server;
  }

  refresh-IsRegistry :
      (existing : Node) (current : Option VpsInstance) (credential : Option NodeCredential)
      (form : NodeForm) (w : World)
      → IsRegistry out w.db
      → get w.db.nodes existing.id ≡ some existing
      → ((vps : VpsInstance) → current ≡ some vps → get w.db.vps vps.id ≡ some vps)
      → IsRegistry out (refresh existing current credential form w).1.db
  unfolding ◌>>=◌ raise
  refresh-IsRegistry existing none credential form w i found current_found = i
  refresh-IsRegistry existing (some vps) none form w i found current_found = i
  refresh-IsRegistry existing (some vps) (some credential) form w i found current_found =
      written w.db
        (record existing { current_host = form.current_host; current_port = form.current_port })
        (refreshed_vps vps form) _ i
        (λ j r stands same. i.masters j existing.id r existing stands found same)
        (λ j r stands same. i.names j existing.id r existing stands found same)
        (λ j r stands same. i.servers j vps.id r vps stands (current_found vps refl) same)

  refresh_node-IsRegistry :
      (existing : Node) (provider : Provider) (form : NodeForm) (w : World)
      → IsRegistry out w.db
      → get w.db.nodes existing.id ≡ some existing
      → IsRegistry out (refresh_node existing provider form w).1.db
  unfolding refresh_node ◌>>=◌ raise
  refresh_node-IsRegistry existing provider form w i found =
      let current = get_current_for_node existing.id w.db in
      let credential = get w.db.credentials existing.id in
      elim (Bool-cases (stable_identity existing provider current credential form)) [
        | inl stable ↦ rw stable (
            refresh-IsRegistry existing current credential form w i found
              (λ vps e. (last-row (λ r. r.id) w.db.vps _ vps i.vps_own e).0))
        | inr unstable ↦ rw unstable i
      ]

  master_free :
      (db : Db) (id : String) (j : ℕ) (r : Node)
      → IsRegistry out db
      → get_by_master id db ≡ none
      → get db.nodes j ≡ some r
      → r.master_node_id ≢ id
  master_free db id j r i h stands same = cc (
    first-fails db.nodes (λ node. node.master_node_id == id) j r i.nodes_listed h stands,
    (eq_iff r.master_node_id id).1 same,
  )

  name_free :
      (db : Db) (name : String) (j : ℕ) (r : Node)
      → IsRegistry out db
      → get_by_name out name db ≡ none
      → get db.nodes j ≡ some r
      → out.lower r.name ≢ out.lower name
  name_free db name j r i h stands same = cc (
    first-fails db.nodes (has_name out name) j r i.nodes_listed h stands,
    (eq_iff (out.lower r.name) (out.lower name)).1 same,
  )

  server_free :
      (db : Db) (provider_id : ℕ) (server_id : String) (j : ℕ) (r : VpsInstance)
      → IsRegistry out db
      → get_by_provider_identity provider_id server_id db ≡ none
      → get db.vps j ≡ some r
      → server_identity r ≢ (provider_id, server_id)
  server_free db provider_id server_id j r i h stands same =
      let fails = first-fails db.vps _ j r i.vps_listed h stands in
      let passes_id : eqb r.provider_id provider_id ≡ true =
        (eqb_iff r.provider_id provider_id).1 (ap (λ p. p.0) same) in
      let passes = (eq_iff r.provider_server_id server_id).1 (ap (λ p. p.1) same) in
      let passed : same_identity provider_id server_id r ≡ true = rw (passes_id, passes) in
      cc (fails, passed)

  create_node-IsRegistry :
      (provider : Provider) (form : NodeForm) (w : World)
      → IsRegistry out w.db
      → get_by_name out form.name w.db ≡ none
      → IsRegistry out (create_node out provider form w).1.db
  unfolding create_node utc_now ◌>>=◌ raise
  create_node-IsRegistry provider form w i no_name =
      elim (Option-cases (get_by_master form.master_node_id w.db)) [
        | inr (other, taken) ↦ rw taken i
        | inl no_master ↦
            elim (Option-cases
              (get_by_provider_identity provider.id form.provider_server_id w.db)) [
                | inr (other, taken) ↦ rw (no_master, taken) i
                | inl no_server ↦
                    rw (no_master, no_server)
                      (written w.db _ _ _ i
                        (λ j r stands same.
                          absurd (master_free w.db form.master_node_id j r i no_master stands same))
                        (λ j r stands same.
                          absurd (name_free w.db form.name j r i no_name stands same))
                        (λ j r stands same. absurd (
                          server_free w.db provider.id form.provider_server_id j r i no_server
                            stands same)))
              ]
      ]

  refresh_or_create-IsRegistry :
      (existing : Option Node) (provider : Provider) (form : NodeForm) (w : World)
      → IsRegistry out w.db
      → get_by_name out form.name w.db ≡ existing
      → IsRegistry out (refresh_or_create out existing provider form w).1.db
  refresh_or_create-IsRegistry none provider form w i h = create_node-IsRegistry provider form w i h
  refresh_or_create-IsRegistry (some existing) provider form w i h =
      refresh_node-IsRegistry existing provider form w i
        (first-row (λ r. r.id) w.db.nodes (has_name out form.name) existing i.nodes_own h).0

  Preserves-refresh_or_create :
      (provider : Provider) (form : NodeForm)
      → Preserves (IsRegistry out) (
          gets (get_by_name out form.name) >>= λ existing.
          refresh_or_create out existing provider form)
  unfolding ◌>>=◌
  Preserves-refresh_or_create provider form = record {
    leads = λ (w : World) i. refresh_or_create-IsRegistry _ provider form w i refl;
  }

  Preserves-register_node : (form : NodeForm) → Preserves (IsRegistry out) (register_node out form)
  unfolding register_node persist_node
  Preserves-register_node form =
      search
        (preserves_rules, Preserves-or_raise, Preserves-save_provider, Preserves-refresh_or_create)
        depth 20

  -- A registration keeps the registry in order, whether it returns or raises: no master node is mapped
  -- twice, no two nodes have a name that differs in case alone, and no server of a provider is
  -- registered twice. It assumes that this was so before, for tables whose rows stand under their own
  -- ids and are all listed.
  pub register_node-IsRegistry :
      (form : NodeForm) (w : World)
      → IsRegistry out w.db
      → IsRegistry out (register_node out form w).1.db
  register_node-IsRegistry form w i = (Preserves-register_node form).leads w i
