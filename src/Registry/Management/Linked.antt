-- ===== src/Registry/Management/Linked.antt =====
-- The operators' changes of the registry leave no reference without its row, in whatever order they
-- come, and though the constraints of the database are not relied on.
use aso_node_recovery.Prelude.{
  All, Bool-cases, List, Listed, Listed-put, Option, Table, [], eqb, get, inl, inr, is_empty, map,
  none, put, remove, select, some, true, ℕ, ◌∷◌, ◌≡◌,
}
use aso_node_recovery.Models.Rows.{Event, Node, NodeCheck, NodeCredential, Provider, VpsInstance}
use aso_node_recovery.Registry.Links.{
  Has, Has-put, Has-remove, Links, Links-put, Links-put_target, Links-remove, Links-remove_target,
  Links-remove_where, Listed-remove, Listed-remove_where, Own-remove, eqb-swap, remove-stood,
  remove_where-stood,
}
use aso_node_recovery.Registry.Management.{
  of_other, orphan, other_checks, other_node, without_node, without_provider,
}
use aso_node_recovery.Registry.Rows.{Own, Own-put, fails, last-fails}
use aso_node_recovery.Replacement.Trigger.{latest_for_node}
use aso_node_recovery.Runtime.{Db, save_provider}
use aso_node_recovery.Runtime.Preserves.{Preserves, Preserves-modify}

-- The node of an event, where it has one.
abbrev pub Refers : Table Node → Option ℕ → Type 0
Refers nodes none = Unit {0}
Refers nodes (some id) = Has (get nodes id)

-- Every reference to a node or to a provider leads to a row.
pub record IsLinked (db : Db) : Type 0 where
  pub jobs_listed : Listed db.jobs
  pub nodes_listed : Listed db.nodes
  pub vps_listed : Listed db.vps
  pub credentials_own : Own (λ c. c.node_id) db.credentials
  pub node_provider : Links (λ node. node.provider_id) db.nodes db.providers
  pub vps_provider : Links (λ vps. vps.provider_id) db.vps db.providers
  pub vps_node : Links (λ vps. vps.node_id) db.vps db.nodes
  pub job_node : Links (λ job. job.node_id) db.jobs db.nodes
  pub credential_node : Links (λ c. c.node_id) db.credentials db.nodes
  pub check_node : All (λ c. Has (get db.nodes c.node_id)) db.checks
  pub event_node : All (λ e. Refers db.nodes e.node_id) db.events

Refers-put :
    (nodes : Table Node) (k : ℕ) (new : Node) (id : Option ℕ)
    → Refers nodes id
    → Refers (put nodes k new) id
Refers-put nodes k new none h = tt
Refers-put nodes k new (some id) h = Has-put nodes k id new h

checks_put :
    (nodes : Table Node) (k : ℕ) (new : Node) (checks : List NodeCheck)
    → All (λ c. Has (get nodes c.node_id)) checks
    → All (λ c. Has (get (put nodes k new) c.node_id)) checks
checks_put nodes k new [] h = tt
checks_put nodes k new (c ∷ checks) h =
    (Has-put nodes k c.node_id new h.0, checks_put nodes k new checks h.1)

events_put :
    (nodes : Table Node) (k : ℕ) (new : Node) (events : List Event)
    → All (λ e. Refers nodes e.node_id) events
    → All (λ e. Refers (put nodes k new) e.node_id) events
events_put nodes k new [] h = tt
events_put nodes k new (e ∷ events) h =
    (Refers-put nodes k new e.node_id h.0, events_put nodes k new events h.1)

checks_removed :
    (nodes : Table Node) (id : ℕ) (checks : List NodeCheck)
    → All (λ c. Has (get nodes c.node_id)) checks
    → All (λ c. Has (get (remove nodes id) c.node_id)) (other_checks id checks)
checks_removed nodes id [] h = tt
checks_removed nodes id (c ∷ checks) h = elim (Bool-cases (eqb c.node_id id)) [
  | inl of_node ↦ rw of_node (checks_removed nodes id checks h.1)
  | inr of_other ↦ rw of_other (
    Has-remove nodes id c.node_id (eqb-swap c.node_id id of_other) h.0,
    checks_removed nodes id checks h.1,
  )
]

Refers-removed :
    (nodes : Table Node) (id : ℕ) (node_id : Option ℕ)
    → Refers nodes node_id
    → Refers (remove nodes id) (other_node id node_id)
Refers-removed nodes id none h = tt
Refers-removed nodes id (some k) h = elim (Bool-cases (eqb k id)) [
  | inl same ↦ rw same tt
  | inr other ↦ rw other (Has-remove nodes id k (eqb-swap k id other) h)
]

events_removed :
    (nodes : Table Node) (id : ℕ) (events : List Event)
    → All (λ e. Refers nodes e.node_id) events
    → All (λ e. Refers (remove nodes id) e.node_id) (map (orphan id) events)
events_removed nodes id [] h = tt
events_removed nodes id (e ∷ events) h =
    (Refers-removed nodes id e.node_id h.0, events_removed nodes id events h.1)

module _ (db : Db) (i : IsLinked db) where
  pub IsLinked-provider :
      (provider : Provider)
      → IsLinked (record db { providers = put db.providers provider.id provider })
  IsLinked-provider provider = record {
    jobs_listed = i.jobs_listed;
    nodes_listed = i.nodes_listed;
    vps_listed = i.vps_listed;
    credentials_own = i.credentials_own;
    node_provider = Links-put_target _ db.nodes db.providers i.node_provider provider.id provider;
    vps_provider = Links-put_target _ db.vps db.providers i.vps_provider provider.id provider;
    vps_node = i.vps_node;
    job_node = i.job_node;
    credential_node = i.credential_node;
    check_node = i.check_node;
    event_node = i.event_node;
  }

  pub IsLinked-node :
      (node : Node)
      → Has (get db.providers node.provider_id)
      → IsLinked (record db { nodes = put db.nodes node.id node })
  IsLinked-node node has = record {
    jobs_listed = i.jobs_listed;
    nodes_listed = Listed-put db.nodes node.id node i.nodes_listed;
    vps_listed = i.vps_listed;
    credentials_own = i.credentials_own;
    node_provider = Links-put _ db.nodes db.providers i.node_provider node.id node has;
    vps_provider = i.vps_provider;
    vps_node = Links-put_target _ db.vps db.nodes i.vps_node node.id node;
    job_node = Links-put_target _ db.jobs db.nodes i.job_node node.id node;
    credential_node = Links-put_target _ db.credentials db.nodes i.credential_node node.id node;
    check_node = checks_put db.nodes node.id node db.checks i.check_node;
    event_node = events_put db.nodes node.id node db.events i.event_node;
  }

  pub IsLinked-vps :
      (vps : VpsInstance)
      → Has (get db.providers vps.provider_id)
      → Has (get db.nodes vps.node_id)
      → IsLinked (record db { vps = put db.vps vps.id vps })
  IsLinked-vps vps has_provider has_node = record {
    jobs_listed = i.jobs_listed;
    nodes_listed = i.nodes_listed;
    vps_listed = Listed-put db.vps vps.id vps i.vps_listed;
    credentials_own = i.credentials_own;
    node_provider = i.node_provider;
    vps_provider = Links-put _ db.vps db.providers i.vps_provider vps.id vps has_provider;
    vps_node = Links-put _ db.vps db.nodes i.vps_node vps.id vps has_node;
    job_node = i.job_node;
    credential_node = i.credential_node;
    check_node = i.check_node;
    event_node = i.event_node;
  }

  pub IsLinked-credential :
      (c : NodeCredential)
      → Has (get db.nodes c.node_id)
      → IsLinked (record db { credentials = put db.credentials c.node_id c })
  IsLinked-credential c has = record {
    jobs_listed = i.jobs_listed;
    nodes_listed = i.nodes_listed;
    vps_listed = i.vps_listed;
    credentials_own = Own-put _ db.credentials c i.credentials_own;
    node_provider = i.node_provider;
    vps_provider = i.vps_provider;
    vps_node = i.vps_node;
    job_node = i.job_node;
    credential_node = Links-put _ db.credentials db.nodes i.credential_node c.node_id c has;
    check_node = i.check_node;
    event_node = i.event_node;
  }

  -- A node goes with all that refers to it, if no job does.
  pub IsLinked-without_node :
      (id : ℕ) → latest_for_node id db ≡ none → IsLinked (without_node id db)
  unfolding without_node
  IsLinked-without_node id no_job = record {
    jobs_listed = i.jobs_listed;
    nodes_listed = Listed-remove db.nodes id i.nodes_listed;
    vps_listed = Listed-remove_where db.vps _ i.vps_listed;
    credentials_own = Own-remove _ db.credentials id i.credentials_own;
    node_provider = Links-remove _ db.nodes db.providers i.node_provider id;
    vps_provider = Links-remove_where _ db.vps db.providers i.vps_provider _;
    vps_node = λ j r h.
        let (stood, other) = remove_where-stood db.vps (λ vps. eqb vps.node_id id) j r h in
        Has-remove db.nodes id r.node_id (eqb-swap r.node_id id other) (i.vps_node j r stood);
    job_node =
        Links-remove_target _ db.jobs db.nodes i.job_node id
          λ j r h. last-fails db.jobs (λ job. eqb job.node_id id) j r i.jobs_listed no_job h;
    credential_node = λ j r h.
        let (stood, other) = remove-stood db.credentials id j r h in
        Has-remove db.nodes id r.node_id (rw (i.credentials_own j r stood) other)
          (i.credential_node j r stood);
    check_node = checks_removed db.nodes id db.checks i.check_node;
    event_node = events_removed db.nodes id db.events i.event_node;
  }

  -- A provider goes if no node and no server refers to it.
  pub IsLinked-without_provider :
      (id : ℕ)
      → is_empty (select db.nodes (λ node. eqb node.provider_id id)) ≡ true
      → is_empty (select db.vps (λ vps. eqb vps.provider_id id)) ≡ true
      → IsLinked (without_provider id db)
  unfolding without_provider
  IsLinked-without_provider id no_node no_vps = record {
    jobs_listed = i.jobs_listed;
    nodes_listed = i.nodes_listed;
    vps_listed = i.vps_listed;
    credentials_own = i.credentials_own;
    node_provider =
        Links-remove_target _ db.nodes db.providers i.node_provider id
          λ j r h. fails db.nodes (λ node. eqb node.provider_id id) j r i.nodes_listed no_node h;
    vps_provider =
        Links-remove_target _ db.vps db.providers i.vps_provider id
          λ j r h. fails db.vps (λ vps. eqb vps.provider_id id) j r i.vps_listed no_vps h;
    vps_node = i.vps_node;
    job_node = i.job_node;
    credential_node = i.credential_node;
    check_node = i.check_node;
    event_node = i.event_node;
  }

pub IsLinked-save_provider : (provider : Provider) → Preserves IsLinked (save_provider provider)
unfolding save_provider
IsLinked-save_provider provider = Preserves-modify _ (λ db i. IsLinked-provider db i provider)
