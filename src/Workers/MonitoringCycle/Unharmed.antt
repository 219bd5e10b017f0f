-- ===== src/Workers/MonitoringCycle/Unharmed.antt =====
-- A check that is skipped or ends in an error does not count against a node, or for it.
use aso_node_recovery.Prelude.{
  Bool-cases, Option, String, Table, ap, arith, eqb, eqb_iff, get, inl, inr, none, put, refl, some,
  sym, ℕ, ◌∙◌, ◌≡◌,
}
use aso_node_recovery.Models.NodeEnums.{NodeState}
use aso_node_recovery.Models.Rows.{Node}
use aso_node_recovery.Monitoring.Leases.{acquire_node, may_check, release_node}
use aso_node_recovery.Replacement.Leases.{holds_token}
use aso_node_recovery.Runtime.{Db}

-- The state of a node, the counts of its checks, and its last success.
abbrev pub health : Node → NodeState × ℕ × ℕ × Option ℕ
health node = (
  node.state, node.consecutive_failures, node.consecutive_successes, node.last_successful_check_at,
)

abbrev pub health_of : Option Node → Option (NodeState × ℕ × ℕ × Option ℕ)
health_of none = none
health_of (some node) = some (health node)

-- Every row stands under its own id.
abbrev pub Keyed : Table Node → Type 0
Keyed nodes = (k : ℕ) (node : Node) → get nodes k ≡ some node → node.id ≡ k

pub record Unharmed (before db : Db) : Type 0 where
  pub same : (k : ℕ) → health_of (get db.nodes k) ≡ health_of (get before.nodes k)
  pub keyed : Keyed db.nodes

pub put-Unharmed :
    (before db : Db) (k : ℕ) (node later : Node)
    → Unharmed before db
    → get db.nodes k ≡ some node
    → health later ≡ health node
    → later.id ≡ k
    → Unharmed before (record db { nodes = put db.nodes k later })
put-Unharmed before db k node later u found same_health own = record {
  same = λ j. elim (Bool-cases (eqb k j)) [
    | inl here ↦
        let e : k ≡ j = (eqb_iff k j).0 here in
        rw here (
          ap (λ x. some x) same_health
          ∙ ap health_of (sym found)
          ∙ ap (λ i. health_of (get db.nodes i)) e
          ∙ u.same j)
    | inr elsewhere ↦ rw elsewhere (u.same j)
  ];
  keyed = λ j row h. elim (Bool-cases (eqb k j)) [
    | inl here ↦
        let stored : some later ≡ some row = rw here at h in
        let e : k ≡ j = (eqb_iff k j).0 here in ground arith
    | inr elsewhere ↦ u.keyed j row (rw elsewhere at h)
  ];
}

module _ (before : Db) where
  pub acquired :
      (db : Db) (node_id : ℕ) (found : Option Node) (token : String) (now until : ℕ)
      → Unharmed before db
      → get db.nodes node_id ≡ found
      → Unharmed before
          (record db { nodes = (acquire_node db.nodes node_id found token now until).0 })
  unfolding acquire_node
  acquired db node_id none token now until u h = u
  acquired db node_id (some node) token now until u h = elim (Bool-cases (may_check node now)) [
    | inl may ↦ rw may (put-Unharmed before db node_id node _ u h refl (u.keyed node_id node h))
    | inr not_may ↦ rw not_may u
  ]

  pub released :
      (db : Db) (node_id : ℕ) (found : Option Node) (token : String)
      → Unharmed before db
      → get db.nodes node_id ≡ found
      → Unharmed before (record db { nodes = release_node db.nodes node_id found token })
  unfolding release_node
  released db node_id none token u h = u
  released db node_id (some node) token u h =
      elim (Bool-cases (holds_token node.monitoring_lease_token token)) [
        | inl held ↦
            rw held (put-Unharmed before db node_id node _ u h refl (u.keyed node_id node h))
        | inr not_held ↦ rw not_held u
      ]
