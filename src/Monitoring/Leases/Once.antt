-- ===== src/Monitoring/Leases/Once.antt =====
-- A node is checked by one worker at a time.
use aso_node_recovery.Prelude.{
  Bool-cases, Option, String, Table, ap, arith, false, get, get-put, inl, inr, none, put, refl,
  some, sym, true, ℕ, ◌<◌, ◌∙◌, ◌≡◌, ◌≢◌,
}
use aso_node_recovery.Models.NodeEnums.{NodeOperationMode, node_operation_mode_eq}
use aso_node_recovery.Models.Rows.{Node}
use aso_node_recovery.Monitoring.Leases.{
  acquire_node, may_check, try_acquire_monitoring_lease, with_monitoring_lease,
}

granted_node :
    (nodes later : Table Node) (id : ℕ) (token : String) (now until : ℕ) (found : Option Node)
    → acquire_node nodes id found token now until ≡ (later, true)
    → (node : Node) × (found ≡ some node)
      × (may_check node now ≡ true)
      × (get later id ≡ some (with_monitoring_lease node (some token) (some until)))
unfolding acquire_node
granted_node nodes later id token now until none h = absurd (ground arith)
granted_node nodes later id token now until (some node) h = elim (Bool-cases (may_check node now)) [
  | inl may ↦
      let h' : (put nodes id (with_monitoring_lease node (some token) (some until)), true)
          ≡ (later, true) =
        simp may at h in
      (
        node,
        refl,
        may,
        ap (λ table. get table id) (sym (ap (λ answer. answer.0) h')) ∙ get-put nodes id _,
      )
  | inr not_may ↦ absurd (ground arith)
]

still_held :
    (nodes : Table Node) (id : ℕ) (node : Node) (token other : String) (until t next : ℕ)
    → t < until
    → acquire_node nodes id
        (some (with_monitoring_lease node (some token) (some until)))
        other
        t
        next
      ≡ (nodes, false)
unfolding acquire_node
still_held nodes id node token other until t next early = ground arith

monitored :
    (node : Node) (now : ℕ)
    → may_check node now ≡ true
    → (node.monitoring_enabled ≡ true) × (node.operation_mode ≢ NodeOperationMode.disabled)
monitored node now may =
    ground (arith, node_operation_mode_eq.agree_iff node.operation_mode NodeOperationMode.disabled)

-- A check is only granted for a node that is monitored and not disabled, and until the lease ends no
-- other check of the node is granted, whatever its token.
pub check-exclusive :
    (nodes later : Table Node) (id : ℕ) (token other : String) (now until t next : ℕ)
    → try_acquire_monitoring_lease nodes id token now until ≡ (later, true)
    → t < until
    → ((node : Node) × (get nodes id ≡ some node)
        × (node.monitoring_enabled ≡ true)
        × (node.operation_mode ≢ NodeOperationMode.disabled))
      × (try_acquire_monitoring_lease later id other t next ≡ (later, false))
unfolding try_acquire_monitoring_lease
check-exclusive nodes later id token other now until t next h early =
    let (node, there, may, stored) = granted_node nodes later id token now until (get nodes id) h in
    (
      (node, there, (monitored node now may).0, (monitored node now may).1),
      rw stored (still_held later id node token other until t next early),
    )
