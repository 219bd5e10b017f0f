-- ===== src/Registry/Management/Changed.antt =====
-- What is renamed, replaced or removed leaves no reference without its row.
use aso_node_recovery.Prelude.{
  Bool, Bool-cases, List, Option, Option-cases, String, [], arith, eqb, false, get, inl, inr,
  is_empty, is_some, length, ltb, none, refl, select, some, true, ℕ, ◌+◌, ◌||◌, ◌∷◌, ◌≡◌,
}
use aso_node_recovery.Outside.{Outside}
use aso_node_recovery.Registry.Management.{
  SecretRef, drop_node, drop_provider, find_node, provider_rows, remove_node_from_registry,
  remove_provider_from_registry, rename_node, rename_provider, replace_provider_token, store_token,
}
use aso_node_recovery.Registry.Management.Discards.{Preserves-discard_all, Preserves-discard_old}
use aso_node_recovery.Registry.Management.Linked.{
  IsLinked, IsLinked-node, IsLinked-save_provider, IsLinked-without_node, IsLinked-without_provider,
}
use aso_node_recovery.Replacement.Sound.Actions.{Preserves-or_raise}
use aso_node_recovery.Replacement.Trigger.{get_active_for_node, latest_for_node}
use aso_node_recovery.Runtime.{World, raise, save_node, ◌>>=◌}
use aso_node_recovery.Runtime.Preserves.{
  Preserves, Preserves-bind, Preserves-session, preserves_rules,
}

none_right : {A : Type 0} (b : Bool) (o : Option A) → (b || is_some o) ≡ false → o ≡ none
none_right true o h = absurd (cc h)
none_right false none h = refl
none_right false (some a) h = absurd (cc h)

both_empty :
    {A B : Type 0} (xs : List A) (ys : List B)
    → ltb 0 (length xs + length ys) ≡ false
    → (is_empty xs ≡ true) × (is_empty ys ≡ true)
both_empty [] [] h = (refl, refl)
both_empty [] (y ∷ ys) h = absurd (ground arith)
both_empty (x ∷ xs) ys h = absurd (ground arith)

pub Preserves-rename_provider :
    (id : ℕ) (name : String) → Preserves IsLinked (rename_provider id name)
unfolding rename_provider
Preserves-rename_provider id name =
    search (preserves_rules, Preserves-or_raise, IsLinked-save_provider) depth 20

module _ (out : Outside) where
  Preserves-store_token :
      (id : ℕ) (reference : String) → Preserves IsLinked (store_token out id reference)
  unfolding store_token
  Preserves-store_token id reference =
      search (preserves_rules, Preserves-or_raise, IsLinked-save_provider)

  pub Preserves-replace_provider_token :
      (id : ℕ) (reference : String) → Preserves IsLinked (replace_provider_token out id reference)
  unfolding replace_provider_token
  Preserves-replace_provider_token id reference =
      search (preserves_rules, Preserves-or_raise, Preserves-store_token, Preserves-discard_old)
        depth 20

  -- A node that is read and written back with another name.
  Preserves-save_named :
      (id : ℕ) (name : String)
      → Preserves IsLinked (do node ← find_node id; save_node (record node { name = name }))
  unfolding ◌>>=◌ raise
  Preserves-save_named id name = record {
    leads = λ (w : World) i. elim (Option-cases (get w.db.nodes id)) [
      | inl missing ↦ rw missing i
      | inr (node, found) ↦
          rw found
            (IsLinked-node w.db i (record node { name = name }) (i.node_provider id node found))
    ];
  }

  pub Preserves-rename_node :
      (id : ℕ) (name : String) → Preserves IsLinked (rename_node out id name)
  unfolding rename_node
  Preserves-rename_node id name = search (preserves_rules, Preserves-save_named) depth 20

  Preserves-drop_node : (id : ℕ) → Preserves IsLinked (drop_node out id)
  unfolding drop_node ◌>>=◌ raise
  Preserves-drop_node id = record {
    leads = λ (w : World) i. elim (Option-cases (get w.db.nodes id)) [
      | inl missing ↦ rw missing i
      | inr (node, found) ↦
          (let jobs = is_some (get_active_for_node id w.db) || is_some (latest_for_node id w.db) in
            elim (Bool-cases jobs) [
              | inl refused ↦ rw (found, refused) i
              | inr free ↦
                  rw (found, free)
                    (IsLinked-without_node w.db i id (none_right _ (latest_for_node id w.db) free))
            ])
    ];
  }

  Preserves-drop_provider : (id : ℕ) → Preserves IsLinked (drop_provider out id)
  unfolding drop_provider ◌>>=◌ raise
  Preserves-drop_provider id = record {
    leads = λ (w : World) i. elim (Option-cases (get w.db.providers id)) [
      | inl missing ↦ rw missing i
      | inr (provider, found) ↦ elim (Bool-cases (ltb 0 (provider_rows id w.db))) [
        | inl refused ↦ rw (found, refused) i
        | inr free ↦
            let (no_node, no_vps) =
              both_empty (select w.db.nodes (λ node. eqb node.provider_id id))
                (select w.db.vps (λ vps. eqb vps.provider_id id)) free in
            rw (found, free) (IsLinked-without_provider w.db i id no_node no_vps)
      ]
    ];
  }

  pub Preserves-remove_node : (id : ℕ) → Preserves IsLinked (remove_node_from_registry out id)
  unfolding remove_node_from_registry
  Preserves-remove_node id = search (preserves_rules, Preserves-drop_node, Preserves-discard_all)

  pub Preserves-remove_provider :
      (id : ℕ) → Preserves IsLinked (remove_provider_from_registry out id)
  unfolding remove_provider_from_registry
  Preserves-remove_provider id =
      Preserves-bind _ _ (Preserves-session _ (Preserves-drop_provider id))
        (λ (secret : SecretRef). Preserves-discard_old out secret.0 secret.1 none)
