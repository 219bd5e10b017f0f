-- ===== src/Registry/Links.antt =====
-- References between tables: the row that a column names stands in another table.
use mathlib.Core.Path.{subst}
use aso_node_recovery.Prelude.{
  Bool, Bool-cases, List, Listed, Option, Option-cases, Table, [], arith, contains, eqb, false,
  filter_keys, get, inl, inr, is_some, nat_eq, none, put, refl, remove, remove_where, some,
  string_eq, true, ℕ, ◌∙◌, ◌∷◌, ◌≡◌,
}
use aso_node_recovery.Models.EventEnums.{
  event_severity_eq, node_check_outcome_eq, replacement_trigger_mode_eq,
  secret_reference_backend_eq,
}
use aso_node_recovery.Models.JobEnums.{replacement_checkpoint_eq, replacement_job_state_eq}
use aso_node_recovery.Models.NodeEnums.{
  deployment_state_eq, node_operation_mode_eq, node_state_eq, provider_type_eq, ssh_auth_method_eq,
  vps_instance_role_eq, vps_instance_state_eq,
}
use aso_node_recovery.Registry.Rows.{Own, put-cases}

abbrev pub Has {ℓ} : {R : Type ℓ} → Option R → Type 0
Has found = is_some found ≡ true

pub eqb-swap : (a b : ℕ) → eqb a b ≡ false → eqb b a ≡ false
eqb-swap a b h = ground arith

contains-filter :
    (p : ℕ → Bool) (keys : List ℕ) (j : ℕ)
    → p j ≡ true
    → contains keys j ≡ true
    → contains (filter_keys p keys) j ≡ true
contains-filter p [] j passed h = h
contains-filter p (k ∷ keys) j passed h = ground (arith, contains-filter p keys j passed)

module _ {R : Type 0} where
  abbrev pub Links : {S : Type 0} → (R → ℕ) → Table R → Table S → Type 0
  Links link t u = (k : ℕ) (r : R) → get t k ≡ some r → Has (get u (link r))

  pub Has-put : (t : Table R) (k j : ℕ) (new : R) → Has (get t j) → Has (get (put t k new) j)
  Has-put t k j new has = elim (Bool-cases (eqb k j)) [
    | inl here ↦ rw here refl
    | inr elsewhere ↦ rw elsewhere has
  ]

  pub Has-remove :
      (t : Table R) (k j : ℕ) → eqb k j ≡ false → Has (get t j) → Has (get (remove t k) j)
  Has-remove t k j elsewhere has = rw elsewhere has

  -- What stands after a removal stood before, and was not removed.
  pub remove-stood :
      (t : Table R) (k j : ℕ) (r : R)
      → get (remove t k) j ≡ some r
      → (get t j ≡ some r) × (eqb k j ≡ false)
  remove-stood t k j r h = elim (Bool-cases (eqb k j)) [
    | inl here ↦ let gone : none ≡ some r = rw here at h in absurd (cc gone)
    | inr elsewhere ↦ (rw elsewhere at h, elsewhere)
  ]

  pub remove_where-stood :
      (t : Table R) (p : R → Bool) (j : ℕ) (r : R)
      → get (remove_where t p) j ≡ some r
      → (get t j ≡ some r) × (p r ≡ false)
  remove_where-stood t p j r h = elim (Option-cases (t.row j)) [
    | inl missing ↦ let gone : none ≡ some r = rw missing at h in absurd (cc gone)
    | inr (s, stands) ↦ elim (Bool-cases (p s)) [
      | inl passed ↦ let gone : none ≡ some r = rw (stands, passed) at h in absurd (cc gone)
      | inr failed ↦
          let e : some s ≡ some r = rw (stands, failed) at h in
          (stands ∙ e, subst (λ x. p x ≡ false) (cc e) failed)
    ]
  ]

  pub Listed-remove : (t : Table R) (k : ℕ) → Listed t → Listed (remove t k)
  Listed-remove t k listed j r h =
      let (stood, elsewhere) = remove-stood t k j r h in
      contains-filter _ t.keys j (rw elsewhere refl) (listed j r stood)

  pub Listed-remove_where : (t : Table R) (p : R → Bool) → Listed t → Listed (remove_where t p)
  Listed-remove_where t p listed j r h =
      let (stood, failed) = remove_where-stood t p j r h in
      contains-filter _ t.keys j (rw (stood, failed) refl) (listed j r stood)

  pub Own-remove : (id : R → ℕ) (t : Table R) (k : ℕ) → Own id t → Own id (remove t k)
  Own-remove id t k own j r h = own j r (remove-stood t k j r h).0

module _ {R S : Type 0} (link : R → ℕ) (t : Table R) (u : Table S) (links : Links link t u) where
  pub Links-put : (k : ℕ) (new : R) → Has (get u (link new)) → Links link (put t k new) u
  Links-put k new has j r h = elim (put-cases t k j new r h) [
    | inl (here, same) ↦ subst (λ x. Has (get u (link x))) same has
    | inr stood ↦ links j r stood
  ]

  pub Links-put_target : (k : ℕ) (new : S) → Links link t (put u k new)
  Links-put_target k new j r h = Has-put u k (link r) new (links j r h)

  pub Links-remove : (k : ℕ) → Links link (remove t k) u
  Links-remove k j r h = links j r (remove-stood t k j r h).0

  -- The target of no link may go.
  pub Links-remove_target :
      (k : ℕ)
      → ((j : ℕ) (r : R) → get t j ≡ some r → eqb (link r) k ≡ false)
      → Links link t (remove u k)
  Links-remove_target k free j r h =
      Has-remove u k (link r) (eqb-swap (link r) k (free j r h)) (links j r h)

  pub Links-remove_where : (p : R → Bool) → Links link (remove_where t p) u
  Links-remove_where p j r h = links j r (remove_where-stood t p j r h).0
