-- ===== src/Registry/Rows.antt =====
-- Rows under their own id, columns with a value of their own in each row, and what a search says.
use mathlib.Core.Path.{subst}
use aso_node_recovery.Prelude.{
  All, Bool, Bool-cases, IsSelected, List, Listed, Option-cases, Table, [], ap, eqb, eqb_iff, false,
  get, inl, inr, is_empty, none, put, refl, select, select-IsSelected, select-found, some, sym,
  true, ℕ, ◌∙◌, ◌∷◌, ◌≡◌, ◌⊎◌,
}
use aso_node_recovery.Replacement.Access.{first}
use aso_node_recovery.Replacement.Trigger.{last}

module _ {R : Type 0} where
  abbrev pub Own : (R → ℕ) → Table R → Type 0
  Own id t = (k : ℕ) (r : R) → get t k ≡ some r → id r ≡ k

  abbrev pub Distinct {ℓ} : {K : Type ℓ} → (R → K) → Table R → Type ℓ
  Distinct column t =
      (j k : ℕ) (r s : R) → get t j ≡ some r → get t k ≡ some s → column r ≡ column s → j ≡ k

  -- A row of the table after `put` is the new one, or stood there.
  pub put-cases :
      (t : Table R) (k j : ℕ) (new r : R)
      → get (put t k new) j ≡ some r
      → ((k ≡ j) × (new ≡ r)) ⊎ (get t j ≡ some r)
  put-cases t k j new r h = elim (Bool-cases (eqb k j)) [
    | inl here ↦
        let stored : some new ≡ some r = rw here at h in inl ((eqb_iff k j).0 here, cc stored)
    | inr elsewhere ↦ inr (rw elsewhere at h)
  ]

  pub Own-put : (id : R → ℕ) (t : Table R) (new : R) → Own id t → Own id (put t (id new) new)
  Own-put id t new own j r h = elim (put-cases t (id new) j new r h) [
    | inl (here, same) ↦ ap id (sym same) ∙ here
    | inr stood ↦ own j r stood
  ]

  -- A row may be written where its value is no other row's.
  pub Distinct-put {ℓ} :
      {K : Type ℓ} (column : R → K) (t : Table R) (k : ℕ) (new : R)
      → Distinct column t
      → ((j : ℕ) (r : R) → get t j ≡ some r → column r ≡ column new → j ≡ k)
      → Distinct column (put t k new)
  Distinct-put column t k new distinct free i j r s h g same = elim (put-cases t k i new r h) [
    | inl (here, new_r) ↦ elim (put-cases t k j new s g) [
      | inl (there, new_s) ↦ sym here ∙ there
      | inr stood ↦ sym here ∙ sym (free j s stood (sym same ∙ ap column (sym new_r)))
    ]
    | inr stood_r ↦ elim (put-cases t k j new s g) [
      | inl (there, new_s) ↦ free i r stood_r (same ∙ ap column (sym new_s)) ∙ there
      | inr stood ↦ distinct i j r s stood_r stood same
    ]
  ]

  pub first-IsSelected :
      (P : R → Type 0) (rows : List R) (r : R) → All P rows → first rows ≡ some r → P r
  first-IsSelected P [] r all h = absurd (cc h)
  first-IsSelected P (x ∷ rows) r all h = let e : x ≡ r = cc h in subst P e all.0

  pub last-IsSelected :
      (P : R → Type 0) (rows : List R) (r : R) → All P rows → last rows ≡ some r → P r
  unfolding last
  last-IsSelected P [] r all h = absurd (cc h)
  last-IsSelected P (x ∷ rows) r all h = elim (Option-cases (last rows)) [
    | inl none_left ↦ let e : some x ≡ some r = rw none_left at h in subst P (cc e) all.0
    | inr (y, found) ↦
        let e : some y ≡ some r = rw found at h in last-IsSelected P rows r all.1 (found ∙ e)
  ]

  pub first-row :
      (id : R → ℕ) (t : Table R) (p : R → Bool) (r : R)
      → Own id t
      → first (select t p) ≡ some r
      → (get t (id r) ≡ some r) × (p r ≡ true)
  first-row id t p r own h =
      let (k, found, passed) =
        first-IsSelected (IsSelected t.row p) _ r (select-IsSelected t p) h in
      (ap (get t) (own k r found) ∙ found, passed)

  pub last-row :
      (id : R → ℕ) (t : Table R) (p : R → Bool) (r : R)
      → Own id t
      → last (select t p) ≡ some r
      → (get t (id r) ≡ some r) × (p r ≡ true)
  last-row id t p r own h =
      let (k, found, passed) = last-IsSelected (IsSelected t.row p) _ r (select-IsSelected t p) h in
      (ap (get t) (own k r found) ∙ found, passed)

  first-none : (rows : List R) → first rows ≡ none → is_empty rows ≡ true
  first-none [] h = refl
  first-none (x ∷ rows) h = cc

  last-none : (rows : List R) → last rows ≡ none → is_empty rows ≡ true
  unfolding last
  last-none [] h = refl
  last-none (x ∷ rows) h = elim (Option-cases (last rows)) [
    | inl none_left ↦ let e : some x ≡ none = rw none_left at h in absurd (cc e)
    | inr (y, found) ↦ let e : some y ≡ none = rw found at h in absurd (cc e)
  ]

  pub fails :
      (t : Table R) (p : R → Bool) (k : ℕ) (r : R)
      → Listed t
      → is_empty (select t p) ≡ true
      → get t k ≡ some r
      → p r ≡ false
  fails t p k r listed empty found = elim (Bool-cases (p r)) [
    | inl passed ↦ absurd (cc (sym empty ∙ select-found t p k r listed found passed))
    | inr failed ↦ failed
  ]

  -- Where a search finds nothing, every row fails the test.
  pub first-fails :
      (t : Table R) (p : R → Bool) (k : ℕ) (r : R)
      → Listed t
      → first (select t p) ≡ none
      → get t k ≡ some r
      → p r ≡ false
  first-fails t p k r listed h = fails t p k r listed (first-none _ h)

  pub last-fails :
      (t : Table R) (p : R → Bool) (k : ℕ) (r : R)
      → Listed t
      → last (select t p) ≡ none
      → get t k ≡ some r
      → p r ≡ false
  last-fails t p k r listed h = fails t p k r listed (last-none _ h)
