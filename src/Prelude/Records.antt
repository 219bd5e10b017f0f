-- ===== src/Prelude/Records.antt =====
-- A table of the database: the keys of its rows in insertion order, and the row at each key.
use Prim.Native.Nat.{ℕ}
use mathlib.Core.Path.{◌≡◌, refl, sym, ap, ◌∙◌}
use mathlib.Core.Bool.{Bool, true, false, not}
use mathlib.Core.Logic.{inl, inr}
use native.Mathlib.Omega.{arith}
use mathlib.Core.Option.{Option, none, some}
use mathlib.Core.List.{List, [], ◌∷◌, ◌++◌}
use aso_node_recovery.Prelude.Lists.{All, contains, is_empty}
use aso_node_recovery.Prelude.Tests.{
  Bool-cases, Option-cases, nat_eq, eqb, eqb_iff, if◌then◌else◌, is_some,
}

pub record Table (R : Type 0) : Type 0 where
  pub keys : List ℕ
  pub row : ℕ → Option R

-- The keys that pass a test.
abbrev pub filter_keys : (ℕ → Bool) → List ℕ → List ℕ
filter_keys p [] = []
filter_keys p (k ∷ ks) = let rest = filter_keys p ks in if p k then k ∷ rest else rest

contains_last : (ks : List ℕ) (k j : ℕ) → contains ks j ≡ true → contains (ks ++ k ∷ []) j ≡ true
contains_last [] k j h = cc
contains_last (i ∷ ks) k j h = ground (arith, contains_last ks k j)

contains_new : (ks : List ℕ) (k : ℕ) → contains (ks ++ k ∷ []) k ≡ true
contains_new [] k = ground arith
contains_new (i ∷ ks) k = ground (arith, contains_new ks k)

module _ {R : Type 0} where
  abbrev pub get : Table R → ℕ → Option R
  get t k = t.row k

  -- Insert or overwrite the row at `k`.
  abbrev pub put : Table R → ℕ → R → Table R
  put t k r = record {
    keys = if is_some (t.row k) then t.keys else t.keys ++ k ∷ [];
    row = λ j. if eqb k j then some r else t.row j;
  }

  -- Delete the row at `k`.
  abbrev pub remove : Table R → ℕ → Table R
  remove t k = record {
    keys = filter_keys (λ j. not (eqb k j)) t.keys;
    row = λ j. if eqb k j then none else t.row j;
  }

  abbrev pub passes : (R → Bool) → Option R → Bool
  passes p none = false
  passes p (some r) = p r

  -- One more row, if it is there and passes.
  abbrev pick : (R → Bool) → Option R → List R → List R
  pick p none rest = rest
  pick p (some r) rest = if p r then r ∷ rest else rest

  select_from : (ℕ → Option R) → (R → Bool) → List ℕ → List R
  select_from row p [] = []
  select_from row p (k ∷ ks) = let rest = select_from row p ks in pick p (row k) rest

  -- The rows that pass a test, in insertion order.
  unfoldable pub select : Table R → (R → Bool) → List R
  unfolding select_from
  select t p = select_from t.row p t.keys

  -- Delete the rows that pass a test.
  abbrev pub remove_where : Table R → (R → Bool) → Table R
  remove_where t p = record {
    keys = filter_keys (λ j. not (passes p (t.row j))) t.keys;
    row = λ j. if passes p (t.row j) then none else t.row j;
  }

  pub get-put : (t : Table R) (k : ℕ) (r : R) → get (put t k r) k ≡ some r
  get-put t k r = rw ((eqb_iff k k).1 refl) refl

  -- Every filled row is among the keys.
  abbrev pub Listed : Table R → Type 0
  Listed t = (k : ℕ) (r : R) → t.row k ≡ some r → contains t.keys k ≡ true

  -- A selected row stands in the table, and passes.
  abbrev pub IsSelected : (ℕ → Option R) → (R → Bool) → R → Type 0
  IsSelected row p r = (k : ℕ) × (row k ≡ some r) × (p r ≡ true)

  IsSelected-from :
      (row : ℕ → Option R) (p : R → Bool) (keys : List ℕ)
      → All (IsSelected row p) (select_from row p keys)
  unfolding select_from
  IsSelected-from row p [] = tt
  IsSelected-from row p (k ∷ ks) = elim (Option-cases (row k)) [
    | inl missing ↦ rw missing (IsSelected-from row p ks)
    | inr (r, found) ↦ elim (Bool-cases (p r)) [
      | inl passed ↦ rw found (rw passed ((k, found, passed), IsSelected-from row p ks))
      | inr failed ↦ rw found (rw failed (IsSelected-from row p ks))
    ]
  ]

  pub select-IsSelected : (t : Table R) (p : R → Bool) → All (IsSelected t.row p) (select t p)
  unfolding select
  select-IsSelected t p = IsSelected-from t.row p t.keys

  not_empty_from :
      (row : ℕ → Option R) (p : R → Bool) (keys : List ℕ) (k : ℕ) (r : R)
      → contains keys k ≡ true
      → row k ≡ some r
      → p r ≡ true
      → is_empty (select_from row p keys) ≡ false
  unfolding select_from
  not_empty_from row p [] k r listed found passed = cc
  not_empty_from row p (j ∷ js) k r listed found passed = elim (Bool-cases (eqb k j)) [
    | inl here ↦
        let found' : row j ≡ some r = ap row (sym ((eqb_iff k j).0 here)) ∙ found in
        rw found' (rw passed refl)
    | inr elsewhere ↦
        let rest = not_empty_from row p js k r (rw elsewhere at listed) found passed in
        elim (Option-cases (row j)) [
          | inl missing ↦ rw missing rest
          | inr (s, stands) ↦ elim (Bool-cases (p s)) [
            | inl passes_too ↦ rw stands (rw passes_too refl)
            | inr fails ↦ rw stands (rw fails rest)
          ]
        ]
  ]

  -- What is listed and passes is selected.
  pub select-found :
      (t : Table R) (p : R → Bool) (k : ℕ) (r : R)
      → Listed t
      → t.row k ≡ some r
      → p r ≡ true
      → is_empty (select t p) ≡ false
  unfolding select
  select-found t p k r listed found passed =
      not_empty_from t.row p t.keys k r (listed k r found) found passed

  pub Listed-put : (t : Table R) (k : ℕ) (r : R) → Listed t → Listed (put t k r)
  Listed-put t k r listed j s found = elim (Bool-cases (eqb k j)) [
    | inl here ↦
        let e : k ≡ j = (eqb_iff k j).0 here in
        elim (Option-cases (t.row k)) [
          | inl missing ↦ rw missing (rw (← e) (contains_new t.keys k))
          | inr (old, stood) ↦ rw stood (listed j old (ap t.row (sym e) ∙ stood))
        ]
    | inr elsewhere ↦
        let stands : t.row j ≡ some s = rw elsewhere at found in
        elim (Option-cases (t.row k)) [
          | inl missing ↦ rw missing (contains_last t.keys k j (listed j s stands))
          | inr (old, stood) ↦ rw stood (listed j s stands)
        ]
  ]
