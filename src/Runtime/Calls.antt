-- ===== src/Runtime/Calls.antt =====
-- Methods that call one thing outside at most: `e`, and at most once.
use aso_node_recovery.Prelude.{
  Bool, [], false, if◌then◌else◌, inl, inr, refl, true, ◌++◌, ◌∙◌, ◌∷◌, ◌≡◌, ◌⊎◌,
}
use aso_node_recovery.Errors.{Result, err, ok}
use aso_node_recovery.Runtime.{Effect, Exec, World, call, continue, ◌>>=◌}
use aso_node_recovery.Runtime.Quiet.{Quiet}

-- Nothing was called, or `e` once.
abbrev pub OnceAtMost : Effect → World → World → Type 0
OnceAtMost e w w' = (w'.effects ≡ w.effects) ⊎ (w'.effects ≡ w.effects ++ e ∷ [])

pub record Calls {A : Type 0} (e : Effect) (m : Exec A) : Type 0 where
  pub made : (w : World) → OnceAtMost e w (m w).1

module _ {A : Type 0} {e : Effect} where
  pub Calls-Quiet : (m : Exec A) → Quiet m → Calls e m
  Calls-Quiet m quiet = record { made = λ w. inl (quiet.stays w) }

  pub Calls-if : (b : Bool) (m n : Exec A) → Calls e m → Calls e n → Calls e (if b then m else n)
  Calls-if true m n calls_m calls_n = calls_m
  Calls-if false m n calls_m calls_n = calls_n

pub Calls-call : (e : Effect) → Calls e (call e)
unfolding call
Calls-call e = record { made = λ w. inr refl }

module _ {A B : Type 0} where
  from-Quiet :
      (e : Effect) (r : Result A) (w w' : World) (f : A → Exec B)
      → w'.effects ≡ w.effects
      → ((a : A) → Calls e (f a))
      → OnceAtMost e w (continue r w' f).1
  from-Quiet e (ok a) w w' f same calls = elim ((calls a).made w') [
    | inl none_made ↦ inl (none_made ∙ same)
    | inr one_made ↦ inr (rw⁻¹ same one_made)
  ]
  from-Quiet e (err x) w w' f same calls = inl same

  pub Calls-after :
      {e : Effect} (m : Exec A) (f : A → Exec B)
      → Quiet m
      → ((a : A) → Calls e (f a))
      → Calls e (m >>= f)
  unfolding ◌>>=◌
  Calls-after m f quiet calls = record {
    made = λ w. from-Quiet _ (m w).0 w (m w).1 f (quiet.stays w) calls;
  }

  into-Quiet :
      (e : Effect) (r : Result A) (w w' : World) (f : A → Exec B)
      → OnceAtMost e w w'
      → ((a : A) → Quiet (f a))
      → OnceAtMost e w (continue r w' f).1
  into-Quiet e (ok a) w w' f made quiet = elim made [
    | inl none_made ↦ inl ((quiet a).stays w' ∙ none_made)
    | inr one_made ↦ inr ((quiet a).stays w' ∙ one_made)
  ]
  into-Quiet e (err x) w w' f made quiet = made

  pub Calls-before :
      {e : Effect} (m : Exec A) (f : A → Exec B)
      → Calls e m
      → ((a : A) → Quiet (f a))
      → Calls e (m >>= f)
  unfolding ◌>>=◌
  Calls-before m f calls quiet = record {
    made = λ w. into-Quiet _ (m w).0 w (m w).1 f (calls.made w) quiet;
  }

pub ruleset calls_rules = (Calls-if, Calls-after, Calls-before, Calls-call, Calls-Quiet)
