-- ===== src/Runtime/Forward.antt =====
-- Methods that ask their questions one after the other: the number of questions never goes back.
use aso_node_recovery.Prelude.{Bool, arith, false, if◌then◌else◌, true, ℕ, ◌≤◌}
use aso_node_recovery.Errors.{Error, Result, err, ok}
use aso_node_recovery.Replacement.Checkpoints.{forward}
use aso_node_recovery.Runtime.{
  Db, Exec, World, ask, continue, gets, modify, pure, raise, restore, session, when, ◌>>=◌,
}

pub record Forward {A : Type 0} (m : Exec A) : Type 0 where
  pub grows : (w : World) → w.calls ≤ (m w).1.calls

module _ {A : Type 0} where
  pub Forward-pure : (a : A) → Forward (pure a)
  unfolding pure
  Forward-pure a = record { grows = λ w. omega arith }

  pub Forward-raise : (e : Error) → Forward (raise {A = A} e)
  unfolding raise
  Forward-raise e = record { grows = λ w. omega arith }

  pub Forward-gets : (f : Db → A) → Forward (gets f)
  unfolding gets
  Forward-gets f = record { grows = λ w. omega arith }

  pub Forward-ask : (question : ℕ → Result A) → Forward (ask question)
  unfolding ask
  Forward-ask question = record { grows = λ w. omega arith }

  pub Forward-if : (b : Bool) (m n : Exec A) → Forward m → Forward n → Forward (if b then m else n)
  Forward-if true m n forward_m forward_n = forward_m
  Forward-if false m n forward_m forward_n = forward_n

  restored_calls :
      (k : ℕ) (db : Db) (r : Result A) (w : World) → k ≤ w.calls → k ≤ (restore db (r, w)).1.calls
  restored_calls k db (ok a) w h = h
  restored_calls k db (err e) w h = h

  pub Forward-session : (m : Exec A) → Forward m → Forward (session m)
  unfolding session
  Forward-session m forward = record {
    grows = λ w. restored_calls w.calls w.db (m w).0 (m w).1 (forward.grows w);
  }

pub Forward-when : (b : Bool) (m : Exec (Unit {0})) → Forward m → Forward (when b m)
unfolding when pure
Forward-when true m forward = forward
Forward-when false m forward = record { grows = λ w. omega arith }

pub Forward-modify : (f : Db → Db) → Forward (modify f)
unfolding modify
Forward-modify f = record { grows = λ w. omega arith }

module _ {A B : Type 0} where
  rest_grows :
      (k : ℕ) (r : Result A) (w : World) (f : A → Exec B)
      → k ≤ w.calls
      → ((a : A) → Forward (f a))
      → k ≤ (continue r w f).1.calls
  rest_grows k (ok a) w f h forward = let later = (forward a).grows w in omega arith
  rest_grows k (err e) w f h forward = h

  pub Forward-bind :
      (m : Exec A) (f : A → Exec B) → Forward m → ((a : A) → Forward (f a)) → Forward (m >>= f)
  unfolding ◌>>=◌
  Forward-bind m f forward_m forward_f = record {
    grows = λ w. rest_grows w.calls (m w).0 (m w).1 f (forward_m.grows w) forward_f;
  }

pub ruleset forward_rules = (
  Forward-pure, Forward-raise, Forward-gets, Forward-ask, Forward-if, Forward-session, Forward-when,
  Forward-modify, Forward-bind,
)
