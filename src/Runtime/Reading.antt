-- ===== src/Runtime/Reading.antt =====
-- Methods that only read the tables: one rule for each way to build a method.
use aso_node_recovery.Prelude.{Bool, false, if◌then◌else◌, refl, true, ℕ, ◌∙◌, ◌≡◌}
use aso_node_recovery.Errors.{Error, Result, err, ok}
use aso_node_recovery.Runtime.{Db, Exec, World, ask, continue, gets, pure, raise, ◌>>=◌}

pub record Reading {A : Type 0} (m : Exec A) : Type 0 where
  pub stays : (w : World) → (m w).1.db ≡ w.db

module _ {A : Type 0} where
  pub Reading-pure : (a : A) → Reading (pure a)
  unfolding pure
  Reading-pure a = record { stays = λ w. refl }

  pub Reading-raise : (e : Error) → Reading (raise {A = A} e)
  unfolding raise
  Reading-raise e = record { stays = λ w. refl }

  pub Reading-gets : (f : Db → A) → Reading (gets f)
  unfolding gets
  Reading-gets f = record { stays = λ w. refl }

  pub Reading-ask : (question : ℕ → Result A) → Reading (ask question)
  unfolding ask
  Reading-ask question = record { stays = λ w. refl }

  pub Reading-if : (b : Bool) (m n : Exec A) → Reading m → Reading n → Reading (if b then m else n)
  Reading-if true m n reading_m reading_n = reading_m
  Reading-if false m n reading_m reading_n = reading_n

module _ {A B : Type 0} where
  rest_stays :
      (r : Result A) (w : World) (f : A → Exec B)
      → ((a : A) → Reading (f a))
      → (continue r w f).1.db ≡ w.db
  rest_stays (ok a) w f reading = (reading a).stays w
  rest_stays (err e) w f reading = refl

  pub Reading-bind :
      (m : Exec A) (f : A → Exec B) → Reading m → ((a : A) → Reading (f a)) → Reading (m >>= f)
  unfolding ◌>>=◌
  Reading-bind m f reading_m reading_f = record {
    stays = λ w. rest_stays (m w).0 (m w).1 f reading_f ∙ reading_m.stays w;
  }

pub ruleset reading_rules =
    (Reading-pure, Reading-raise, Reading-gets, Reading-ask, Reading-if, Reading-bind)
