-- ===== src/Runtime/Preserves.antt =====
-- Invariants of the database: one rule for each way to build a method.
use aso_node_recovery.Prelude.{Bool, false, if◌then◌else◌, refl, true, ℕ, ◌≡◌}
use aso_node_recovery.Errors.{Error, Result, err, ok}
use aso_node_recovery.Runtime.{
  Db, Effect, Exec, World, ask, call, continue, gets, handle, lift, modify, pure, raise, restore,
  session, try_catch, when, ◌>>=◌,
}

-- Whether `m` returns or raises, it leads from a database that satisfies `J` to one that does.
pub record Preserves {A : Type 0} (J : Db → Type 0) (m : Exec A) : Type 0 where
  pub leads : (w : World) → J w.db → J (m w).1.db

module _ {A : Type 0} {J : Db → Type 0} where
  pub Preserves-pure : (a : A) → Preserves J (pure a)
  unfolding pure
  Preserves-pure a = record { leads = λ w i. i }

  pub Preserves-raise : (e : Error) → Preserves J (raise {A = A} e)
  unfolding raise
  Preserves-raise e = record { leads = λ w i. i }

  pub Preserves-lift : (r : Result A) → Preserves J (lift r)
  unfolding lift
  Preserves-lift r = record { leads = λ w i. i }

  pub Preserves-gets : (f : Db → A) → Preserves J (gets f)
  unfolding gets
  Preserves-gets f = record { leads = λ w i. i }

  pub Preserves-if :
      (b : Bool) (m n : Exec A) → Preserves J m → Preserves J n → Preserves J (if b then m else n)
  Preserves-if true m n keeps_m keeps_n = keeps_m
  Preserves-if false m n keeps_m keeps_n = keeps_n

module _ {J : Db → Type 0} where
  pub Preserves-when : (b : Bool) (m : Exec (Unit {0})) → Preserves J m → Preserves J (when b m)
  unfolding when pure
  Preserves-when true m keeps = keeps
  Preserves-when false m keeps = record { leads = λ w i. i }

module _ {A B : Type 0} {J : Db → Type 0} where
  -- The rest may use the value that was handed over.
  pub Preserves-bind_lift :
      (r : Result A) (f : A → Exec B)
      → ((a : A) → r ≡ ok a → Preserves J (f a))
      → Preserves J (lift r >>= f)
  unfolding ◌>>=◌
  Preserves-bind_lift (ok a) f keeps = keeps a refl
  Preserves-bind_lift (err e) f keeps = record { leads = λ w i. i }

  rest_leads :
      (r : Result A) (w : World) (f : A → Exec B)
      → J w.db
      → ((a : A) → Preserves J (f a))
      → J (continue r w f).1.db
  rest_leads (ok a) w f i keeps = (keeps a).leads w i
  rest_leads (err e) w f i keeps = i

  pub Preserves-bind :
      (m : Exec A) (f : A → Exec B)
      → Preserves J m
      → ((a : A) → Preserves J (f a))
      → Preserves J (m >>= f)
  unfolding ◌>>=◌
  Preserves-bind m f keeps_m keeps_f = record {
    leads = λ w i. rest_leads (m w).0 (m w).1 f (keeps_m.leads w i) keeps_f;
  }

module _ {A : Type 0} {J : Db → Type 0} where
  handled_leads :
      (r : Result A) (w : World) (handler : Error → Exec A)
      → J w.db
      → ((e : Error) → Preserves J (handler e))
      → J (handle (r, w) handler).1.db
  handled_leads (ok a) w handler i keeps = i
  handled_leads (err e) w handler i keeps = (keeps e).leads w i

  pub Preserves-try_catch :
      (m : Exec A) (handler : Error → Exec A)
      → Preserves J m
      → ((e : Error) → Preserves J (handler e))
      → Preserves J (try_catch m handler)
  unfolding try_catch
  Preserves-try_catch m handler keeps_m keeps_h = record {
    leads = λ w i. handled_leads (m w).0 (m w).1 handler (keeps_m.leads w i) keeps_h;
  }

module _ {A : Type 0} where
  restored :
      (J : Db → Type 0) (db : Db) (r : Result A) (w : World)
      → J db
      → J w.db
      → J (restore db (r, w)).1.db
  restored J db (ok a) w before after = after
  restored J db (err e) w before after = before

module _ {A : Type 0} {J : Db → Type 0} where
  -- A session that fails goes back to a database that satisfied `J`.
  pub Preserves-session : (m : Exec A) → Preserves J m → Preserves J (session m)
  unfolding session
  Preserves-session m keeps = record {
    leads = λ w i. restored J w.db (m w).0 (m w).1 i (keeps.leads w i);
  }

  pub Preserves-ask : (question : ℕ → Result A) → Preserves J (ask question)
  unfolding ask
  Preserves-ask question = record { leads = λ w i. i }

module _ {J : Db → Type 0} where
  pub Preserves-call : (e : Effect) → Preserves J (call e)
  unfolding call
  Preserves-call e = record { leads = λ w i. i }

  pub Preserves-modify : (f : Db → Db) → ((db : Db) → J db → J (f db)) → Preserves J (modify f)
  unfolding modify
  Preserves-modify f keeps = record { leads = λ w i. keeps w.db i }

pub ruleset preserves_rules = (
  Preserves-pure, Preserves-raise, Preserves-lift, Preserves-gets, Preserves-if, Preserves-when,
  Preserves-bind, Preserves-try_catch, Preserves-session, Preserves-ask, Preserves-call,
)
