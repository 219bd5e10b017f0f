-- ===== src/Runtime/Quiet.antt =====
-- Methods that call nothing that changes the outside: one rule for each way to build a method.
use aso_node_recovery.Prelude.{Bool, false, if◌then◌else◌, refl, true, ℕ, ◌∙◌, ◌≡◌}
use aso_node_recovery.Errors.{Error, Result, err, ok}
use aso_node_recovery.Runtime.{
  Db, Exec, World, ask, continue, gets, handle, lift, modify, pure, raise, restore, session,
  try_catch, when, ◌>>=◌,
}

pub record Quiet {A : Type 0} (m : Exec A) : Type 0 where
  pub stays : (w : World) → (m w).1.effects ≡ w.effects

module _ {A : Type 0} where
  pub Quiet-pure : (a : A) → Quiet (pure a)
  unfolding pure
  Quiet-pure a = record { stays = λ w. refl }

  pub Quiet-raise : (e : Error) → Quiet (raise {A = A} e)
  unfolding raise
  Quiet-raise e = record { stays = λ w. refl }

  pub Quiet-lift : (r : Result A) → Quiet (lift r)
  unfolding lift
  Quiet-lift r = record { stays = λ w. refl }

  pub Quiet-gets : (f : Db → A) → Quiet (gets f)
  unfolding gets
  Quiet-gets f = record { stays = λ w. refl }

  pub Quiet-ask : (question : ℕ → Result A) → Quiet (ask question)
  unfolding ask
  Quiet-ask question = record { stays = λ w. refl }

  pub Quiet-if : (b : Bool) (m n : Exec A) → Quiet m → Quiet n → Quiet (if b then m else n)
  Quiet-if true m n quiet_m quiet_n = quiet_m
  Quiet-if false m n quiet_m quiet_n = quiet_n

  restored_effects :
      (db : Db) (r : Result A) (w : World) → (restore db (r, w)).1.effects ≡ w.effects
  restored_effects db (ok a) w = refl
  restored_effects db (err e) w = refl

  pub Quiet-session : (m : Exec A) → Quiet m → Quiet (session m)
  unfolding session
  Quiet-session m quiet = record {
    stays = λ w. restored_effects w.db (m w).0 (m w).1 ∙ quiet.stays w;
  }

module _ {A : Type 0} where
  handled_stays :
      (handler : Error → Exec A) (r : Result A) (w : World)
      → ((e : Error) → Quiet (handler e))
      → (handle (r, w) handler).1.effects ≡ w.effects
  handled_stays handler (ok a) w quiet = refl
  handled_stays handler (err e) w quiet = (quiet e).stays w

  pub Quiet-try_catch :
      (m : Exec A) (handler : Error → Exec A)
      → Quiet m
      → ((e : Error) → Quiet (handler e))
      → Quiet (try_catch m handler)
  unfolding try_catch
  Quiet-try_catch m handler quiet_m quiet_h = record {
    stays = λ w. handled_stays handler (m w).0 (m w).1 quiet_h ∙ quiet_m.stays w;
  }

pub Quiet-when : (b : Bool) (m : Exec (Unit {0})) → Quiet m → Quiet (when b m)
unfolding when pure
Quiet-when true m quiet = quiet
Quiet-when false m quiet = record { stays = λ w. refl }

pub Quiet-modify : (f : Db → Db) → Quiet (modify f)
unfolding modify
Quiet-modify f = record { stays = λ w. refl }

module _ {A B : Type 0} where
  rest_stays :
      (r : Result A) (w : World) (f : A → Exec B)
      → ((a : A) → Quiet (f a))
      → (continue r w f).1.effects ≡ w.effects
  rest_stays (ok a) w f quiet = (quiet a).stays w
  rest_stays (err e) w f quiet = refl

  pub Quiet-bind :
      (m : Exec A) (f : A → Exec B) → Quiet m → ((a : A) → Quiet (f a)) → Quiet (m >>= f)
  unfolding ◌>>=◌
  Quiet-bind m f quiet_m quiet_f = record {
    stays = λ w. rest_stays (m w).0 (m w).1 f quiet_f ∙ quiet_m.stays w;
  }

pub ruleset quiet_rules = (
  Quiet-pure, Quiet-raise, Quiet-lift, Quiet-gets, Quiet-ask, Quiet-if, Quiet-session,
  Quiet-try_catch, Quiet-when, Quiet-modify, Quiet-bind,
)
