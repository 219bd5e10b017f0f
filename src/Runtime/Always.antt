-- ===== src/Runtime/Always.antt =====
-- Methods that always return, and what holds of what they return.
use mathlib.Core.Path.{subst}
use aso_node_recovery.Prelude.{Bool, false, if◌then◌else◌, refl, sym, true, ℕ, ◌∙◌, ◌≡◌}
use aso_node_recovery.Errors.{Error, Result, err, ok}
use aso_node_recovery.Runtime.{
  Db, Exec, World, ask, continue, gets, handle, modify, pure, restore, session, try_catch, ◌>>=◌,
}

-- Whatever the state, `m` returns a value that satisfies `P`.
pub record Always {A : Type 0} (P : A → Type 0) (m : Exec A) : Type 0 where
  pub returns : (w : World) → (a : A) × ((m w).0 ≡ ok a) × P a

-- Where `m` returns a value, it satisfies `P`.
pub record MayReturn {A : Type 0} (P : A → Type 0) (m : Exec A) : Type 0 where
  pub returned : (w : World) (a : A) → (m w).0 ≡ ok a → P a

module _ {A : Type 0} where
  restore-returned :
      (db : Db) (r : Result A) (w : World) (a : A) → r ≡ ok a → (restore db (r, w)).0 ≡ ok a
  restore-returned db (ok b) w a h = h
  restore-returned db (err e) w a h = h

  same_returned : (P : A → Type 0) (a b : A) → ok a ≡ ok b → P a → P b
  same_returned P a b h p = subst P (cc) p

module _ {A : Type 0} {P : A → Type 0} where
  pub Always-pure : (a : A) → P a → Always P (pure a)
  unfolding pure
  Always-pure a p = record { returns = λ w. (a, refl, p) }

  pub Always-mono : {Q : A → Type 0} (m : Exec A) → ((a : A) → Q a → P a) → Always Q m → Always P m
  Always-mono m weaker always = record {
    returns = λ w. let (a, h, q) = always.returns w in (a, h, weaker a q);
  }

  pub Always-gets : (f : Db → A) → ((db : Db) → P (f db)) → Always P (gets f)
  unfolding gets
  Always-gets f p = record { returns = λ w. (f w.db, refl, p w.db) }

  pub Always-if :
      (b : Bool) (m n : Exec A) → Always P m → Always P n → Always P (if b then m else n)
  Always-if true m n returns_m returns_n = returns_m
  Always-if false m n returns_m returns_n = returns_n

  pub Always-session : (m : Exec A) → Always P m → Always P (session m)
  unfolding session
  Always-session m always = record {
    returns =
        λ w. let (a, h, p) = always.returns w in (a, restore-returned w.db (m w).0 (m w).1 a h, p);
  }

  handle-returned :
      (handler : Error → Exec A) (r : Result A) (w : World)
      → ((a : A) → r ≡ ok a → P a)
      → ((e : Error) → Always P (handler e))
      → (a : A) × ((handle (r, w) handler).0 ≡ ok a) × P a
  handle-returned handler (ok a) w p always = (a, refl, p a refl)
  handle-returned handler (err e) w p always = (always e).returns w

  -- A handler that always returns ends every exception.
  pub Always-try_catch :
      (m : Exec A) (handler : Error → Exec A)
      → MayReturn P m
      → ((e : Error) → Always P (handler e))
      → Always P (try_catch m handler)
  unfolding try_catch
  Always-try_catch m handler may always = record {
    returns = λ w. handle-returned handler (m w).0 (m w).1 (may.returned w) always;
  }

  pub MayReturn-Always : (m : Exec A) → Always P m → MayReturn P m
  MayReturn-Always m always = record {
    returned = λ w b h. let (a, e, p) = always.returns w in same_returned P a b (sym e ∙ h) p;
  }

pub MayReturn-any : {A : Type 0} (m : Exec A) → MayReturn (λ _. Unit {0}) m
MayReturn-any m = record { returned = λ w a h. tt }

pub Always-modify : (f : Db → Db) → Always (λ _. Unit {0}) (modify f)
unfolding modify
Always-modify f = record { returns = λ w. (tt, refl, tt) }

pub Always-ask : {A : Type 0} (answer : ℕ → A) → Always (λ _. Unit {0}) (ask (λ n. ok (answer n)))
unfolding ask
Always-ask answer = record { returns = λ w. (answer w.calls, refl, tt) }

module _ {A B : Type 0} {Q : B → Type 0} where
  pub MayReturn-bind :
      (m : Exec A) (f : A → Exec B) → ((a : A) → MayReturn Q (f a)) → MayReturn Q (m >>= f)
  unfolding ◌>>=◌
  MayReturn-bind m f may = record { returned = λ w b h. continued (m w).0 (m w).1 b h }
    where
      continued : (r : Result A) (w : World) (b : B) → (continue r w f).0 ≡ ok b → Q b
      continued (ok a) w b h = (may a).returned w b h
      continued (err e) w b h = cc

  pub Always-bind :
      (P : A → Type 0) (m : Exec A) (f : A → Exec B)
      → Always P m
      → ((a : A) → P a → Always Q (f a))
      → Always Q (m >>= f)
  unfolding ◌>>=◌
  Always-bind P m f always_m always_f = record {
    returns = λ w. let (a, h, p) = always_m.returns w in rw h ((always_f a p).returns (m w).1);
  }
