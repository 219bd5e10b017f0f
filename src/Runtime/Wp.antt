-- ===== src/Runtime/Wp.antt =====
-- Reasoning about methods: what holds of the state that a method leaves, whether it returns or
-- raises.
use aso_node_recovery.Prelude.{refl, ◌≡◌}
use aso_node_recovery.Errors.{Error, Result, err, ok}
use aso_node_recovery.Runtime.{
  Db, Exec, World, continue, handle, lift, restore, session, try_catch, ◌>>=◌,
}

-- `Q` of a returned value and its state, `E` of the state that an exception leaves.
abbrev pub Post : {A : Type 0} → (A → World → Type 0) → (World → Type 0) → Result A × World → Type 0
Post Q E (ok a, w) = Q a w
Post Q E (err e, w) = E w

abbrev pub Wp : {A : Type 0} → Exec A → (A → World → Type 0) → (World → Type 0) → World → Type 0
Wp m Q E w = Post Q E (m w)

module _ {A B : Type 0} where
  continue-Post :
      (f : A → Exec B) (Q : B → World → Type 0) (E : World → Type 0) (r : Result A) (w : World)
      → Post (λ a. Wp (f a) Q E) E (r, w)
      → Post Q E (continue r w f)
  continue-Post f Q E (ok a) w h = h
  continue-Post f Q E (err e) w h = h

  pub Wp-bind :
      (m : Exec A) (f : A → Exec B) (Q : B → World → Type 0) (E : World → Type 0) (w : World)
      → Wp m (λ a. Wp (f a) Q E) E w
      → Wp (m >>= f) Q E w
  unfolding ◌>>=◌
  Wp-bind m f Q E w h = continue-Post f Q E (m w).0 (m w).1 h

module _ {A : Type 0} where
  Post-mono :
      (Q Q' : A → World → Type 0) (E E' : World → Type 0) (r : Result A) (w : World)
      → ((a : A) (w' : World) → Q a w' → Q' a w')
      → ((w' : World) → E w' → E' w')
      → Post Q E (r, w)
      → Post Q' E' (r, w)
  Post-mono Q Q' E E' (ok a) w q e h = q a w h
  Post-mono Q Q' E E' (err x) w q e h = e w h

  pub Wp-mono :
      (m : Exec A) (Q Q' : A → World → Type 0) (E E' : World → Type 0) (w : World)
      → ((a : A) (w' : World) → Q a w' → Q' a w')
      → ((w' : World) → E w' → E' w')
      → Wp m Q E w
      → Wp m Q' E' w
  Wp-mono m Q Q' E E' w q e h = Post-mono Q Q' E E' (m w).0 (m w).1 q e h

  restore-Post :
      (Q : A → World → Type 0) (E : World → Type 0) (db : Db) (r : Result A) (w : World)
      → Post Q (λ w'. E (record w' { db = db })) (r, w)
      → Post Q E (restore db (r, w))
  restore-Post Q E db (ok a) w h = h
  restore-Post Q E db (err e) w h = h

  pub Wp-session :
      (body : Exec A) (Q : A → World → Type 0) (E : World → Type 0) (w : World)
      → Wp body Q (λ w'. E (record w' { db = w.db })) w
      → Wp (session body) Q E w
  unfolding session
  Wp-session body Q E w h = restore-Post Q E w.db (body w).0 (body w).1 h

  pub Wp-lift :
      (r : Result A) (Q : A → World → Type 0) (E : World → Type 0) (w : World)
      → ((a : A) → r ≡ ok a → Q a w)
      → E w
      → Wp (lift r) Q E w
  unfolding lift
  Wp-lift (ok a) Q E w q e = q a refl
  Wp-lift (err x) Q E w q e = e

  handle-Post :
      (handler : Error → Exec A) (Q : A → World → Type 0) (E : World → Type 0) (r : Result A)
      (w : World)
      → Post Q (λ w'. (e : Error) → Wp (handler e) Q E w') (r, w)
      → Post Q E (handle (r, w) handler)
  handle-Post handler Q E (ok a) w h = h
  handle-Post handler Q E (err e) w h = h e

  pub Wp-try_catch :
      (body : Exec A) (handler : Error → Exec A) (Q : A → World → Type 0) (E : World → Type 0)
      (w : World)
      → Wp body Q (λ w'. (e : Error) → Wp (handler e) Q E w') w
      → Wp (try_catch body handler) Q E w
  unfolding try_catch
  Wp-try_catch body handler Q E w h = handle-Post handler Q E (body w).0 (body w).1 h
