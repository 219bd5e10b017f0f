-- ===== src/Workers/MonitoringCycle/Care.antt =====
-- Methods that harm no node, unless they check one: one rule for each way to build a method.
use aso_node_recovery.Prelude.{Bool, false, if◌then◌else◌, true, ◌≢◌}
use aso_node_recovery.Errors.{Error, Result, err, ok}
use aso_node_recovery.Runtime.{Db, Exec, World, handle, session, try_catch, ◌>>=◌}
use aso_node_recovery.Runtime.Preserves.{Preserves}
use aso_node_recovery.Runtime.Wp.{Post, Wp, Wp-bind, Wp-session}
use aso_node_recovery.Workers.MonitoringCycle.Check.{CheckStatus}
use aso_node_recovery.Workers.MonitoringCycle.Unharmed.{Unharmed}

module _ (before : Db) where
  -- A method that fails goes back to unharmed nodes.
  abbrev pub Recovers : {A : Type 0} → Exec A → Type 0
  Recovers m =
      (w : World) → Unharmed before w.db → Wp m (λ _ _. Unit {0}) (λ w'. Unharmed before w'.db) w

  restored :
      {A : Type 0} (r : Result A) (w w' : World)
      → Unharmed before w.db
      → Post (λ _ _. Unit {0}) (λ w''. Unharmed before w.db) (r, w')
  restored (ok a) w w' u = tt
  restored (err e) w w' u = u

  pub Recovers-session : {A : Type 0} (m : Exec A) → Recovers (session m)
  Recovers-session m w u = Wp-session m _ _ w (restored (m w).0 w (m w).1 u)

  module _ {A B : Type 0} where
    goes_on :
        (f : A → Exec B) (r : Result A) (w : World)
        → Unharmed before w.db
        → ((a : A) → Recovers (f a))
        → Post
            (λ a. Wp (f a) (λ _ _. Unit {0}) (λ w'. Unharmed before w'.db))
            (λ w'. Unharmed before w'.db)
            (r, w)
    goes_on f (ok a) w u recovers = recovers a w u
    goes_on f (err e) w u recovers = u

    pub Recovers-bind :
        (m : Exec A) (f : A → Exec B)
        → Preserves (Unharmed before) m
        → ((a : A) → Recovers (f a))
        → Recovers (m >>= f)
    Recovers-bind m f keeps recovers w u =
        Wp-bind m f _ _ w (goes_on f (m w).0 (m w).1 (keeps.leads w u) recovers)

  -- `checked`, or no harm done.
  abbrev pub Checked : CheckStatus → World → Type 0
  Checked status w = status ≢ CheckStatus.checked → Unharmed before w.db

  abbrev pub Careful : Exec CheckStatus → Type 0
  Careful m = (w : World) → Unharmed before w.db → Wp m Checked (λ w'. Unharmed before w'.db) w

  kept :
      (r : Result CheckStatus) (w : World)
      → Unharmed before w.db
      → Post Checked (λ w'. Unharmed before w'.db) (r, w)
  kept (ok status) w u = λ _. u
  kept (err e) w u = u

  pub Careful-Preserves : (m : Exec CheckStatus) → Preserves (Unharmed before) m → Careful m
  Careful-Preserves m keeps w u = kept (m w).0 (m w).1 (keeps.leads w u)

  pub Careful-if :
      (b : Bool) (m n : Exec CheckStatus) → Careful m → Careful n → Careful (if b then m else n)
  Careful-if true m n careful_m careful_n = careful_m
  Careful-if false m n careful_m careful_n = careful_n

  module _ {A : Type 0} where
    carries_on :
        (f : A → Exec CheckStatus) (r : Result A) (w : World)
        → Unharmed before w.db
        → ((a : A) → Careful (f a))
        → Post
            (λ a. Wp (f a) Checked (λ w'. Unharmed before w'.db))
            (λ w'. Unharmed before w'.db)
            (r, w)
    carries_on f (ok a) w u careful = careful a w u
    carries_on f (err e) w u careful = u

    pub Careful-bind :
        (m : Exec A) (f : A → Exec CheckStatus)
        → Preserves (Unharmed before) m
        → ((a : A) → Careful (f a))
        → Careful (m >>= f)
    Careful-bind m f keeps careful w u =
        Wp-bind m f _ _ w (carries_on f (m w).0 (m w).1 (keeps.leads w u) careful)

  caught :
      (handler : Error → Exec CheckStatus) (r : Result CheckStatus) (w : World)
      → Post Checked (λ w'. Unharmed before w'.db) (r, w)
      → ((e : Error) → Preserves (Unharmed before) (handler e))
      → Post Checked (λ w'. Unharmed before w'.db) (handle (r, w) handler)
  caught handler (ok status) w h keeps = h
  caught handler (err e) w u keeps = Careful-Preserves (handler e) (keeps e) w u

  pub Careful-try_catch :
      (m : Exec CheckStatus) (handler : Error → Exec CheckStatus)
      → Careful m
      → ((e : Error) → Preserves (Unharmed before) (handler e))
      → Careful (try_catch m handler)
  unfolding try_catch
  Careful-try_catch m handler careful keeps w u = caught handler (m w).0 (m w).1 (careful w u) keeps
