-- ===== src/Moments.antt =====
-- The `occurred_at` argument of the state machines: a datetime may lack its time zone.
use aso_node_recovery.Prelude.{ℕ, Option, none, some}
use aso_node_recovery.Errors.{Error, Result, ok, err}

pub data Datetime : Type 0 where
  aware naive : ℕ → Datetime

-- `occurred_at or datetime.now(UTC)`, refused where it has no time zone; `now` is the clock.
abbrev pub moment : ℕ → Option Datetime → Result ℕ
moment now none = ok now
moment now (some (Datetime.aware t)) = ok t
moment now (some (Datetime.naive t)) = err Error.value_error
