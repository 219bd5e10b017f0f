-- ===== src/Replacement/Stages/Ready/Forward.antt =====
-- The renewal of the lease and the wait of `_sleep_with_lease` ask their questions in order.
use aso_node_recovery.Prelude.{String, suc, zero, ℕ}
use aso_node_recovery.Outside.{Outside}
use aso_node_recovery.Replacement.Access.{acquire_lease, assert_not_paused, renew_lease, utc_now}
use aso_node_recovery.Replacement.Stages.Ready.{sleep_pieces, sleep_with_lease}
use aso_node_recovery.Runtime.Forward.{Forward, Forward-pure, forward_rules}
use aso_node_recovery.Settings.{Settings}

module _ (out : Outside) (settings : Settings) where
  pub Forward-assert_not_paused : Forward (assert_not_paused out)
  unfolding assert_not_paused
  Forward-assert_not_paused = search forward_rules

  Forward-utc_now : Forward (utc_now out)
  unfolding utc_now
  Forward-utc_now = search forward_rules

  Forward-acquire_lease : (id : ℕ) (token : String) → Forward (acquire_lease out settings id token)
  unfolding acquire_lease
  Forward-acquire_lease id token = search (forward_rules, Forward-utc_now)

  pub Forward-renew_lease : (id : ℕ) (token : String) → Forward (renew_lease out settings id token)
  unfolding renew_lease
  Forward-renew_lease id token = search (forward_rules, Forward-acquire_lease)

  Forward-sleep_pieces :
      (fuel id : ℕ) (token : String) (remaining : ℕ)
      → Forward (sleep_pieces out settings fuel id token remaining)
  unfolding sleep_pieces
  Forward-sleep_pieces zero id token remaining = Forward-pure tt
  Forward-sleep_pieces (suc fuel) id token remaining =
      let rest = Forward-sleep_pieces fuel id token in
      search (forward_rules, Forward-assert_not_paused, Forward-renew_lease, rest) depth 20

  pub Forward-sleep_with_lease :
      (id : ℕ) (token : String) (thirds : ℕ)
      → Forward (sleep_with_lease out settings id token thirds)
  unfolding sleep_with_lease
  Forward-sleep_with_lease id token thirds = Forward-sleep_pieces thirds id token thirds
