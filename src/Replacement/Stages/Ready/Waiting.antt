-- ===== src/Replacement/Stages/Ready/Waiting.antt =====
-- The wait with a lease runs to its end.
use aso_node_recovery.Prelude.{
  String, arith, max, min, nat_eq, refl, string_eq, suc, true, zero, ℕ, ◌+◌, ◌-◌, ◌==◌, ◌≡◌, ◌≤◌,
}
use aso_node_recovery.Models.EventEnums.{
  event_severity_eq, node_check_outcome_eq, replacement_trigger_mode_eq,
  secret_reference_backend_eq,
}
use aso_node_recovery.Models.JobEnums.{replacement_checkpoint_eq, replacement_job_state_eq}
use aso_node_recovery.Models.NodeEnums.{
  deployment_state_eq, node_operation_mode_eq, node_state_eq, provider_type_eq, ssh_auth_method_eq,
  vps_instance_role_eq, vps_instance_state_eq,
}
use aso_node_recovery.Outside.{Outside}
use aso_node_recovery.Replacement.Stages.Ready.{sleep_pieces}
use aso_node_recovery.Settings.{Settings}

pieces_shrink :
    (remaining lease fuel : ℕ)
    → remaining ≤ fuel + 1
    → remaining - min remaining (max 3 (min 90 lease)) ≤ fuel
pieces_shrink remaining lease fuel enough = omega arith

module _ (out : Outside) (settings : Settings) (id : ℕ) (token : String) where
  -- The wait is over before its fuel is: with at least as much fuel as thirds of a second to wait,
  -- the amount of fuel makes no difference.
  pub sleep_pieces-enough :
      (fuel other remaining : ℕ)
      → remaining ≤ fuel
      → remaining ≤ other
      → sleep_pieces out settings fuel id token remaining
        ≡ sleep_pieces out settings other id token remaining
  unfolding sleep_pieces
  sleep_pieces-enough zero zero remaining enough enough' = refl
  sleep_pieces-enough zero (suc other) remaining enough enough' =
      let over : (remaining == 0) ≡ true = ground arith in rw over refl
  sleep_pieces-enough (suc fuel) zero remaining enough enough' =
      let over : (remaining == 0) ≡ true = ground arith in rw over refl
  sleep_pieces-enough (suc fuel) (suc other) remaining enough enough' =
      let piece = min remaining (max 3 (min 90 settings.replacement_job_lease_seconds)) in
      let lease = settings.replacement_job_lease_seconds in
      let rest =
        sleep_pieces-enough fuel other (remaining - piece)
          (pieces_shrink remaining lease fuel (omega arith))
          (pieces_shrink remaining lease other (omega arith)) in
      rw rest refl
