-- ===== src/Replacement/Stages/Provision/Capacity.antt =====
-- When a new server may be created.
use aso_node_recovery.Prelude.{arith, true, ℕ, ◌<◌, ◌↔◌, ◌≡◌, ◌≤◌}
use aso_node_recovery.Errors.{is_ok}
use aso_node_recovery.Replacement.Stages.Provision.{validate_capacity}
use aso_node_recovery.Settings.{Settings}

-- The capacity check passes exactly while all three limits of the settings leave room: the number of the
-- attempt, the temporary servers, and the other active replacements.
pub validate_capacity_iff :
    (settings : Settings) (attempt temporary active : ℕ)
    → (is_ok (validate_capacity settings attempt temporary active) ≡ true) ↔ (
        (1 ≤ attempt)
        × (attempt ≤ settings.max_replacement_attempts)
        × (temporary < settings.max_temporary_servers)
        × (active < settings.max_concurrent_replacements))
unfolding validate_capacity
validate_capacity_iff settings attempt temporary active = ground arith
