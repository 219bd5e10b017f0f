-- ===== src/Operational/Examples.antt =====
-- Operators that pause the system and choose the live mode.
use aso_node_recovery.Prelude.{
  Bool, List, Option, [], false, none, refl, some, true, ℕ, ◌↔◌, ◌∷◌, ◌≡◌,
}
use aso_node_recovery.Errors.{Error, err}
use aso_node_recovery.Operational.{
  RuntimeExecutionMode, RuntimeValue, SettingValue, Store, effective_dry_run, execution_mode,
  find_value, get_bool, get_by_key, is_paused, live_capability, replace_value, replacement_enabled,
  runtime_execution_mode_key, set_execution_mode, set_monitoring_enabled, set_paused,
  set_replacement_enabled, set_runtime_value,
}
use aso_node_recovery.Operational.Refinement.{
  Command, run_commands, run_commands-refines, set_switches, view,
}
use aso_node_recovery.Operational.Switches.{effective_dry_run_iff}
use aso_node_recovery.Settings.{Settings}

abbrev host : Bool → Settings
host stopped = record {
  dry_run = false;
  allow_real_infrastructure_mutation = true;
  allow_old_vps_deletion = true;
  replacement_emergency_stop = stopped;
  max_replacement_attempts = 3;
  max_temporary_servers = 1;
  max_concurrent_replacements = 1;
  failure_threshold = 3;
  recovery_threshold = 2;
  check_host_nodes = [];
  check_host_max_nodes = 5;
  check_host_min_success_nodes = 2;
  check_host_result_timeout_ms = 10000;
  check_host_poll_interval_ms = 1000;
  monitoring_lease_seconds = 45;
  replacement_worker_enabled = true;
  provider_reconcile_grace_seconds = 60;
  replacement_job_lease_seconds = 300;
  replacement_vps_boot_grace_thirds = 30;
  replacement_reachability_rounds = 3;
  replacement_reachability_required_consensus = 2;
  replacement_reachability_round_interval_thirds = 30;
}

abbrev fresh : Store
fresh = record { settings = []; events = [] }

abbrev going_live : Bool × Store
going_live =
    set_runtime_value 5 fresh runtime_execution_mode_key (RuntimeValue.text "live") (some 1)

effective_dry_run_iff_example : (effective_dry_run (host false) going_live.1 ≡ false) ↔ (
    ((host false).dry_run ≡ false)
    × ((host false).allow_real_infrastructure_mutation ≡ true)
    × ((host false).replacement_emergency_stop ≡ false)
    × (get_by_key going_live.1 runtime_execution_mode_key
        ≡ some (SettingValue.written (RuntimeValue.text "live"))))
effective_dry_run_iff_example = effective_dry_run_iff (host false) going_live.1

a_fresh_host_runs_dry : effective_dry_run (host false) fresh ≡ true
unfolding effective_dry_run live_capability execution_mode find_value
a_fresh_host_runs_dry = refl

a_stopped_host_refuses :
    set_execution_mode 5 fresh RuntimeExecutionMode.live (host true) none
    ≡ err Error.safety_violation_error
unfolding set_execution_mode live_capability
a_stopped_host_refuses = refl

a_second_pause_changes_nothing :
    set_paused 9 (set_paused 7 fresh true none).1 true (some 1)
    ≡ (false, (set_paused 7 fresh true none).1)
unfolding set_paused find_value replace_value
a_second_pause_changes_nothing = refl

-- The two other switches have a key of their own.
switched_off :
    replacement_enabled
      (set_monitoring_enabled 8 (set_replacement_enabled 7 fresh false none).1 true none).1
      true
    ≡ false
unfolding replacement_enabled set_monitoring_enabled set_replacement_enabled set_runtime_value
    get_bool find_value replace_value
switched_off = refl

abbrev some_commands : List (ℕ × Option ℕ × Command)
some_commands =
    (5, some 1, Command.choose RuntimeExecutionMode.live)
    ∷ (6, some 1, Command.pause true)
    ∷ (7, none, Command.monitor false)
    ∷ (8, some 2, Command.pause false)
    ∷ []

run_commands-refines_example :
    view (run_commands (host true) some_commands fresh)
    ≡ set_switches (host true) some_commands (view fresh)
run_commands-refines_example = run_commands-refines (host true) some_commands fresh

the_live_mode_was_refused : set_switches (host true) some_commands (view fresh) ≡ record {
  paused = false;
  monitoring = some false;
  replacement = none;
  mode = RuntimeExecutionMode.dry_run;
}
unfolding set_switches live_capability is_paused get_bool execution_mode find_value
the_live_mode_was_refused = refl
