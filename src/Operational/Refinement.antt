-- ===== src/Operational/Refinement.antt =====
-- What the operators' commands promise: four switches, each of which a command sets by itself.
use aso_node_recovery.Prelude.{
  Bool, Bool-cases, List, Option, String, [], ap, arith, false, if◌then◌else◌, inl, inr, none, refl,
  some, str_eq, true, ℕ, ◌∙◌, ◌∷◌, ◌≡◌,
}
use aso_node_recovery.Errors.{Error, Result, err, ok}
use aso_node_recovery.Operational.{
  RuntimeExecutionMode, RuntimeValue, SettingValue, Store, execution_mode, get_bool, get_by_key,
  holds_value, is_paused, live_capability, mode_of, mode_text, runtime_execution_mode_key,
  runtime_monitoring_enabled_key, runtime_replacement_enabled_key, same_flag, set_execution_mode,
  set_monitoring_enabled, set_paused, set_replacement_enabled, set_runtime_value, system_paused_key,
  truth, truth_or,
}
use aso_node_recovery.Operational.Switches.{
  execution_mode-set, find-replace, find-replace_other, set_paused-only,
}
use aso_node_recovery.Settings.{Settings}

pub record Switches : Type 0 where
  pub paused : Bool
  pub monitoring : Option Bool
  pub replacement : Option Bool
  pub mode : RuntimeExecutionMode

pub data Command : Type 0 where
  pause monitor replace : Bool → Command
  choose : RuntimeExecutionMode → Command

-- The specification: only the live mode may be refused, by a host that is not capable of it.
abbrev pub set_switch : Settings → Switches → Command → Result Switches
set_switch settings s (Command.pause b) = ok (record s { paused = b })
set_switch settings s (Command.monitor b) = ok (record s { monitoring = some b })
set_switch settings s (Command.replace b) = ok (record s { replacement = some b })
set_switch settings s (Command.choose RuntimeExecutionMode.dry_run) =
    ok (record s { mode = RuntimeExecutionMode.dry_run })
set_switch settings s (Command.choose RuntimeExecutionMode.live) =
    if live_capability settings
    then ok (record s { mode = RuntimeExecutionMode.live })
    else err Error.safety_violation_error

-- The service's method for each command, at a time and for an operator.
abbrev pub run_command : ℕ → Option ℕ → Settings → Store → Command → Result (Bool × Store)
run_command now actor settings store (Command.pause b) = ok (set_paused now store b actor)
run_command now actor settings store (Command.monitor b) =
    ok (set_monitoring_enabled now store b actor)
run_command now actor settings store (Command.replace b) =
    ok (set_replacement_enabled now store b actor)
run_command now actor settings store (Command.choose mode) =
    set_execution_mode now store mode settings actor

abbrev truth_of : Option SettingValue → Option Bool
truth_of none = none
truth_of (some value) = some (truth value)

-- What a store says of the switches.
abbrev pub view : Store → Switches
view store = record {
  paused = is_paused store;
  monitoring = truth_of (get_by_key store runtime_monitoring_enabled_key);
  replacement = truth_of (get_by_key store runtime_replacement_enabled_key);
  mode = execution_mode store;
}

abbrev pub viewed : Result (Bool × Store) → Result Switches
viewed (ok (changed, store)) = ok (view store)
viewed (err e) = err e

switches-eq :
    {s t : Switches}
    → s.paused ≡ t.paused
    → s.monitoring ≡ t.monitoring
    → s.replacement ≡ t.replacement
    → s.mode ≡ t.mode
    → s ≡ t
switches-eq p m r x = λ i. record { paused = p i; monitoring = m i; replacement = r i; mode = x i }

holds_flag :
    (found : Option SettingValue) (b : Bool)
    → holds_value found (RuntimeValue.flag b) ≡ true
    → truth_of found ≡ some b
holds_flag none b h = grind arith
holds_flag (some SettingValue.null) b h = grind arith
holds_flag (some (SettingValue.written (RuntimeValue.flag a))) b h = grind arith
holds_flag (some (SettingValue.written (RuntimeValue.text t))) b h = grind arith
holds_flag (some (SettingValue.number n)) b h = grind arith
holds_flag (some (SettingValue.document a)) b h = grind arith

module _ (now : ℕ) (store : Store) (actor : Option ℕ) where
  set_runtime_value-other :
      (key other : String) (value : RuntimeValue)
      → str_eq key other ≡ false
      → get_by_key (set_runtime_value now store key value actor).1 other ≡ get_by_key store other
  unfolding set_runtime_value
  set_runtime_value-other key other value h =
      elim (Bool-cases (holds_value (get_by_key store key) value)) [
        | inl held ↦ rw held refl
        | inr new ↦
            rw new (find-replace_other store.settings key other (SettingValue.written value) h)
      ]

  set_runtime_value-flag :
      (key : String) (b : Bool)
      → truth_of (get_by_key (set_runtime_value now store key (RuntimeValue.flag b) actor).1 key)
        ≡ some b
  unfolding set_runtime_value
  set_runtime_value-flag key b =
      elim (Bool-cases (holds_value (get_by_key store key) (RuntimeValue.flag b))) [
        | inl held ↦ rw held (holds_flag (get_by_key store key) b held)
        | inr new ↦ rw new (
            ap truth_of
              (find-replace store.settings key (SettingValue.written (RuntimeValue.flag b))))
      ]

  set_paused-key :
      (b : Bool) (other : String)
      → str_eq system_paused_key other ≡ false
      → get_by_key (set_paused now store b actor).1 other ≡ get_by_key store other
  unfolding set_paused
  set_paused-key b other h =
      elim (Bool-cases (same_flag (truth_or (get_by_key store system_paused_key) false) b)) [
        | inl held ↦ rw held refl
        | inr new ↦ rw new (
            find-replace_other store.settings system_paused_key other
              (SettingValue.written (RuntimeValue.flag b)) h)
      ]

module _ (now : ℕ) (store : Store) (actor : Option ℕ) (settings : Settings) where
  view-set_runtime_value :
      (key : String) (value : RuntimeValue)
      → str_eq key system_paused_key ≡ false
      → (view (set_runtime_value now store key value actor).1).paused ≡ is_paused store
  unfolding is_paused get_bool
  view-set_runtime_value key value h =
      ap (λ v. truth_or v false) (set_runtime_value-other now store actor key _ value h)

  view-set_mode :
      (mode : RuntimeExecutionMode)
      → view
          (set_runtime_value now store runtime_execution_mode_key
            (RuntimeValue.text (mode_text mode))
            actor).1
        ≡ record (view store) { mode = mode }
  view-set_mode mode =
      let value : RuntimeValue = RuntimeValue.text (mode_text mode) in
      let other = set_runtime_value-other now store actor runtime_execution_mode_key in
      switches-eq (view-set_runtime_value runtime_execution_mode_key value refl)
        (ap truth_of (other runtime_monitoring_enabled_key value refl))
        (ap truth_of (other runtime_replacement_enabled_key value refl))
        (execution_mode-set now store mode actor)

  -- Every command of the operators implements its specification: it is refused exactly where the
  -- specification refuses it, and otherwise sets its own switch and no other.
  pub run_command-refines :
      (command : Command)
      → viewed (run_command now actor settings store command)
        ≡ set_switch settings (view store) command
  unfolding set_monitoring_enabled set_replacement_enabled set_execution_mode execution_mode
  run_command-refines (Command.pause b) =
      let key = set_paused-key now store actor b in
      let (paused, mode, _, _, _) = set_paused-only now store b actor false in
      ap ok (
        switches-eq paused (ap truth_of (key runtime_monitoring_enabled_key refl))
          (ap truth_of (key runtime_replacement_enabled_key refl)) mode)
  run_command-refines (Command.monitor b) =
      let other = set_runtime_value-other now store actor runtime_monitoring_enabled_key in
      ap ok (
        switches-eq (view-set_runtime_value runtime_monitoring_enabled_key _ refl)
          (set_runtime_value-flag now store actor runtime_monitoring_enabled_key b)
          (ap truth_of (other runtime_replacement_enabled_key (RuntimeValue.flag b) refl))
          (ap mode_of (other runtime_execution_mode_key (RuntimeValue.flag b) refl)))
  run_command-refines (Command.replace b) =
      let other = set_runtime_value-other now store actor runtime_replacement_enabled_key in
      ap ok (
        switches-eq (view-set_runtime_value runtime_replacement_enabled_key _ refl)
          (ap truth_of (other runtime_monitoring_enabled_key (RuntimeValue.flag b) refl))
          (set_runtime_value-flag now store actor runtime_replacement_enabled_key b)
          (ap mode_of (other runtime_execution_mode_key (RuntimeValue.flag b) refl)))
  run_command-refines (Command.choose RuntimeExecutionMode.dry_run) =
      ap ok (view-set_mode RuntimeExecutionMode.dry_run)
  run_command-refines (Command.choose RuntimeExecutionMode.live) =
      elim (Bool-cases (live_capability settings)) [
        | inl capable ↦ rw (capable) (ap ok (view-set_mode RuntimeExecutionMode.live))
        | inr incapable ↦ rw (incapable) refl
      ]

-- A refused command changes nothing.
abbrev pub after_command : Store → Result (Bool × Store) → Store
after_command store (ok (changed, later)) = later
after_command store (err e) = store

abbrev pub after_switch : Switches → Result Switches → Switches
after_switch s (ok t) = t
after_switch s (err e) = s

unfoldable pub run_commands : Settings → List (ℕ × Option ℕ × Command) → Store → Store
run_commands settings [] store = store
run_commands settings ((now, actor, command) ∷ commands) store =
    run_commands settings commands
      (after_command store (run_command now actor settings store command))

unfoldable pub set_switches : Settings → List (ℕ × Option ℕ × Command) → Switches → Switches
set_switches settings [] s = s
set_switches settings ((now, actor, command) ∷ commands) s =
    set_switches settings commands (after_switch s (set_switch settings s command))

view-after_command :
    (store : Store) (r : Result (Bool × Store))
    → view (after_command store r) ≡ after_switch (view store) (viewed r)
view-after_command store (ok (changed, later)) = refl
view-after_command store (err e) = refl

-- After any run of commands, at whatever times and by whichever operators, refused ones among them,
-- the store says of the switches what the specification says: each switch is as the last accepted
-- command of its kind set it, and as it was before where there is none.
pub run_commands-refines :
    (settings : Settings) (commands : List (ℕ × Option ℕ × Command)) (store : Store)
    → view (run_commands settings commands store) ≡ set_switches settings commands (view store)
unfolding run_commands set_switches
run_commands-refines settings [] store = refl
run_commands-refines settings ((now, actor, command) ∷ commands) store =
    run_commands-refines settings commands _
    ∙ ap (set_switches settings commands) (
        view-after_command store (run_command now actor settings store command)
        ∙ ap (after_switch (view store)) (run_command-refines now store actor settings command))
