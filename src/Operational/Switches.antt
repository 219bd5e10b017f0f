-- ===== src/Operational/Switches.antt =====
-- The switches read back what was written, and the host's settings bound the live mode.
use aso_node_recovery.Prelude.{
  Bool, Bool-cases, List, Option, String, [], ap, arith, eq_iff, false, inl, inr, length,
  length-append, none, refl, some, str_eq, true, ℕ, ◌+◌, ◌↔◌, ◌∙◌, ◌∷◌, ◌≡◌,
}
use aso_node_recovery.Errors.{ok}
use aso_node_recovery.Operational.{
  RuntimeExecutionMode, RuntimeValue, SettingValue, Store, SystemSetting, effective_dry_run,
  execution_mode, find_value, get_bool, get_by_key, holds_value, is_paused, live_capability,
  mode_of, mode_text, monitoring_enabled, number_of, replace_value, replacement_enabled, runs_dry,
  runtime_execution_mode_key, runtime_monitoring_enabled_key, runtime_replacement_enabled_key,
  same_flag, set_execution_mode, set_paused, set_runtime_value, system_paused_key, truth_or,
}
use aso_node_recovery.Settings.{Settings}

pub str_eq_refl : (s : String) → str_eq s s ≡ true
str_eq_refl s = (eq_iff s s).1 refl

pub find-replace :
    (settings : List SystemSetting) (key : String) (value : SettingValue)
    → find_value (replace_value settings key value) key ≡ some value
unfolding find_value replace_value
find-replace [] key value = rw (str_eq_refl key)
find-replace (setting ∷ rest) key value = elim (Bool-cases (str_eq setting.key key)) [
  | inl same ↦ rw (same, same)
  | inr other ↦ rw (other, other) (find-replace rest key value)
]

-- Setting one key leaves every other as it is.
pub find-replace_other :
    (settings : List SystemSetting) (key other : String) (value : SettingValue)
    → str_eq key other ≡ false
    → find_value (replace_value settings key value) other ≡ find_value settings other
unfolding find_value replace_value
find-replace_other [] key other value h = rw h
find-replace_other (setting ∷ rest) key other value h = elim (Bool-cases (str_eq setting.key key)) [
  | inl same ↦
      let differs : str_eq setting.key other ≡ false =
        ap (λ k. str_eq k other) ((eq_iff setting.key key).0 same) ∙ h in
      rw (same, differs)
  | inr different ↦ elim (Bool-cases (str_eq setting.key other)) [
    | inl here ↦ rw (different, here)
    | inr there ↦ rw (different, there) (find-replace_other rest key other value h)
  ]
]

abbrev stored_text : Option SettingValue → String
stored_text (some (SettingValue.written (RuntimeValue.text s))) = s
stored_text _ = ""

reads_live :
    (found : Option SettingValue)
    → (runs_dry (mode_of found) ≡ false)
      ↔ (found ≡ some (SettingValue.written (RuntimeValue.text "live")))
reads_live none = grind arith
reads_live (some SettingValue.null) = grind arith
reads_live (some (SettingValue.written (RuntimeValue.flag b))) = grind arith
reads_live (some (SettingValue.written (RuntimeValue.text s))) =
    elim (Bool-cases (str_eq s "live")) [
      | inl same ↦
          let is_live : s ≡ "live" = (eq_iff s "live").0 same in
          (λ _. ap (λ t. some (SettingValue.written (RuntimeValue.text t))) is_live, λ _. rw (same))
      | inr other ↦ (
        λ h. absurd (grind arith),
        λ e.
            let same : str_eq s "live" ≡ true = (eq_iff s "live").1 (ap stored_text e) in
            absurd (grind arith),
      )
    ]
reads_live (some (SettingValue.number n)) = grind arith
reads_live (some (SettingValue.document b)) = grind arith

holds_text :
    (found : Option SettingValue) (s : String)
    → holds_value found (RuntimeValue.text s) ≡ true
    → found ≡ some (SettingValue.written (RuntimeValue.text s))
holds_text none s h = grind arith
holds_text (some SettingValue.null) s h = grind arith
holds_text (some (SettingValue.written (RuntimeValue.flag b))) s h = grind arith
holds_text (some (SettingValue.written (RuntimeValue.text t))) s h =
    ap (λ u. some (SettingValue.written (RuntimeValue.text u))) ((eq_iff t s).0 h)
holds_text (some (SettingValue.number n)) s h = grind arith
holds_text (some (SettingValue.document b)) s h = grind arith

mode_of_text :
    (mode : RuntimeExecutionMode)
    → mode_of (some (SettingValue.written (RuntimeValue.text (mode_text mode)))) ≡ mode
mode_of_text RuntimeExecutionMode.dry_run = refl
mode_of_text RuntimeExecutionMode.live = refl

-- What the operators set is what is read, whether the row is new, changed or as it was.
pub execution_mode-set :
    (now : ℕ) (store : Store) (mode : RuntimeExecutionMode) (actor : Option ℕ)
    → execution_mode
        (set_runtime_value now store runtime_execution_mode_key
          (RuntimeValue.text (mode_text mode))
          actor).1
      ≡ mode
unfolding execution_mode set_runtime_value
execution_mode-set now store mode actor =
    let value : RuntimeValue = RuntimeValue.text (mode_text mode) in
    elim (Bool-cases (holds_value (get_by_key store runtime_execution_mode_key) value)) [
      | inl held ↦ rw (held) (
          ap mode_of
            (holds_text (get_by_key store runtime_execution_mode_key) (mode_text mode) held)
          ∙ mode_of_text mode)
      | inr new ↦ rw (new) (
          ap mode_of
            (find-replace store.settings runtime_execution_mode_key (SettingValue.written value))
          ∙ mode_of_text mode)
    ]

-- Live execution needs four things at once: the host is not held in a dry run, it allows real
-- mutations, it has no emergency stop, and the operators have stored exactly the text of the live mode.
pub effective_dry_run_iff :
    (settings : Settings) (store : Store)
    → (effective_dry_run settings store ≡ false) ↔ (
        (settings.dry_run ≡ false)
        × (settings.allow_real_infrastructure_mutation ≡ true)
        × (settings.replacement_emergency_stop ≡ false)
        × (get_by_key store runtime_execution_mode_key
            ≡ some (SettingValue.written (RuntimeValue.text "live"))))
unfolding effective_dry_run execution_mode live_capability
effective_dry_run_iff settings store =
    let live = reads_live (get_by_key store runtime_execution_mode_key) in ground arith

-- A call that is accepted takes effect: the mode reads back, and the workers run dry exactly if the
-- operators chose the dry run. It is only assumed that the call did not raise.
pub set_execution_mode-effective :
    (now : ℕ) (store after : Store) (mode : RuntimeExecutionMode) (settings : Settings)
    (actor : Option ℕ) (changed : Bool)
    → set_execution_mode now store mode settings actor ≡ ok (changed, after)
    → (execution_mode after ≡ mode) × (effective_dry_run settings after ≡ runs_dry mode)
unfolding set_execution_mode effective_dry_run
set_execution_mode-effective now store after RuntimeExecutionMode.dry_run settings actor changed h =
    let set = execution_mode-set now store RuntimeExecutionMode.dry_run actor in grind arith
set_execution_mode-effective now store after RuntimeExecutionMode.live settings actor changed h =
    let set = execution_mode-set now store RuntimeExecutionMode.live actor in grind arith

pub flag-held :
    (found : Option SettingValue) (paused : Bool)
    → same_flag (truth_or found false) paused ≡ true
    → truth_or found false ≡ paused
flag-held found paused h = grind arith

-- Pausing does just that: the switch reads back; the mode, and the two other switches for whatever
-- default, are as they were; and an event is recorded exactly if something changed.
pub set_paused-only :
    (now : ℕ) (store : Store) (paused : Bool) (actor : Option ℕ) (default : Bool)
    → let after : Store = (set_paused now store paused actor).1 in
      (is_paused after ≡ paused)
      × (execution_mode after ≡ execution_mode store)
      × (monitoring_enabled after default ≡ monitoring_enabled store default)
      × (replacement_enabled after default ≡ replacement_enabled store default)
      × (length after.events
          ≡ length store.events + number_of (set_paused now store paused actor).0)
unfolding set_paused is_paused execution_mode monitoring_enabled replacement_enabled get_bool
set_paused-only now store paused actor default =
    elim (Bool-cases (same_flag (truth_or (get_by_key store system_paused_key) false) paused)) [
      | inl held ↦ rw (held) (
        flag-held (get_by_key store system_paused_key) paused held,
        refl,
        refl,
        refl,
        omega arith,
      )
      | inr new ↦
          let value : SettingValue = SettingValue.written (RuntimeValue.flag paused) in
          let other = find-replace_other store.settings system_paused_key in
          rw (new) (
            ap (λ v. truth_or v false) (find-replace store.settings system_paused_key value),
            ap mode_of (other runtime_execution_mode_key value refl),
            ap (λ v. truth_or v default) (other runtime_monitoring_enabled_key value refl),
            ap (λ v. truth_or v default) (other runtime_replacement_enabled_key value refl),
            length-append store.events _,
          )
    ]
