-- ===== src/Operational.antt =====
-- app/services/operational_settings.py: the switches that operators set at run time, over the
-- `settings` table (`SettingRepository` of app/database/repositories/registry.py).
-- The description of a setting and the texts of events are left out, and so is the event cursor.
pub mod Switches
pub mod Refinement
mod Examples
use aso_node_recovery.Prelude.{
  Bool, List, Option, String, [], eqb, false, if◌then◌else◌, none, not, some, str_eq, true, ℕ, ◌&&◌,
  ◌++◌, ◌∷◌, ◌||◌,
}
use aso_node_recovery.Errors.{Error, Result, err, ok}
use aso_node_recovery.Models.EventEnums.{EventSeverity, EventType}
use aso_node_recovery.Settings.{Settings}

-- `RuntimeExecutionMode`
pub data RuntimeExecutionMode : Type 0 where
  dry_run live : RuntimeExecutionMode

-- What the service writes: a switch or a text.
pub data RuntimeValue : Type 0 where
  flag : Bool → RuntimeValue
  text : String → RuntimeValue

-- What the JSON column may hold; of a list or an object only whether it is empty.
pub data SettingValue : Type 0 where
  null : SettingValue
  written : RuntimeValue → SettingValue
  number : ℕ → SettingValue
  document : Bool → SettingValue

pub record SystemSetting : Type 0 where
  pub key : String
  pub value : SettingValue

-- An event with its payload: the key of the setting that was changed, and the operator.
pub record AuditEvent : Type 0 where
  pub event_type : EventType
  pub severity : EventSeverity
  pub changed_key : Option String
  pub actor_user_id : Option ℕ
  pub created_at : ℕ

pub record Store : Type 0 where
  pub settings : List SystemSetting
  pub events : List AuditEvent

abbrev pub system_paused_key : String
system_paused_key = "system.paused"

abbrev pub runtime_monitoring_enabled_key : String
runtime_monitoring_enabled_key = "runtime.monitoring_enabled"

abbrev pub runtime_replacement_enabled_key : String
runtime_replacement_enabled_key = "runtime.replacement_enabled"

abbrev pub runtime_execution_mode_key : String
runtime_execution_mode_key = "runtime.execution_mode"

unfoldable pub find_value : List SystemSetting → String → Option SettingValue
find_value [] key = none
find_value (setting ∷ rest) key =
    if str_eq setting.key key then some setting.value else find_value rest key

unfoldable pub replace_value : List SystemSetting → String → SettingValue → List SystemSetting
replace_value [] key value = record { key = key; value = value } ∷ []
replace_value (setting ∷ rest) key value =
    if str_eq setting.key key
    then record { key = setting.key; value = value } ∷ rest
    else setting ∷ replace_value rest key value

abbrev pub get_by_key : Store → String → Option SettingValue
get_by_key store key = find_value store.settings key

abbrev pub set_value : Store → String → SettingValue → Store
set_value store key value = record store { settings = replace_value store.settings key value }

abbrev pub record_event : Store → AuditEvent → Store
record_event store event = record store { events = store.events ++ event ∷ [] }

-- `bool(value)`
abbrev pub truth : SettingValue → Bool
truth SettingValue.null = false
truth (SettingValue.written (RuntimeValue.flag b)) = b
truth (SettingValue.written (RuntimeValue.text s)) = not (str_eq s "")
truth (SettingValue.number n) = not (eqb n 0)
truth (SettingValue.document not_empty) = not_empty

abbrev pub number_of : Bool → ℕ
number_of b = if b then 1 else 0

abbrev pub same_flag : Bool → Bool → Bool
same_flag a b = if a then b else not b

-- `current.value == value`. A Python Boolean equals the number that it is.
abbrev pub same_value : SettingValue → RuntimeValue → Bool
same_value (SettingValue.written (RuntimeValue.flag a)) (RuntimeValue.flag b) = same_flag a b
same_value (SettingValue.written (RuntimeValue.text s)) (RuntimeValue.text t) = str_eq s t
same_value (SettingValue.number n) (RuntimeValue.flag b) = eqb n (number_of b)
same_value _ _ = false

abbrev pub truth_or : Option SettingValue → Bool → Bool
truth_or none default = default
truth_or (some value) default = truth value

-- `_get_bool`
unfoldable pub get_bool : Store → String → Bool → Bool
get_bool store key default = truth_or (get_by_key store key) default

unfoldable pub is_paused : Store → Bool
is_paused store = get_bool store system_paused_key false

unfoldable pub set_paused : ℕ → Store → Bool → Option ℕ → Bool × Store
set_paused now store paused actor_user_id =
    if same_flag (truth_or (get_by_key store system_paused_key) false) paused
    then (false, store)
    else (
      true,
      record_event
          (set_value store system_paused_key (SettingValue.written (RuntimeValue.flag paused)))
          (record {
            event_type = if paused then EventType.system_paused else EventType.system_resumed;
            severity = if paused then EventSeverity.warning else EventSeverity.info;
            changed_key = none;
            actor_user_id = actor_user_id;
            created_at = now;
          }),
    )

unfoldable pub monitoring_enabled : Store → Bool → Bool
monitoring_enabled store default = get_bool store runtime_monitoring_enabled_key default

unfoldable pub replacement_enabled : Store → Bool → Bool
replacement_enabled store default = get_bool store runtime_replacement_enabled_key default

-- `RuntimeExecutionMode(str(value))`, and DRY_RUN where that raises. Only a text reads as a mode.
abbrev pub mode_of : Option SettingValue → RuntimeExecutionMode
mode_of (some (SettingValue.written (RuntimeValue.text s))) =
    if str_eq s "live" then RuntimeExecutionMode.live else RuntimeExecutionMode.dry_run
mode_of _ = RuntimeExecutionMode.dry_run

unfoldable pub execution_mode : Store → RuntimeExecutionMode
execution_mode store = mode_of (get_by_key store runtime_execution_mode_key)

abbrev pub runs_dry : RuntimeExecutionMode → Bool
runs_dry RuntimeExecutionMode.dry_run = true
runs_dry RuntimeExecutionMode.live = false

abbrev pub mode_text : RuntimeExecutionMode → String
mode_text RuntimeExecutionMode.dry_run = "dry_run"
mode_text RuntimeExecutionMode.live = "live"

-- `live_capability`, without the text of the reason.
unfoldable pub live_capability : Settings → Bool
live_capability settings =
    if settings.dry_run
    then false
    else if not settings.allow_real_infrastructure_mutation
    then false
    else if settings.replacement_emergency_stop
    then false
    else true

unfoldable pub effective_dry_run : Settings → Store → Bool
effective_dry_run settings store =
    if not (live_capability settings) then true else runs_dry (execution_mode store)

abbrev pub holds_value : Option SettingValue → RuntimeValue → Bool
holds_value none value = false
holds_value (some current) value = same_value current value

-- `_set_runtime_value`
unfoldable pub set_runtime_value : ℕ → Store → String → RuntimeValue → Option ℕ → Bool × Store
set_runtime_value now store key value actor_user_id =
    if holds_value (get_by_key store key) value then (false, store) else (
      true,
      record_event (set_value store key (SettingValue.written value)) (record {
        event_type = EventType.setting_changed;
        severity = EventSeverity.warning;
        changed_key = some key;
        actor_user_id = actor_user_id;
        created_at = now;
      }),
    )

unfoldable pub set_monitoring_enabled : ℕ → Store → Bool → Option ℕ → Bool × Store
set_monitoring_enabled now store enabled actor_user_id =
    set_runtime_value now store runtime_monitoring_enabled_key (RuntimeValue.flag enabled)
      actor_user_id

unfoldable pub set_replacement_enabled : ℕ → Store → Bool → Option ℕ → Bool × Store
set_replacement_enabled now store enabled actor_user_id =
    set_runtime_value now store runtime_replacement_enabled_key (RuntimeValue.flag enabled)
      actor_user_id

unfoldable pub set_execution_mode :
    ℕ → Store → RuntimeExecutionMode → Settings → Option ℕ → Result (Bool × Store)
set_execution_mode now store mode settings actor_user_id =
    if not (runs_dry mode) && not (live_capability settings)
    then err Error.safety_violation_error
    else ok (
        set_runtime_value now store runtime_execution_mode_key (RuntimeValue.text (mode_text mode))
          actor_user_id)
