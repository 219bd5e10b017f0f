-- ===== src/Models/EventEnums.antt =====
-- app/models/enums.py: the enumerations of triggers, secrets, checks and events.
use aso_node_recovery.Prelude.{ℕ, ◌≡◌, refl, Comparable, eqb, eq_by_code, if◌then◌else◌}

-- `ReplacementTriggerMode`
pub data ReplacementTriggerMode : Type 0 where
  standard force : ReplacementTriggerMode

abbrev pub replacement_trigger_mode_code : ReplacementTriggerMode → ℕ
replacement_trigger_mode_code ReplacementTriggerMode.standard = 0
replacement_trigger_mode_code ReplacementTriggerMode.force = 1

abbrev pub replacement_trigger_mode_of : ℕ → ReplacementTriggerMode
replacement_trigger_mode_of n =
    if eqb n 0 then ReplacementTriggerMode.standard else ReplacementTriggerMode.force

pub replacement_trigger_mode_of_code :
    (a : ReplacementTriggerMode) → replacement_trigger_mode_of (replacement_trigger_mode_code a) ≡ a
replacement_trigger_mode_of_code ReplacementTriggerMode.standard = refl
replacement_trigger_mode_of_code ReplacementTriggerMode.force = refl

instance abbrev pub replacement_trigger_mode_eq : Comparable ReplacementTriggerMode
replacement_trigger_mode_eq =
    eq_by_code replacement_trigger_mode_code replacement_trigger_mode_of
      replacement_trigger_mode_of_code

-- `SecretReferenceBackend`
pub data SecretReferenceBackend : Type 0 where
  environment file external database_encrypted : SecretReferenceBackend

abbrev pub secret_reference_backend_code : SecretReferenceBackend → ℕ
secret_reference_backend_code SecretReferenceBackend.environment = 0
secret_reference_backend_code SecretReferenceBackend.file = 1
secret_reference_backend_code SecretReferenceBackend.external = 2
secret_reference_backend_code SecretReferenceBackend.database_encrypted = 3

abbrev pub secret_reference_backend_of : ℕ → SecretReferenceBackend
secret_reference_backend_of n =
    if eqb n 0
    then SecretReferenceBackend.environment
    else if eqb n 1
    then SecretReferenceBackend.file
    else if eqb n 2
    then SecretReferenceBackend.external
    else SecretReferenceBackend.database_encrypted

pub secret_reference_backend_of_code :
    (a : SecretReferenceBackend) → secret_reference_backend_of (secret_reference_backend_code a) ≡ a
secret_reference_backend_of_code SecretReferenceBackend.environment = refl
secret_reference_backend_of_code SecretReferenceBackend.file = refl
secret_reference_backend_of_code SecretReferenceBackend.external = refl
secret_reference_backend_of_code SecretReferenceBackend.database_encrypted = refl

instance abbrev pub secret_reference_backend_eq : Comparable SecretReferenceBackend
secret_reference_backend_eq =
    eq_by_code secret_reference_backend_code secret_reference_backend_of
      secret_reference_backend_of_code

-- `NodeCheckOutcome`
pub data NodeCheckOutcome : Type 0 where
  reachable unreachable indeterminate error : NodeCheckOutcome

abbrev pub node_check_outcome_code : NodeCheckOutcome → ℕ
node_check_outcome_code NodeCheckOutcome.reachable = 0
node_check_outcome_code NodeCheckOutcome.unreachable = 1
node_check_outcome_code NodeCheckOutcome.indeterminate = 2
node_check_outcome_code NodeCheckOutcome.error = 3

abbrev pub node_check_outcome_of : ℕ → NodeCheckOutcome
node_check_outcome_of n =
    if eqb n 0
    then NodeCheckOutcome.reachable
    else if eqb n 1
    then NodeCheckOutcome.unreachable
    else if eqb n 2
    then NodeCheckOutcome.indeterminate
    else NodeCheckOutcome.error

pub node_check_outcome_of_code :
    (a : NodeCheckOutcome) → node_check_outcome_of (node_check_outcome_code a) ≡ a
node_check_outcome_of_code NodeCheckOutcome.reachable = refl
node_check_outcome_of_code NodeCheckOutcome.unreachable = refl
node_check_outcome_of_code NodeCheckOutcome.indeterminate = refl
node_check_outcome_of_code NodeCheckOutcome.error = refl

instance abbrev pub node_check_outcome_eq : Comparable NodeCheckOutcome
node_check_outcome_eq =
    eq_by_code node_check_outcome_code node_check_outcome_of node_check_outcome_of_code

-- `EventSeverity`
pub data EventSeverity : Type 0 where
  info warning error critical : EventSeverity

abbrev pub event_severity_code : EventSeverity → ℕ
event_severity_code EventSeverity.info = 0
event_severity_code EventSeverity.warning = 1
event_severity_code EventSeverity.error = 2
event_severity_code EventSeverity.critical = 3

abbrev pub event_severity_of : ℕ → EventSeverity
event_severity_of n =
    if eqb n 0
    then EventSeverity.info
    else if eqb n 1
    then EventSeverity.warning
    else if eqb n 2
    then EventSeverity.error
    else EventSeverity.critical

pub event_severity_of_code : (a : EventSeverity) → event_severity_of (event_severity_code a) ≡ a
event_severity_of_code EventSeverity.info = refl
event_severity_of_code EventSeverity.warning = refl
event_severity_of_code EventSeverity.error = refl
event_severity_of_code EventSeverity.critical = refl

instance abbrev pub event_severity_eq : Comparable EventSeverity
event_severity_eq = eq_by_code event_severity_code event_severity_of event_severity_of_code

-- `EventType`, the members that the modelled code writes.
pub data EventType : Type 0 where
  node_failed node_recovered node_degraded monitoring_check_error replacement_started vps_created
        ip_check_started ip_check_failed ip_check_passed deployment_started deployment_failed
        master_updated master_verified old_vps_deleted replacement_completed replacement_failed
        control_action setting_changed system_paused system_resumed provider_updated :
      EventType
