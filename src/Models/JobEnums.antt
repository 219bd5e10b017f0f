-- ===== src/Models/JobEnums.antt =====
-- app/models/enums.py: the enumerations of replacement jobs.
use aso_node_recovery.Prelude.{ℕ, ◌≡◌, refl, Comparable, eqb, eq_by_code, if◌then◌else◌}

-- `ReplacementJobState`
pub data ReplacementJobState : Type 0 where
  pending provisioning checking_ip deploying updating_master verifying cleaning_up completed failed
        cancelled :
      ReplacementJobState

abbrev pub replacement_job_state_code : ReplacementJobState → ℕ
replacement_job_state_code ReplacementJobState.pending = 0
replacement_job_state_code ReplacementJobState.provisioning = 1
replacement_job_state_code ReplacementJobState.checking_ip = 2
replacement_job_state_code ReplacementJobState.deploying = 3
replacement_job_state_code ReplacementJobState.updating_master = 4
replacement_job_state_code ReplacementJobState.verifying = 5
replacement_job_state_code ReplacementJobState.cleaning_up = 6
replacement_job_state_code ReplacementJobState.completed = 7
replacement_job_state_code ReplacementJobState.failed = 8
replacement_job_state_code ReplacementJobState.cancelled = 9

abbrev pub replacement_job_state_of : ℕ → ReplacementJobState
replacement_job_state_of n =
    if eqb n 0
    then ReplacementJobState.pending
    else if eqb n 1
    then ReplacementJobState.provisioning
    else if eqb n 2
    then ReplacementJobState.checking_ip
    else if eqb n 3
    then ReplacementJobState.deploying
    else if eqb n 4
    then ReplacementJobState.updating_master
    else if eqb n 5
    then ReplacementJobState.verifying
    else if eqb n 6
    then ReplacementJobState.cleaning_up
    else if eqb n 7
    then ReplacementJobState.completed
    else if eqb n 8
    then ReplacementJobState.failed
    else ReplacementJobState.cancelled

pub replacement_job_state_of_code :
    (a : ReplacementJobState) → replacement_job_state_of (replacement_job_state_code a) ≡ a
replacement_job_state_of_code ReplacementJobState.pending = refl
replacement_job_state_of_code ReplacementJobState.provisioning = refl
replacement_job_state_of_code ReplacementJobState.checking_ip = refl
replacement_job_state_of_code ReplacementJobState.deploying = refl
replacement_job_state_of_code ReplacementJobState.updating_master = refl
replacement_job_state_of_code ReplacementJobState.verifying = refl
replacement_job_state_of_code ReplacementJobState.cleaning_up = refl
replacement_job_state_of_code ReplacementJobState.completed = refl
replacement_job_state_of_code ReplacementJobState.failed = refl
replacement_job_state_of_code ReplacementJobState.cancelled = refl

instance abbrev pub replacement_job_state_eq : Comparable ReplacementJobState
replacement_job_state_eq =
    eq_by_code replacement_job_state_code replacement_job_state_of replacement_job_state_of_code

-- `ReplacementCheckpoint`
pub data ReplacementCheckpoint : Type 0 where
  created provisioning provisioned checking_ip temp_cleanup ip_verified deploying node_verified
        master_updating master_updated master_verifying master_verified final_check final_verified
        old_vps_cleanup completed failed cancelled :
      ReplacementCheckpoint

abbrev pub replacement_checkpoint_code : ReplacementCheckpoint → ℕ
replacement_checkpoint_code ReplacementCheckpoint.created = 0
replacement_checkpoint_code ReplacementCheckpoint.provisioning = 1
replacement_checkpoint_code ReplacementCheckpoint.provisioned = 2
replacement_checkpoint_code ReplacementCheckpoint.checking_ip = 3
replacement_checkpoint_code ReplacementCheckpoint.temp_cleanup = 4
replacement_checkpoint_code ReplacementCheckpoint.ip_verified = 5
replacement_checkpoint_code ReplacementCheckpoint.deploying = 6
replacement_checkpoint_code ReplacementCheckpoint.node_verified = 7
replacement_checkpoint_code ReplacementCheckpoint.master_updating = 8
replacement_checkpoint_code ReplacementCheckpoint.master_updated = 9
replacement_checkpoint_code ReplacementCheckpoint.master_verifying = 10
replacement_checkpoint_code ReplacementCheckpoint.master_verified = 11
replacement_checkpoint_code ReplacementCheckpoint.final_check = 12
replacement_checkpoint_code ReplacementCheckpoint.final_verified = 13
replacement_checkpoint_code ReplacementCheckpoint.old_vps_cleanup = 14
replacement_checkpoint_code ReplacementCheckpoint.completed = 15
replacement_checkpoint_code ReplacementCheckpoint.failed = 16
replacement_checkpoint_code ReplacementCheckpoint.cancelled = 17

abbrev pub replacement_checkpoint_of : ℕ → ReplacementCheckpoint
replacement_checkpoint_of n =
    if eqb n 0
    then ReplacementCheckpoint.created
    else if eqb n 1
    then ReplacementCheckpoint.provisioning
    else if eqb n 2
    then ReplacementCheckpoint.provisioned
    else if eqb n 3
    then ReplacementCheckpoint.checking_ip
    else if eqb n 4
    then ReplacementCheckpoint.temp_cleanup
    else if eqb n 5
    then ReplacementCheckpoint.ip_verified
    else if eqb n 6
    then ReplacementCheckpoint.deploying
    else if eqb n 7
    then ReplacementCheckpoint.node_verified
    else if eqb n 8
    then ReplacementCheckpoint.master_updating
    else if eqb n 9
    then ReplacementCheckpoint.master_updated
    else if eqb n 10
    then ReplacementCheckpoint.master_verifying
    else if eqb n 11
    then ReplacementCheckpoint.master_verified
    else if eqb n 12
    then ReplacementCheckpoint.final_check
    else if eqb n 13
    then ReplacementCheckpoint.final_verified
    else if eqb n 14
    then ReplacementCheckpoint.old_vps_cleanup
    else if eqb n 15
    then ReplacementCheckpoint.completed
    else if eqb n 16
    then ReplacementCheckpoint.failed
    else ReplacementCheckpoint.cancelled

pub replacement_checkpoint_of_code :
    (a : ReplacementCheckpoint) → replacement_checkpoint_of (replacement_checkpoint_code a) ≡ a
replacement_checkpoint_of_code ReplacementCheckpoint.created = refl
replacement_checkpoint_of_code ReplacementCheckpoint.provisioning = refl
replacement_checkpoint_of_code ReplacementCheckpoint.provisioned = refl
replacement_checkpoint_of_code ReplacementCheckpoint.checking_ip = refl
replacement_checkpoint_of_code ReplacementCheckpoint.temp_cleanup = refl
replacement_checkpoint_of_code ReplacementCheckpoint.ip_verified = refl
replacement_checkpoint_of_code ReplacementCheckpoint.deploying = refl
replacement_checkpoint_of_code ReplacementCheckpoint.node_verified = refl
replacement_checkpoint_of_code ReplacementCheckpoint.master_updating = refl
replacement_checkpoint_of_code ReplacementCheckpoint.master_updated = refl
replacement_checkpoint_of_code ReplacementCheckpoint.master_verifying = refl
replacement_checkpoint_of_code ReplacementCheckpoint.master_verified = refl
replacement_checkpoint_of_code ReplacementCheckpoint.final_check = refl
replacement_checkpoint_of_code ReplacementCheckpoint.final_verified = refl
replacement_checkpoint_of_code ReplacementCheckpoint.old_vps_cleanup = refl
replacement_checkpoint_of_code ReplacementCheckpoint.completed = refl
replacement_checkpoint_of_code ReplacementCheckpoint.failed = refl
replacement_checkpoint_of_code ReplacementCheckpoint.cancelled = refl

instance abbrev pub replacement_checkpoint_eq : Comparable ReplacementCheckpoint
replacement_checkpoint_eq =
    eq_by_code replacement_checkpoint_code replacement_checkpoint_of replacement_checkpoint_of_code
