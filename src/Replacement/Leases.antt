-- ===== src/Replacement/Leases.antt =====
-- The lease of a job: `try_acquire_workflow_lease` and `release_workflow_lease` of
-- app/database/repositories/registry.py. A conditional UPDATE changes the row or nothing.
pub mod Exclusion
use aso_node_recovery.Prelude.{
  Bool, Option, String, Table, false, get, if◌then◌else◌, leb, none, put, some, str_eq, true, ℕ,
  ◌&&◌, ◌||◌,
}
use aso_node_recovery.Models.Rows.{ReplacementJob}

-- `lease_until IS NULL OR lease_until <= now`
abbrev pub lease_expired : Option ℕ → ℕ → Bool
lease_expired none now = true
lease_expired (some until) now = leb until now

abbrev pub holds_token : Option String → String → Bool
holds_token none token = false
holds_token (some held) token = str_eq held token

-- The WHERE clause of `try_acquire_workflow_lease`.
abbrev pub may_acquire : ReplacementJob → String → ℕ → Bool
may_acquire job token now =
    job.active_slot
    && (lease_expired job.workflow_lease_until now || holds_token job.workflow_lease_token token)

abbrev pub with_lease : ReplacementJob → Option String → Option ℕ → ReplacementJob
with_lease job token until = record job {
  workflow_lease_token = token;
  workflow_lease_until = until;
}

unfoldable pub acquire_row :
    Table ReplacementJob → ℕ → Option ReplacementJob → String → ℕ → ℕ → Table ReplacementJob × Bool
acquire_row jobs job_id none token now until = (jobs, false)
acquire_row jobs job_id (some job) token now until =
    if may_acquire job token now
    then (put jobs job_id (with_lease job (some token) (some until)), true)
    else (jobs, false)

unfoldable pub try_acquire_workflow_lease :
    Table ReplacementJob → ℕ → String → ℕ → ℕ → Table ReplacementJob × Bool
unfolding acquire_row
try_acquire_workflow_lease jobs job_id token now until =
    acquire_row jobs job_id (get jobs job_id) token now until

unfoldable pub release_row :
    Table ReplacementJob → ℕ → Option ReplacementJob → String → Table ReplacementJob
release_row jobs job_id none token = jobs
release_row jobs job_id (some job) token =
    if holds_token job.workflow_lease_token token
    then put jobs job_id (with_lease job none none)
    else jobs

unfoldable pub release_workflow_lease : Table ReplacementJob → ℕ → String → Table ReplacementJob
unfolding release_row
release_workflow_lease jobs job_id token = release_row jobs job_id (get jobs job_id) token
