-- ===== src/Replacement/Leases/Exclusion.antt =====
-- The lease of a job excludes the other workers while it lasts.
use aso_node_recovery.Prelude.{
  Bool-cases, Option, String, Table, ap, arith, eqb_iff, false, get, get-put, inl, inr, none, put,
  refl, some, str_eq, string_eq, sym, true, ℕ, ◌<◌, ◌∙◌, ◌≡◌,
}
use aso_node_recovery.Models.Rows.{ReplacementJob}
use aso_node_recovery.Replacement.Leases.{
  acquire_row, may_acquire, release_row, release_workflow_lease, try_acquire_workflow_lease,
  with_lease,
}

module _ (jobs : Table ReplacementJob) (id : ℕ) (mine theirs : String) (now until : ℕ) where
  active_if_may : (job : ReplacementJob) → may_acquire job mine now ≡ true → job.active_slot ≡ true
  active_if_may job may = ground arith

  -- What an accepted request leaves: the row with the token and the time, and no other change.
  granted :
      (later : Table ReplacementJob) (found : Option ReplacementJob)
      → acquire_row jobs id found mine now until ≡ (later, true)
      → (job : ReplacementJob) × (job.active_slot ≡ true)
        × (get later id ≡ some (with_lease job (some mine) (some until)))
  unfolding acquire_row
  granted later none h = absurd (ground arith)
  granted later (some job) h = elim (Bool-cases (may_acquire job mine now)) [
    | inl may ↦
        let h' : (put jobs id (with_lease job (some mine) (some until)), true) ≡ (later, true) =
          simp may at h in
        (
          job,
          active_if_may job may,
          ap (λ table. get table id) (sym (ap (λ answer. answer.0) h')) ∙ get-put jobs id _,
        )
    | inr not_may ↦ absurd (ground arith)
  ]

module _ (later : Table ReplacementJob) (id : ℕ) (mine theirs : String) (until t next : ℕ) where
  refused :
      (job : ReplacementJob)
      → str_eq mine theirs ≡ false
      → t < until
      → acquire_row later id (some (with_lease job (some mine) (some until))) theirs t next
        ≡ (later, false)
  unfolding acquire_row
  refused job other early = ground arith

  renewed :
      (job : ReplacementJob)
      → job.active_slot ≡ true
      → str_eq mine mine ≡ true
      → (acquire_row later id (some (with_lease job (some mine) (some until))) mine t next).1 ≡ true
  unfolding acquire_row
  renewed job active same = ground arith

-- While a granted lease lasts, no worker with another token gets the job, and nothing is changed by
-- its request; the worker that holds the lease can renew it.
pub acquire-exclusive :
    (jobs later : Table ReplacementJob) (id : ℕ) (mine theirs : String) (now until t next : ℕ)
    → try_acquire_workflow_lease jobs id mine now until ≡ (later, true)
    → str_eq mine theirs ≡ false
    → t < until
    → (try_acquire_workflow_lease later id theirs t next ≡ (later, false))
      × ((try_acquire_workflow_lease later id mine t next).1 ≡ true)
unfolding try_acquire_workflow_lease
acquire-exclusive jobs later id mine theirs now until t next h other early =
    let (job, active, stored) = granted jobs id mine theirs now until later (get jobs id) h in
    (
      rw stored (refused later id mine theirs until t next job other early),
      rw stored (
          renewed later id mine theirs until t next job active
            ((string_eq.agree_iff mine mine).1 refl)),
    )

released :
    (jobs : Table ReplacementJob) (id : ℕ) (job : ReplacementJob) (mine : String)
    → get jobs id ≡ some job
    → job.workflow_lease_token ≡ some mine
    → get (release_workflow_lease jobs id mine) id ≡ some (with_lease job none none)
unfolding release_workflow_lease release_row
released jobs id job mine stored held =
    let same = (string_eq.agree_iff mine mine).1 refl in
    simp (stored, held, same, (eqb_iff id id).1 refl) refl

free_again :
    (jobs : Table ReplacementJob) (id : ℕ) (theirs : String) (t next : ℕ) (job : ReplacementJob)
    → job.active_slot ≡ true
    → (acquire_row jobs id (some (with_lease job none none)) theirs t next).1 ≡ true
unfolding acquire_row
free_again jobs id theirs t next job active = ground arith

-- A released lease is free for every worker at once, and a worker that does not hold the lease
-- releases nothing.
pub release-acquire :
    (jobs : Table ReplacementJob) (id : ℕ) (job : ReplacementJob) (mine theirs : String)
    (t next : ℕ)
    → get jobs id ≡ some job
    → job.active_slot ≡ true
    → job.workflow_lease_token ≡ some mine
    → str_eq mine theirs ≡ false
    → ((try_acquire_workflow_lease (release_workflow_lease jobs id mine) id theirs t next).1 ≡ true)
      × (release_workflow_lease jobs id theirs ≡ jobs)
unfolding try_acquire_workflow_lease release_workflow_lease release_row
release-acquire jobs id job mine theirs t next stored active held other = (
  rw (released jobs id job mine stored held)
      (free_again (release_workflow_lease jobs id mine) id theirs t next job active),
  simp (stored, held, other) refl,
)
