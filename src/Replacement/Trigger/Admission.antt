-- ===== src/Replacement/Trigger/Admission.antt =====
-- A job that is admitted.
use aso_node_recovery.Prelude.{
  Bool, IsSelected, Listed, Option, Option-cases, String, ap, arith, eq_iff, eqb_iff, false, get,
  inl, inr, none, opt_text_eq, refl, select, select-IsSelected, some, sym, true, ℕ, ◌∙◌, ◌≡◌, ◌≤◌,
  ◌⊎◌,
}
use aso_node_recovery.Errors.{ok}
use aso_node_recovery.Models.Rows.{Node, ReplacementJob, VpsInstance}
use aso_node_recovery.Outside.{Outside}
use aso_node_recovery.Registry.Rows.{first-IsSelected, first-fails}
use aso_node_recovery.Replacement.Access.{require_node}
use aso_node_recovery.Replacement.Sound.{AllSound, IsSound}
use aso_node_recovery.Replacement.Sound.Actions.{Preserves-require_node, stage_rules}
use aso_node_recovery.Replacement.Sound.Finish.{Preserves-assert_not_emergency_stopped}
use aso_node_recovery.Replacement.Trigger.{
  add_job, admit, create_job, enter_workflow, get_active_for_node, get_by_request_key, has_key,
  is_active_for, new_job, or_existing, trigger,
}
use aso_node_recovery.Runtime.{Db, Exec, World, session, ◌>>=◌}
use aso_node_recovery.Runtime.Preserves.{
  Preserves, Preserves-bind, Preserves-gets, Preserves-pure, Preserves-session,
}
use aso_node_recovery.Settings.{Settings}
use aso_node_recovery.Workers.MonitoringCycle.Counts.{listed}

new_job-IsSound :
    (settings : Settings) (job_id : ℕ) (node : Node) (force : Bool) (request_key : Option String)
    (dry_run : Bool) (old_vps : VpsInstance)
    → 1 ≤ settings.max_replacement_attempts
    → IsSound (new_job settings job_id node force request_key dry_run old_vps)
new_job-IsSound settings job_id node force request_key dry_run old_vps attempts = ground arith

module _ (out : Outside) (settings : Settings)
    (attempts : 1 ≤ settings.max_replacement_attempts) where
  Preserves-enter_workflow :
      (force : Bool) (node : Node) → Preserves AllSound (enter_workflow out settings force node)
  Preserves-enter_workflow true node = search stage_rules
  Preserves-enter_workflow false node = search stage_rules

  Preserves-add_job :
      (node : Node) (force : Bool) (request_key : Option String) (dry_run : Bool)
      (old_vps : VpsInstance) (job_id : ℕ)
      → Preserves AllSound (add_job out settings node force request_key dry_run old_vps job_id)
  unfolding add_job
  Preserves-add_job node force request_key dry_run old_vps job_id =
      search (stage_rules, Preserves-enter_workflow, new_job-IsSound, attempts) depth 20

  Preserves-create_job :
      (node : Node) (force : Bool) (request_key : Option String) (dry_run : Bool)
      → Preserves AllSound (create_job out settings node force request_key dry_run)
  unfolding create_job
  Preserves-create_job node force request_key dry_run =
      search (stage_rules, Preserves-add_job) depth 20

  Preserves-or_existing :
      (job : Option ReplacementJob) (rest : Exec ℕ)
      → Preserves AllSound rest
      → Preserves AllSound (or_existing out settings job rest)
  Preserves-or_existing none rest keeps = keeps
  Preserves-or_existing (some job) rest keeps = Preserves-pure _

  Preserves-admit :
      (node_id : ℕ) (force : Bool) (request_key : Option String) (dry_run : Bool)
      → Preserves AllSound (admit out settings node_id force request_key dry_run)
  unfolding admit
  Preserves-admit node_id force request_key dry_run = Preserves-session _ (
      Preserves-bind _ _ (Preserves-gets _) λ replay. Preserves-or_existing replay _ (
        Preserves-bind _ _ (Preserves-require_node node_id) λ node.
          Preserves-bind _ _ (Preserves-gets _) λ active.
            Preserves-or_existing active _ (Preserves-create_job node force request_key dry_run)))

  pub Preserves-trigger :
      (node_id : ℕ) (force : Bool) (request_key : Option String)
      → Preserves AllSound (trigger out settings node_id force request_key)
  unfolding trigger
  Preserves-trigger node_id force request_key =
      search (stage_rules, Preserves-assert_not_emergency_stopped, Preserves-admit) depth 20

  -- `trigger` leaves every replacement job sound, the new one included, whether it returns or
  -- raises, if the jobs were sound before and the settings allow an attempt.
  pub trigger-AllSound :
      (node_id : ℕ) (force : Bool) (request_key : Option String) (w : World)
      → AllSound w.db
      → AllSound (trigger out settings node_id force request_key w).1.db
  trigger-AllSound node_id force request_key w i =
      (Preserves-trigger node_id force request_key).leads w i

-- The key of the request, if it has one, is the one of the job.
abbrev HasKey : Option String → ReplacementJob → Type 0
HasKey request_key job = (key : String) × (request_key ≡ some key) × (job.request_key ≡ some key)

abbrev IsActiveFor : ℕ → ReplacementJob → Type 0
IsActiveFor node_id job = (job.node_id ≡ node_id) × (job.active_slot ≡ true)

-- A stored job of which `P` holds.
abbrev pub Stored : (ReplacementJob → Type 0) → Db → Type 0
Stored P db = (k : ℕ) × (job : ReplacementJob) × (get db.jobs k ≡ some job) × P job

-- What a repeated request meets: a job with its key, or the active job of a node that exists.
abbrev pub IsRepeated : ℕ → Option String → Db → Type 0
IsRepeated node_id request_key db =
    Stored (HasKey request_key) db
    ⊎ (((node : Node) × (get db.nodes node_id ≡ some node)) × Stored (IsActiveFor node_id) db)

-- The job that answers it: one with the key, and only where there is none an active one of the node.
abbrev pub Answers : ℕ → Option String → Db → ReplacementJob → Type 0
Answers node_id request_key db job =
    HasKey request_key job ⊎ (¬ Stored (HasKey request_key) db × IsActiveFor node_id job)

key_passes :
    (key : String) (job : ReplacementJob) → job.request_key ≡ some key → has_key key job ≡ true
key_passes key job e = rw e ((eq_iff key key).1 refl)

key_of : (key : String) (o : Option String) → opt_text_eq o (some key) ≡ true → o ≡ some key
key_of key none h = absurd (cc h)
key_of key (some other) h = ap some ((eq_iff other key).0 h)

active_of :
    (node_id : ℕ) (job : ReplacementJob)
    → is_active_for node_id job ≡ true
    → IsActiveFor node_id job
active_of node_id job h = ground arith

passes_active :
    (node_id : ℕ) (job : ReplacementJob)
    → IsActiveFor node_id job
    → is_active_for node_id job ≡ true
passes_active node_id job (of_node, active) =
    rw ((eqb_iff job.node_id node_id).1 of_node, active) refl

replayed :
    (request_key : Option String) (db : Db) (job : ReplacementJob)
    → get_by_request_key request_key db ≡ some job
    → Stored (λ r. HasKey request_key r × (r ≡ job)) db
replayed none db job h = absurd (cc h)
replayed (some key) db job h =
    let (k, stands, passed) =
      first-IsSelected (IsSelected db.jobs.row _) _ job (select-IsSelected db.jobs (has_key key))
        h in
    (k, job, stands, ((key, refl, key_of key job.request_key passed), refl))

not_replayed :
    (request_key : Option String) (db : Db)
    → Listed db.jobs
    → get_by_request_key request_key db ≡ none
    → ¬ Stored (HasKey request_key) db
not_replayed none db listed h (k, job, stands, (key, sent, stored)) = absurd (cc sent)
not_replayed (some key') db listed h (k, job, stands, (key, sent, stored)) =
    let same : key' ≡ key = cc sent in
    cc (
      first-fails db.jobs (has_key key') k job listed h stands,
      key_passes key' job (stored ∙ ap some (sym same)),
    )

module _ (out : Outside) (settings : Settings) where
  -- What the admission does is known from the two searches.
  admit-replay :
      (node_id : ℕ) (force : Bool) (request_key : Option String) (dry_run : Bool)
      (job : ReplacementJob) (w : World)
      → get_by_request_key request_key w.db ≡ some job
      → admit out settings node_id force request_key dry_run w ≡ (ok job.id, w)
  unfolding admit session select ◌>>=◌
  admit-replay node_id force request_key dry_run job w replay = simp replay refl

  admit-active :
      (node_id : ℕ) (force : Bool) (request_key : Option String) (dry_run : Bool) (node : Node)
      (job : ReplacementJob) (w : World)
      → get_by_request_key request_key w.db ≡ none
      → get w.db.nodes node_id ≡ some node
      → get_active_for_node node_id w.db ≡ some job
      → admit out settings node_id force request_key dry_run w ≡ (ok job.id, w)
  unfolding admit session require_node select ◌>>=◌
  admit-active node_id force request_key dry_run node job w fresh found active =
      simp (fresh, found, active) refl

  -- A repeated request creates nothing: where a stored job has the key of the request, or the node
  -- exists and a stored job is active for it, the admission returns the id of such a job, of one
  -- with the key if there is one, and leaves the whole state as it was. It assumes that all the jobs
  -- of the table are listed.
  pub admit-existing :
      (node_id : ℕ) (force : Bool) (request_key : Option String) (dry_run : Bool) (w : World)
      → Listed w.db.jobs
      → IsRepeated node_id request_key w.db
      → Stored
          (λ job.
            Answers node_id request_key w.db job
            × (admit out settings node_id force request_key dry_run w ≡ (ok job.id, w)))
          w.db
  admit-existing node_id force request_key dry_run w listed repeated =
      elim (Option-cases (get_by_request_key request_key w.db)) [
        | inr (job, replay) ↦
            let (k, r, stands, (key, same)) = replayed request_key w.db job replay in
            (
              k,
              r,
              stands,
              (
                inl key,
                admit-replay node_id force request_key dry_run r w (replay ∙ ap some (sym same)),
              ),
            )
        | inl fresh ↦
            let none_stored = not_replayed request_key w.db listed fresh in
            elim repeated [
              | inl stored ↦ absurd (none_stored stored)
              | inr ((node, found), (k, r, stands, active)) ↦
                  elim (Option-cases (get_active_for_node node_id w.db)) [
                    | inl missing ↦ absurd (
                        cc (
                          first-fails w.db.jobs (is_active_for node_id) k r listed missing stands,
                          passes_active node_id r active,
                        ))
                    | inr (job, chosen) ↦
                        let (k', stands', passed) =
                          first-IsSelected (IsSelected w.db.jobs.row _) _ job
                            (select-IsSelected w.db.jobs (is_active_for node_id)) chosen in
                        (
                          k',
                          job,
                          stands',
                          (
                            inr (none_stored, active_of node_id job passed),
                            admit-active node_id force request_key dry_run node job w fresh found
                                chosen,
                          ),
                        )
                  ]
            ]
      ]
