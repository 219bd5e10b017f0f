-- ===== src/Replacement/Sound/Actions.antt =====
-- The actions of the stages keep every job sound.
use mathlib.Core.Path.{subst}
use aso_node_recovery.Replacement.Checkpoints
use aso_node_recovery.Prelude.{
  Bool-cases, Option, Option-cases, String, eqb, eqb_iff, get, inl, inr, none, put, refl, some,
  true, ℕ, ◌+◌, ◌∙◌, ◌≡◌,
}
use aso_node_recovery.Errors.{Error}
use aso_node_recovery.Models.EventEnums.{EventSeverity, EventType}
use aso_node_recovery.Models.JobEnums.{ReplacementCheckpoint}
use aso_node_recovery.Models.NodeEnums.{NodeState}
use aso_node_recovery.Models.Rows.{Deployment, Node, NodeCredential, ReplacementJob, VpsInstance}
use aso_node_recovery.Outside.{Outside}
use aso_node_recovery.Replacement.Access.{
  acquire_lease, add_event, advance, assert_not_paused, move_node, or_raise, renew_lease,
  require_credential, require_deployment, require_job, require_new_vps, require_node,
  require_provider, utc_now,
}
use aso_node_recovery.Replacement.Leases.{
  holds_token, may_acquire, release_workflow_lease, try_acquire_workflow_lease, with_lease,
}
use aso_node_recovery.Replacement.Sound.{AllSound, IsSound}
use aso_node_recovery.Replacement.Sound.Moves.{
  is_marked, lease-IsSound, sound_rules, transition-IsSound,
}
use aso_node_recovery.Runtime.{
  Db, Exec, gets, save_credential, save_deployment, save_job, save_node, save_vps, ◌>>=◌,
}
use aso_node_recovery.Runtime.Preserves.{
  Preserves, Preserves-bind, Preserves-bind_lift, Preserves-modify, Preserves-pure, Preserves-raise,
  preserves_rules,
}
use aso_node_recovery.Settings.{Settings}

-- A stage may rely on the job that it reads.
pub Preserves-require_job :
    {B : Type 0} (id : ℕ) (f : ReplacementJob → Exec B)
    → ((job : ReplacementJob) → IsSound job → Preserves AllSound (f job))
    → Preserves AllSound (require_job id >>= f)
unfolding require_job ◌>>=◌
Preserves-require_job id f keeps = record {
  leads = λ w i. elim (Option-cases (get w.db.jobs id)) [
    | inl e ↦ rw e i
    | inr (job, e) ↦ rw e ((keeps job (i.row id job e).1).leads w i)
  ];
}

pub Preserves-found_job :
    {B : Type 0} (id : ℕ) (f : Option ReplacementJob → Exec B)
    → Preserves AllSound (f none)
    → ((job : ReplacementJob) → IsSound job → Preserves AllSound (f (some job)))
    → Preserves AllSound (gets (λ db. get db.jobs id) >>= f)
unfolding ◌>>=◌
Preserves-found_job id f keeps_none keeps = record {
  leads = λ w i. elim (Option-cases (get w.db.jobs id)) [
    | inl e ↦ rw e (keeps_none.leads w i)
    | inr (job, e) ↦ rw e ((keeps job (i.row id job e).1).leads w i)
  ];
}

module _ (db : Db) (id : ℕ) (job : ReplacementJob) (at_key : job.id ≡ id) (v : IsSound job)
    (i : AllSound db) where
  -- A sound job may be written at its own key.
  pub put_at : AllSound (record db { jobs = put db.jobs id job })
  put_at = record {
    row = λ k found e. elim (Bool-cases (eqb id k)) [
      | inl same ↦
          let e' : some job ≡ some found = rw same at e in
          let same_row : job ≡ found = cc e' in
          subst (λ j. (j.id ≡ k) × IsSound j) same_row (at_key ∙ (eqb_iff id k).0 same, v)
      | inr other ↦ i.row k found (rw other at e)
    ];
  }

pub Preserves-save_job : (job : ReplacementJob) → IsSound job → Preserves AllSound (save_job job)
unfolding save_job
Preserves-save_job job v = record { leads = λ w i. put_at w.db job.id job refl v i }

-- A change of the database that leaves the jobs alone.
pub AllSound-jobs : (db db' : Db) → db'.jobs ≡ db.jobs → AllSound db → AllSound db'
AllSound-jobs db db' e i = record { row = λ id job h. i.row id job (rw e at h) }

pub Preserves-save_node : (node : Node) → Preserves AllSound (save_node node)
unfolding save_node
Preserves-save_node node = record { leads = λ w i. record { row = i.row } }

pub Preserves-save_vps : (vps : VpsInstance) → Preserves AllSound (save_vps vps)
unfolding save_vps
Preserves-save_vps vps = record { leads = λ w i. record { row = i.row } }

pub Preserves-save_deployment : (d : Deployment) → Preserves AllSound (save_deployment d)
unfolding save_deployment
Preserves-save_deployment d = record { leads = λ w i. record { row = i.row } }

pub Preserves-save_credential : (c : NodeCredential) → Preserves AllSound (save_credential c)
unfolding save_credential
Preserves-save_credential c = record { leads = λ w i. record { row = i.row } }

module _ {A : Type 0} {J : Db → Type 0} where
  pub Preserves-or_raise : (e : Error) (o : Option A) → Preserves J (or_raise e o)
  Preserves-or_raise e none = Preserves-raise e
  Preserves-or_raise e (some a) = Preserves-pure a

pub ruleset reads = (preserves_rules, Preserves-or_raise)

pub Preserves-require_node : (id : ℕ) → Preserves AllSound (require_node id)
unfolding require_node
Preserves-require_node id = search reads

pub Preserves-require_provider : (id : ℕ) → Preserves AllSound (require_provider id)
unfolding require_provider
Preserves-require_provider id = search reads

pub Preserves-require_credential : (id : ℕ) → Preserves AllSound (require_credential id)
unfolding require_credential
Preserves-require_credential id = search reads

pub Preserves-require_new_vps : (job : ReplacementJob) → Preserves AllSound (require_new_vps job)
unfolding require_new_vps
Preserves-require_new_vps job = search reads

pub Preserves-require_deployment :
    (job : ReplacementJob) → Preserves AllSound (require_deployment job)
unfolding require_deployment
Preserves-require_deployment job = search reads

-- A lease is taken or given back on sound jobs.
pub leased :
    (db : Db) (id : ℕ) (token : String) (now until : ℕ)
    → AllSound db
    → AllSound (record db { jobs = (try_acquire_workflow_lease db.jobs id token now until).0 })
unfolding try_acquire_workflow_lease
leased db id token now until i = elim (Option-cases (get db.jobs id)) [
  | inl e ↦ rw e (record { row = i.row })
  | inr (job, e) ↦ elim (Bool-cases (may_acquire job token now)) [
    | inl may ↦
        rw (e, may)
          (put_at db id (with_lease job (some token) (some until)) (i.row id job e).0
            (lease-IsSound job (i.row id job e).1 (some token) (some until)) i)
    | inr not_may ↦ rw (e, not_may) (record { row = i.row })
  ]
]

pub unleased :
    (db : Db) (id : ℕ) (token : String)
    → AllSound db
    → AllSound (record db { jobs = release_workflow_lease db.jobs id token })
unfolding release_workflow_lease
unleased db id token i = elim (Option-cases (get db.jobs id)) [
  | inl e ↦ rw e (record { row = i.row })
  | inr (job, e) ↦ elim (Bool-cases (holds_token job.workflow_lease_token token)) [
    | inl held ↦
        rw (e, held)
          (put_at db id (with_lease job none none) (i.row id job e).0
            (lease-IsSound job (i.row id job e).1 none none) i)
    | inr other ↦ rw (e, other) (record { row = i.row })
  ]
]

module _ (out : Outside) where
  pub Preserves-utc_now : Preserves AllSound (utc_now out)
  unfolding utc_now
  Preserves-utc_now = search reads

  -- A job with the marker that the target asks for may be moved.
  pub Preserves-advance :
      (job : ReplacementJob) (target : ReplacementCheckpoint)
      → IsSound job
      → is_marked job target ≡ true
      → Preserves AllSound (advance out job target)
  unfolding advance
  Preserves-advance job target v marked = Preserves-bind (utc_now out) _ Preserves-utc_now λ now.
      Preserves-bind_lift (Checkpoints.transition now job target none) _ λ step e.
        Preserves-save_job step.0 (transition-IsSound now job target step.0 step.1 e v marked)

  pub Preserves-move_node :
      (node : Node) (target : NodeState) → Preserves AllSound (move_node out node target)
  unfolding move_node
  Preserves-move_node node target = search (reads, Preserves-utc_now, Preserves-save_node)

  pub Preserves-add_event :
      (job : ReplacementJob) (event_type : EventType) (severity : EventSeverity) (message : String)
      → Preserves AllSound (add_event out job event_type severity message)
  unfolding add_event
  Preserves-add_event job event_type severity message =
      Preserves-bind (utc_now out) _ Preserves-utc_now
        λ now. Preserves-modify _ (λ db i. record { row = i.row })

  pub Preserves-assert_not_paused : Preserves AllSound (assert_not_paused out)
  unfolding assert_not_paused
  Preserves-assert_not_paused = search reads

  module _ (settings : Settings) where
    pub Preserves-acquire_lease :
        (id : ℕ) (token : String) → Preserves AllSound (acquire_lease out settings id token)
    unfolding acquire_lease utc_now ◌>>=◌
    Preserves-acquire_lease id token = record {
      leads = λ w i.
          leased w.db id token (out.now w.calls)
            (out.now w.calls + settings.replacement_job_lease_seconds) i;
    }

    pub Preserves-renew_lease :
        (id : ℕ) (token : String) → Preserves AllSound (renew_lease out settings id token)
    unfolding renew_lease
    Preserves-renew_lease id token = search (reads, Preserves-acquire_lease)

-- The rules for the bodies of the stages.
pub ruleset stage_rules = (
  Preserves-require_job, Preserves-advance, sound_rules, reads, Preserves-save_job,
  Preserves-save_node, Preserves-save_vps, Preserves-save_deployment, Preserves-save_credential,
  Preserves-require_node, Preserves-require_provider, Preserves-require_credential,
  Preserves-require_new_vps, Preserves-require_deployment, Preserves-utc_now, Preserves-move_node,
  Preserves-add_event, Preserves-assert_not_paused, Preserves-renew_lease,
)
