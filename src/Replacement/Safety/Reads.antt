-- ===== src/Replacement/Safety/Reads.antt =====
-- The actions of the stages call nothing outside, and what is known of a row that was read.
use aso_node_recovery.Prelude.{
  Bool, Option, Option-cases, String, false, get, if◌then◌else◌, inl, inr, none, refl, some, true,
  ℕ, ◌+◌, ◌≡◌, ◌≤◌,
}
use aso_node_recovery.Errors.{Error, Result, Result-cases, err, ok}
use aso_node_recovery.Models.EventEnums.{EventSeverity, EventType}
use aso_node_recovery.Models.JobEnums.{ReplacementCheckpoint}
use aso_node_recovery.Models.NodeEnums.{NodeState}
use aso_node_recovery.Models.Rows.{Deployment, Node, NodeCredential, ReplacementJob, VpsInstance}
use aso_node_recovery.Outside.{Outside}
use aso_node_recovery.Replacement.Access.{
  acquire_lease, add_event, advance, get_for_attempt, move_node, or_raise, renew_lease,
  require_credential, require_deployment, require_job, require_new_vps, require_node,
  require_provider, utc_now,
}
use aso_node_recovery.Replacement.Checkpoints.{forward}
use aso_node_recovery.Replacement.Queries.{opt_row}
use aso_node_recovery.Runtime.{
  Db, Exec, World, ask, gets, lift, pure, raise, save_credential, save_job, save_node, save_vps,
  when, ◌>>=◌,
}
use aso_node_recovery.Runtime.Forward.{Forward}
use aso_node_recovery.Runtime.Quiet.{
  Quiet, Quiet-ask, Quiet-modify, Quiet-pure, Quiet-raise, quiet_rules,
}
use aso_node_recovery.Runtime.Reading.{Reading}
use aso_node_recovery.Runtime.Wp.{Wp, Wp-bind, Wp-mono}
use aso_node_recovery.Settings.{Settings}

module _ {A : Type 0} where
  pub Quiet-or_raise : (e : Error) (o : Option A) → Quiet (or_raise e o)
  Quiet-or_raise e none = Quiet-raise e
  Quiet-or_raise e (some a) = Quiet-pure a

pub ruleset quiet_reads = (quiet_rules, Quiet-or_raise)

pub Quiet-require_job : (id : ℕ) → Quiet (require_job id)
unfolding require_job
Quiet-require_job id = search quiet_reads

pub Quiet-require_node : (id : ℕ) → Quiet (require_node id)
unfolding require_node
Quiet-require_node id = search quiet_reads

pub Quiet-require_provider : (id : ℕ) → Quiet (require_provider id)
unfolding require_provider
Quiet-require_provider id = search quiet_reads

pub Quiet-require_credential : (id : ℕ) → Quiet (require_credential id)
unfolding require_credential
Quiet-require_credential id = search quiet_reads

pub Quiet-require_new_vps : (job : ReplacementJob) → Quiet (require_new_vps job)
unfolding require_new_vps
Quiet-require_new_vps job = search quiet_reads

pub Quiet-require_deployment : (job : ReplacementJob) → Quiet (require_deployment job)
unfolding require_deployment
Quiet-require_deployment job = search quiet_reads

pub Quiet-save_job : (job : ReplacementJob) → Quiet (save_job job)
unfolding save_job
Quiet-save_job job = Quiet-modify _

pub Quiet-save_node : (node : Node) → Quiet (save_node node)
unfolding save_node
Quiet-save_node node = Quiet-modify _

pub Quiet-save_vps : (vps : VpsInstance) → Quiet (save_vps vps)
unfolding save_vps
Quiet-save_vps vps = Quiet-modify _

pub Quiet-save_credential : (c : NodeCredential) → Quiet (save_credential c)
unfolding save_credential
Quiet-save_credential c = Quiet-modify _

module _ (out : Outside) where
  pub Quiet-utc_now : Quiet (utc_now out)
  unfolding utc_now
  Quiet-utc_now = Quiet-ask _

  pub Quiet-advance :
      (job : ReplacementJob) (target : ReplacementCheckpoint) → Quiet (advance out job target)
  unfolding advance
  Quiet-advance job target = search (quiet_reads, Quiet-utc_now, Quiet-save_job)

  pub Quiet-move_node : (node : Node) (target : NodeState) → Quiet (move_node out node target)
  unfolding move_node
  Quiet-move_node node target = search (quiet_reads, Quiet-utc_now, Quiet-save_node)

  pub Quiet-add_event :
      (job : ReplacementJob) (event_type : EventType) (severity : EventSeverity) (message : String)
      → Quiet (add_event out job event_type severity message)
  unfolding add_event
  Quiet-add_event job event_type severity message = search (quiet_reads, Quiet-utc_now)

  module _ (settings : Settings) where
    pub Quiet-acquire_lease :
        (id : ℕ) (token : String) → Quiet (acquire_lease out settings id token)
    unfolding acquire_lease utc_now ◌>>=◌
    Quiet-acquire_lease id token = record { stays = λ w. refl }

    pub Quiet-renew_lease : (id : ℕ) (token : String) → Quiet (renew_lease out settings id token)
    unfolding renew_lease
    Quiet-renew_lease id token = search (quiet_reads, Quiet-acquire_lease)

pub ruleset quiet_stage = (
  quiet_reads, Quiet-require_job, Quiet-require_node, Quiet-require_provider,
  Quiet-require_credential, Quiet-require_new_vps, Quiet-require_deployment, Quiet-save_job,
  Quiet-save_node, Quiet-save_vps, Quiet-save_credential, Quiet-utc_now, Quiet-advance,
  Quiet-move_node, Quiet-add_event, Quiet-renew_lease,
)

-- `Q` of the value that `m` returns, in the state that it leaves; nothing where it raises.
abbrev pub Returns : {A : Type 0} → Exec A → (A → World → Type 0) → World → Type 0
Returns m Q w = Wp m Q (λ _. Unit {0}) w

module _ {A B : Type 0} where
  pub Returns-bind :
      (m : Exec A) (f : A → Exec B) (Q : B → World → Type 0) (w : World)
      → Returns m (λ a. Returns (f a) Q) w
      → Returns (m >>= f) Q w
  Returns-bind m f Q w h = Wp-bind m f Q (λ _. Unit {0}) w h

  -- What is known of the value that `m` returns may be used by the rest.
  pub Returns-then :
      (m : Exec A) (f : A → Exec B) (P : A → World → Type 0) (Q : B → World → Type 0) (w : World)
      → Returns m P w
      → ((a : A) (w' : World) → P a w' → Returns (f a) Q w')
      → Returns (m >>= f) Q w
  Returns-then m f P Q w known rest =
      Returns-bind m f Q w
        (Wp-mono m P (λ a. Returns (f a) Q) (λ _. Unit {0}) (λ _. Unit {0}) w rest (λ _ t. t) known)

  pub Returns-or_raise :
      (e : Error) (o : Option A) (f : A → Exec B) (Q : B → World → Type 0) (w : World)
      → ((a : A) → o ≡ some a → Returns (f a) Q w)
      → Returns (or_raise e o >>= f) Q w
  unfolding ◌>>=◌
  Returns-or_raise e none f Q w h = tt
  Returns-or_raise e (some a) f Q w h = h a refl

  pub Returns-lift :
      (r : Result A) (f : A → Exec B) (Q : B → World → Type 0) (w : World)
      → ((a : A) → r ≡ ok a → Returns (f a) Q w)
      → Returns (lift r >>= f) Q w
  unfolding ◌>>=◌
  Returns-lift (ok a) f Q w h = h a refl
  Returns-lift (err e) f Q w h = tt

  pub Returns-gets :
      (g : Db → A) (f : A → Exec B) (Q : B → World → Type 0) (w : World)
      → Returns (f (g w.db)) Q w
      → Returns (gets g >>= f) Q w
  unfolding ◌>>=◌
  Returns-gets g f Q w h = h

  -- Of an action of which nothing is known but that it may return.
  pub Returns-any :
      (m : Exec A) (f : A → Exec B) (Q : B → World → Type 0) (w : World)
      → ((a : A) (w' : World) → Returns (f a) Q w')
      → Returns (m >>= f) Q w
  unfolding ◌>>=◌
  Returns-any m f Q w h = elim (Result-cases (m w).0) [
    | inl (a, e) ↦ rw e (h a (m w).1)
    | inr (e, raised) ↦ rw raised tt
  ]

  -- Of an action that asks its questions in order.
  pub Returns-Forward :
      (m : Exec A) (f : A → Exec B) (Q : B → World → Type 0) (w : World)
      → Forward m
      → ((a : A) (w' : World) → w.calls ≤ w'.calls → Returns (f a) Q w')
      → Returns (m >>= f) Q w
  unfolding ◌>>=◌
  Returns-Forward m f Q w forward h = elim (Result-cases (m w).0) [
    | inl (a, e) ↦ rw e (h a (m w).1 (forward.grows w))
    | inr (e, raised) ↦ rw raised tt
  ]

  -- Of an action that only reads the tables.
  pub Returns-Reading :
      (m : Exec A) (f : A → Exec B) (Q : B → World → Type 0) (w : World)
      → Reading m
      → ((a : A) (w' : World) → w'.db ≡ w.db → Returns (f a) Q w')
      → Returns (m >>= f) Q w
  unfolding ◌>>=◌
  Returns-Reading m f Q w reading h = elim (Result-cases (m w).0) [
    | inl (a, e) ↦ rw e (h a (m w).1 (reading.stays w))
    | inr (e, raised) ↦ rw raised tt
  ]

  pub Returns-ask :
      (question : ℕ → Result A) (f : A → Exec B) (Q : B → World → Type 0) (w : World)
      → ((a : A) → question w.calls ≡ ok a → Returns (f a) Q (record w { calls = w.calls + 1 }))
      → Returns (ask question >>= f) Q w
  unfolding ◌>>=◌ ask
  Returns-ask question f Q w h = elim (Result-cases (question w.calls)) [
    | inl (a, e) ↦ rw e (h a e)
    | inr (e, raised) ↦ rw raised tt
  ]

module _ {B : Type 0} (id : ℕ) where
  pub Returns-require_job :
      (f : ReplacementJob → Exec B) (Q : B → World → Type 0) (w : World)
      → ((job : ReplacementJob) → get w.db.jobs id ≡ some job → Returns (f job) Q w)
      → Returns (require_job id >>= f) Q w
  unfolding require_job ◌>>=◌
  Returns-require_job f Q w h = elim (Option-cases (get w.db.jobs id)) [
    | inl e ↦ rw e tt
    | inr (job, e) ↦ rw e (h job e)
  ]

module _ {B : Type 0} (id : ℕ) where
  pub Returns-require_node :
      (f : Node → Exec B) (Q : B → World → Type 0) (w : World)
      → ((node : Node) → get w.db.nodes id ≡ some node → Returns (f node) Q w)
      → Returns (require_node id >>= f) Q w
  unfolding require_node ◌>>=◌
  Returns-require_node f Q w h = elim (Option-cases (get w.db.nodes id)) [
    | inl e ↦ rw e tt
    | inr (node, e) ↦ rw e (h node e)
  ]

module _ {B : Type 0} where
  pub Returns-require_new_vps :
      (job : ReplacementJob) (f : VpsInstance → Exec B) (Q : B → World → Type 0) (w : World)
      → ((vps : VpsInstance)
          → opt_row w.db.vps job.new_vps_instance_id ≡ some vps
          → Returns (f vps) Q w)
      → Returns (require_new_vps job >>= f) Q w
  unfolding require_new_vps ◌>>=◌
  Returns-require_new_vps job f Q w h = elim (Option-cases job.new_vps_instance_id) [
    | inl e ↦ rw e tt
    | inr (k, e) ↦ elim (Option-cases (get w.db.vps k)) [
      | inl gone ↦ simp (e, gone) tt
      | inr (vps, found) ↦ simp (e, found) (h vps (simp (e, found) refl))
    ]
  ]

  pub Returns-require_deployment :
      (job : ReplacementJob) (f : Deployment → Exec B) (Q : B → World → Type 0) (w : World)
      → ((d : Deployment) → get_for_attempt job w.db ≡ some d → Returns (f d) Q w)
      → Returns (require_deployment job >>= f) Q w
  unfolding require_deployment ◌>>=◌
  Returns-require_deployment job f Q w h = elim (Option-cases (get_for_attempt job w.db)) [
    | inl e ↦ rw e tt
    | inr (d, e) ↦ rw e (h d e)
  ]

  -- A refusal: the rest runs where the test is false.
  pub Returns-unless :
      (test : Bool) (e : Error) (f : Unit {0} → Exec B) (Q : B → World → Type 0) (w : World)
      → (test ≡ false → Returns (f tt) Q w)
      → Returns ((if test then raise e else pure tt) >>= f) Q w
  unfolding ◌>>=◌
  Returns-unless true e f Q w h = tt
  Returns-unless false e f Q w h = h refl

  pub Returns-when-raise :
      (test : Bool) (e : Error) (f : Unit {0} → Exec B) (Q : B → World → Type 0) (w : World)
      → (test ≡ false → Returns (f tt) Q w)
      → Returns (when test (raise e) >>= f) Q w
  unfolding ◌>>=◌
  Returns-when-raise true e f Q w h = tt
  Returns-when-raise false e f Q w h = h refl

  pub Returns-if :
      (test : Bool) (m n : Exec B) (Q : B → World → Type 0) (w : World)
      → (test ≡ true → Returns m Q w)
      → (test ≡ false → Returns n Q w)
      → Returns (if test then m else n) Q w
  Returns-if true m n Q w h k = h refl
  Returns-if false m n Q w h k = k refl

  pub Returns-pure : (b : B) (Q : B → World → Type 0) (w : World) → Q b w → Returns (pure b) Q w
  unfolding pure
  Returns-pure b Q w h = h
