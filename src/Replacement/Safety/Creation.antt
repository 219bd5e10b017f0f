-- ===== src/Replacement/Safety/Creation.antt =====
-- `create_temporary` of `_stage_provisioning`: what it creates, and for which attempt.
use mathlib.Core.Path.{subst}
use aso_node_recovery.Prelude.{
  Bool-cases, Option, String, [], arith, get, inl, inr, none, refl, some, true, ℕ, ◌++◌, ◌-◌, ◌∙◌,
  ◌∷◌, ◌≡◌, ◌⊎◌,
}
use aso_node_recovery.Errors.{Error, Result, Result-cases, err, is_ok, is_provider_transient, ok}
use aso_node_recovery.Models.Rows.{ReplacementJob, VpsInstance}
use aso_node_recovery.Outside.{Outside, ProviderServer}
use aso_node_recovery.Replacement.Access.{renew_lease, require_job, utc_now}
use aso_node_recovery.Replacement.Safety.Reads.{
  Returns, Returns-any, Returns-pure, Returns-require_job, quiet_stage,
}
use aso_node_recovery.Replacement.Stages.Provision.{
  Plan, create_temporary, defer_transient, record_instance, record_server, validate_capacity,
  within_grace,
}
use aso_node_recovery.Runtime.{
  Effect, Exec, World, ask, call, continue, lift, pure, save_job, session, try_catch, ◌>>=◌, ◌>>◌,
}
use aso_node_recovery.Runtime.Quiet.{Quiet, Quiet-if, Quiet-raise}
use aso_node_recovery.Runtime.Wp.{Post, Wp-session}
use aso_node_recovery.Settings.{Settings}

-- Nothing was called, or `e` once and `C` holds.
abbrev pub OnceIf : Effect → Type 0 → World → World → Type 0
OnceIf e C w w' = (w'.effects ≡ w.effects) ⊎ ((w'.effects ≡ w.effects ++ e ∷ []) × C)

module _ {A B : Type 0} (e : Effect) (C : Type 0) where
  pub OnceIf-then :
      (r : Result A) (f : A → Exec B) (w w1 : World)
      → OnceIf e C w w1
      → ((a : A) → Quiet (f a))
      → OnceIf e C w (continue r w1 f).1
  OnceIf-then (ok a) f w w1 made quiet = elim made [
    | inl none_made ↦ inl ((quiet a).stays w1 ∙ none_made)
    | inr (one_made, c) ↦ inr ((quiet a).stays w1 ∙ one_made, c)
  ]
  OnceIf-then (err x) f w w1 made quiet = made

pub OnceIf-after :
    (e : Effect) (C : Type 0) (w w1 w2 : World)
    → w1.effects ≡ w.effects
    → OnceIf e C w1 w2
    → OnceIf e C w w2
OnceIf-after e C w w1 w2 same made = elim made [
  | inl none_made ↦ inl (none_made ∙ same)
  | inr (one_made, c) ↦ inr (rw⁻¹ same one_made, c)
]

module _ (out : Outside) (settings : Settings) where
  abbrev pub creation : Plan out settings → Effect
  creation plan = Effect.create_server plan.adapter plan.request

  -- The capacity check passes for the attempt `k`.
  abbrev pub Passes : Plan out settings → ℕ → Type 0
  Passes plan k =
      is_ok (validate_capacity settings k plan.active_temporary (plan.active_jobs - 1)) ≡ true

  deferred_quiet :
      (e : Error) (w : World)
      → (defer_transient out settings {A = ProviderServer} e w).1.effects ≡ w.effects
  deferred_quiet e w =
      (Quiet-if (is_provider_transient e) _ _ (Quiet-raise _) (Quiet-raise _)).stays w

  create : Plan out settings → ℕ → Exec ProviderServer
  create plan k =
      try_catch
        (do
          lift (validate_capacity settings k plan.active_temporary (plan.active_jobs - 1))
          call (creation plan)
          ask λ n. out.create_server n plan.adapter plan.request)
        (defer_transient out settings)

  create-OnceIf :
      (plan : Plan out settings) (k : ℕ) (w : World)
      → OnceIf (creation plan) (Passes plan k) w (create plan k w).1
  unfolding create try_catch ◌>>=◌
  create-OnceIf plan k w =
      elim (Result-cases
        (validate_capacity settings k plan.active_temporary (plan.active_jobs - 1))) [
          | inl (t, passed) ↦
              elim (Result-cases (out.create_server w.calls plan.adapter plan.request)) [
                | inl (server, answered) ↦ simp (passed, answered) (inr (refl, refl))
                | inr (x, raised) ↦ simp (passed, raised) (inr (deferred_quiet x _, refl))
              ]
          | inr (x, refused) ↦ simp refused (inl (deferred_quiet x w))
        ]

  same_attempt : (a b : ReplacementJob) → a ≡ b → a.attempt_count ≡ b.attempt_count
  same_attempt a b e = rw e refl

  -- The session before the creation: the time of the request is stored.
  request : ℕ → String → Exec ℕ
  request id token = session (do
    job ← require_job id
    requested ← utc_now out
    save_job (record job { provisioning_requested_at = some requested })
    renew_lease out settings id token
    pure job.attempt_count)

  Quiet-request : (id : ℕ) (token : String) → Quiet (request id token)
  unfolding request
  Quiet-request id token = search quiet_stage depth 20

  Quiet-record_instance :
      (job : ReplacementJob) (plan : Plan out settings) (server : ProviderServer)
      (existing : Option VpsInstance)
      → Quiet (record_instance out settings job plan server existing)
  Quiet-record_instance job plan server none = search quiet_stage
  Quiet-record_instance job plan server (some existing) = search quiet_stage

  pub Quiet-record_server :
      (id : ℕ) (token : String) (plan : Plan out settings) (server : ProviderServer)
      → Quiet (record_server out settings id token plan server)
  unfolding record_server
  Quiet-record_server id token plan server = search (quiet_stage, Quiet-record_instance) depth 30

  module _ (id : ℕ) (token : String) (job : ReplacementJob) (plan : Plan out settings) where
    request_attempt :
        (w : World)
        → get w.db.jobs id ≡ some job
        → Returns (request id token) (λ k _. k ≡ job.attempt_count) w
    unfolding request
    request_attempt w found =
        let Q : ℕ → World → Type 0 = λ k _. k ≡ job.attempt_count in
        Wp-session _ Q (λ _. Unit {0}) w
          (Returns-require_job id _ Q w λ read e. Returns-any (utc_now out) _ Q w λ requested w1.
            Returns-any (save_job (record read { provisioning_requested_at = some requested })) _ Q
              w1
              λ _ w2.
                Returns-any (renew_lease out settings id token) _ Q w2
                  λ _ w3. Returns-pure read.attempt_count Q w3 (same_attempt (read) job (cc)))

    requested : (w : World) → Exec ProviderServer
    requested w = request id token >>= create plan

    known_attempt :
        (r : Result ℕ × World) (k : ℕ)
        → Post (λ n _. n ≡ job.attempt_count) (λ _. Unit {0}) r
        → r.0 ≡ ok k
        → k ≡ job.attempt_count
    known_attempt (ok n, w) k known e = cc
    known_attempt (err x, w) k known e = absurd (ground arith)

    pub create_temporary-OnceIf :
        (now : ℕ) (w : World)
        → get w.db.jobs id ≡ some job
        → OnceIf
            (creation plan)
            (Passes plan job.attempt_count)
            w
            (create_temporary out settings id token now plan w).1
    unfolding create_temporary request create ◌>>=◌
    create_temporary-OnceIf now w found =
        elim (Bool-cases (within_grace out settings plan.requested_at now)) [
          | inl early ↦ simp early (inl refl)
          | inr late ↦ elim (Result-cases (request id token w).0) [
            | inl (k, e) ↦
                let same = known_attempt (request id token w) k (request_attempt w found) e in
                let made = create-OnceIf plan k (request id token w).1 in
                simp (late, e)
                  (OnceIf-after _ _ w (request id token w).1
                    (create plan k (request id token w).1).1 ((Quiet-request id token).stays w)
                    (subst
                      (λ n.
                        OnceIf (creation plan) (Passes plan n) (request id token w).1
                          (create plan k (request id token w).1).1)
                      same made))
            | inr (x, raised) ↦ simp (late, raised) (inl ((Quiet-request id token).stays w))
          ]
        ]
