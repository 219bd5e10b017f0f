-- ===== src/Replacement/Safety/Temporary.antt =====
-- `_stage_temp_cleanup`: which server it deletes, and when.
use aso_node_recovery.Prelude.{
  Bool-cases, Option, String, [], if◌then◌else◌, inl, inr, none, refl, some, ℕ, ◌++◌, ◌+◌, ◌∙◌, ◌∷◌,
  ◌≡◌, ◌⊎◌,
}
use aso_node_recovery.Errors.{Error, Result, Result-cases, err, ok}
use aso_node_recovery.Outside.{Outside, ProviderServer}
use aso_node_recovery.Replacement.Safety.Identity.{identity_matches-IsConfirmed}
use aso_node_recovery.Replacement.Safety.Leftover.{
  IsConfirmed, IsLeftover, LeftoverOrNone, Quiet-end_attempt, Quiet-find_leftover,
  find_leftover_stored,
}
use aso_node_recovery.Replacement.Safety.Reads.{quiet_reads, quiet_stage}
use aso_node_recovery.Replacement.Stages.Cleanup.{
  Leftover, clean_leftover, delete_leftover, end_attempt, expected_name, find_leftover,
  identity_matches, stage_temp_cleanup,
}
use aso_node_recovery.Replacement.Stages.Ready.{found_answer}
use aso_node_recovery.Runtime.{Db, Effect, Exec, World, ask, continue, pure, raise, ◌>>=◌}
use aso_node_recovery.Runtime.Quiet.{Quiet}
use aso_node_recovery.Runtime.Wp.{Post}
use aso_node_recovery.Settings.{Settings}

module _ (out : Outside) (settings : Settings) where
  -- Nothing was called, or the deletion of a confirmed leftover.
  abbrev ConfirmedCalls : World → ℕ → Leftover out settings → World → World → Type 0
  ConfirmedCalls at id leftover w w' =
      (w'.effects ≡ w.effects)
      ⊎ ((w'.effects
            ≡ w.effects
              ++ Effect.delete_server leftover.adapter leftover.vps.provider_server_id ∷ [])
          × IsConfirmed out settings at id leftover)

  delete_confirmed :
      (at : World) (id : ℕ) (leftover : Leftover out settings) (asked : ℕ) (name : String)
      (answer : Option ProviderServer) (w : World)
      → found_answer (out.get_server asked leftover.adapter leftover.vps.provider_server_id)
        ≡ ok answer
      → (expected_name out settings id at).0 ≡ ok name
      → ConfirmedCalls at id leftover w (delete_leftover out settings leftover name answer w).1
  unfolding pure raise ◌>>=◌
  delete_confirmed at id leftover asked name none w answered named = inl refl
  delete_confirmed at id leftover asked name (some server) w answered named =
      elim (Bool-cases (identity_matches out settings leftover name server)) [
        | inl same ↦ simp same (
            inr (
              refl,
              identity_matches-IsConfirmed out settings at id leftover asked name server answered
                  named same,
            ))
        | inr other ↦ simp other (inl refl)
      ]

  confirm : Leftover out settings → String → Exec (Unit {0})
  confirm leftover name = do
    server ←
        ask λ n. found_answer (out.get_server n leftover.adapter leftover.vps.provider_server_id)
    delete_leftover out settings leftover name server

  confirm-ConfirmedCalls :
      (at : World) (id : ℕ) (leftover : Leftover out settings) (name : String) (w : World)
      → (expected_name out settings id at).0 ≡ ok name
      → ConfirmedCalls at id leftover w (confirm leftover name w).1
  unfolding confirm ◌>>=◌
  confirm-ConfirmedCalls at id leftover name w named =
      elim (Result-cases
        (found_answer (out.get_server w.calls leftover.adapter leftover.vps.provider_server_id))) [
          | inl (answer, e) ↦ rw e (
              delete_confirmed at id leftover w.calls name answer (record w { calls = w.calls + 1 })
                e named)
          | inr (x, e) ↦ rw e (inl refl)
        ]

  named_calls :
      (at : World) (id : ℕ) (leftover : Leftover out settings) (r : Result String) (w w1 : World)
      → (expected_name out settings id at).0 ≡ r
      → w1.effects ≡ w.effects
      → ConfirmedCalls at id leftover w (continue r w1 (confirm leftover)).1
  named_calls at id leftover (ok name) w w1 e same =
      elim (confirm-ConfirmedCalls at id leftover name w1 e) [
        | inl none_made ↦ inl (none_made ∙ same)
        | inr (one_made, confirmed) ↦ inr (rw⁻¹ same one_made, confirmed)
      ]
  named_calls at id leftover (err x) w w1 e same = inl same

  -- Nothing was called, or the deletion of a confirmed leftover of the job in `db`.
  abbrev pub LeftoverCalls : Db → World → ℕ → World → World → Type 0
  LeftoverCalls db at id w w' =
      (w'.effects ≡ w.effects)
      ⊎ ((leftover : Leftover out settings) × (w'.effects
            ≡ w.effects
              ++ Effect.delete_server leftover.adapter leftover.vps.provider_server_id ∷ [])
          × IsLeftover out settings db id leftover
          × IsConfirmed out settings at id leftover)

  Quiet-expected_name : (id : ℕ) → Quiet (expected_name out settings id)
  unfolding expected_name
  Quiet-expected_name id = search quiet_stage depth 20

  clean-LeftoverCalls :
      (db : Db) (id : ℕ) (leftover : Option (Leftover out settings)) (w : World)
      → LeftoverOrNone out settings db id leftover
      → LeftoverCalls db w id w (clean_leftover out settings id leftover w).1
  unfolding pure confirm ◌>>=◌
  clean-LeftoverCalls db id none w h = inl refl
  clean-LeftoverCalls db id (some leftover) w h =
      elim (named_calls w id leftover (expected_name out settings id w).0 w
        (expected_name out settings id w).1 refl ((Quiet-expected_name id).stays w)) [
          | inl none_made ↦ inl none_made
          | inr (one_made, confirmed) ↦ inr (leftover, one_made, h, confirmed)
        ]

  last_part : ℕ → Exec (Unit {0})
  last_part id = do
    exhausted ← end_attempt out settings id
    if exhausted then raise Error.safety_violation_error else pure tt

  Quiet-last_part : (id : ℕ) → Quiet (last_part id)
  unfolding last_part
  Quiet-last_part id = search (quiet_reads, (Quiet-end_attempt out settings))

  ended_calls :
      (db : Db) (at : World) (id : ℕ) (r : Result (Unit {0})) (w w2 : World)
      → LeftoverCalls db at id w w2
      → LeftoverCalls db at id w (continue r w2 λ _. last_part id).1
  ended_calls db at id (ok t) w w2 made = elim made [
    | inl none_made ↦ inl ((Quiet-last_part id).stays w2 ∙ none_made)
    | inr (leftover, one_made, stored, confirmed) ↦
        inr (leftover, (Quiet-last_part id).stays w2 ∙ one_made, stored, confirmed)
  ]
  ended_calls db at id (err e) w w2 made = made

  cleaned_calls :
      (db : Db) (id : ℕ) (r : Result (Option (Leftover out settings))) (w w1 : World)
      → w1.effects ≡ w.effects
      → Post (λ leftover _. LeftoverOrNone out settings db id leftover) (λ _. Unit {0}) (r, w1)
      → LeftoverCalls db w1 id w
          (continue r w1
            λ leftover. clean_leftover out settings id leftover >>= λ _. last_part id).1
  unfolding ◌>>=◌
  cleaned_calls db id (ok leftover) w w1 same h =
      let cleaned = clean_leftover out settings id leftover w1 in
      elim (ended_calls db w1 id cleaned.0 w1 cleaned.1 (clean-LeftoverCalls db id leftover w1 h)) [
        | inl none_made ↦ inl (none_made ∙ same)
        | inr (l, one_made, stored, confirmed) ↦ inr (l, rw⁻¹ same one_made, stored, confirmed)
      ]
  cleaned_calls db id (err e) w w1 same h = inl same

  -- The cleanup of a failed attempt calls nothing outside, or it deletes one server: the one that
  -- the tables have as the job's new VPS, not yet deleted, and only after the provider answered
  -- with a server of that id, of the deterministic name of the job and its attempt, and of the recorded address, if there is
  -- one. This is so whether the stage returns or raises, and whatever is answered.
  pub stage_temp_cleanup-LeftoverCalls :
      (id : ℕ) (token : String) (w : World)
      → LeftoverCalls w.db
          (find_leftover out settings id token w).1
          id
          w
          (stage_temp_cleanup out settings id token w).1
  unfolding stage_temp_cleanup last_part ◌>>=◌
  stage_temp_cleanup-LeftoverCalls id token w =
      let found = find_leftover out settings id token w in
      cleaned_calls w.db id found.0 w found.1 ((Quiet-find_leftover out settings id token).stays w)
        (find_leftover_stored out settings id token w)
