-- ===== src/Replacement/Safety/OldVps.antt =====
-- `_stage_old_vps_cleanup`: which server it deletes, and when.
use aso_node_recovery.Prelude.{
  Bool, Option, String, [], arith, false, get, if◌then◌else◌, inl, inr, none, not, refl, some, true,
  ℕ, ◌&&◌, ◌++◌, ◌∙◌, ◌∷◌, ◌≡◌, ◌⊎◌,
}
use aso_node_recovery.Errors.{Result, err, ok}
use aso_node_recovery.Models.Rows.{Deployment, ReplacementJob, VpsInstance}
use aso_node_recovery.Outside.{Adapter, Outside, ProviderServer}
use aso_node_recovery.Replacement.Access.{get_for_attempt, renew_lease, require_provider}
use aso_node_recovery.Replacement.Guard.{assert_can_delete}
use aso_node_recovery.Replacement.Guard.Exact.{CanDelete, assert_can_delete_iff}
use aso_node_recovery.Replacement.Queries.{opt_row}
use aso_node_recovery.Replacement.Safety.Reads.{
  Returns, Returns-any, Returns-gets, Returns-if, Returns-lift, Returns-or_raise, Returns-pure,
  Returns-require_deployment, Returns-require_job, Returns-require_new_vps, Returns-unless,
  Returns-when-raise, quiet_reads, quiet_stage,
}
use aso_node_recovery.Replacement.Stages.Finish.{
  Doomed, assert_not_emergency_stopped, choose_doomed, delete_old, doomed_new, doomed_old,
  finish_dry_run, finish_live, stage_old_vps_cleanup, switch_registry,
}
use aso_node_recovery.Runtime.{Db, Effect, Exec, World, continue, ◌>>=◌}
use aso_node_recovery.Runtime.Calls.{
  Calls, Calls-Quiet, Calls-after, Calls-before, Calls-call, Calls-if, calls_rules,
}
use aso_node_recovery.Runtime.Quiet.{Quiet, Quiet-ask, Quiet-pure}
use aso_node_recovery.Runtime.Wp.{Post, Wp-session}
use aso_node_recovery.Settings.{Settings}

module _ (settings : Settings) where
  -- What must hold of the tables for a live deletion of the server `server_id` by the job `id`.
  pub record IsApproved (db : Db) (id : ℕ) (adapter : Adapter) (server_id : String) : Type 0 where
    pub job : ReplacementJob
    pub deployment : Deployment
    pub new_vps : VpsInstance
    pub old_vps : VpsInstance
    pub old_id : ℕ
    pub job_stored : get db.jobs id ≡ some job
    pub job_live : job.is_dry_run ≡ false
    pub old_named : job.old_vps_instance_id ≡ some old_id
    pub old_stored : get db.vps old_id ≡ some old_vps
    pub new_stored : opt_row db.vps job.new_vps_instance_id ≡ some new_vps
    pub deployment_stored : get_for_attempt job db ≡ some deployment
    pub guarded : CanDelete job deployment new_vps old_vps
    pub allowed : settings.allow_old_vps_deletion ≡ true
    pub not_stopped : settings.replacement_emergency_stop ≡ false
    pub live_adapter : adapter.dry_run ≡ false
    pub server : old_vps.provider_server_id ≡ server_id

module _ (out : Outside) (settings : Settings) where
  -- A dry run deletes through the simulating adapter; a live run needs approval.
  abbrev pub Justified : Db → ℕ → Doomed out settings → Type 0
  Justified db id doomed =
      ((doomed.dry_run ≡ true) × (doomed.adapter.dry_run ≡ true))
      ⊎ ((doomed.dry_run ≡ false) × IsApproved settings db id doomed.adapter doomed.server_id)

  not_stopped_live : (stop dry : Bool) → (stop && not dry) ≡ false → dry ≡ false → stop ≡ false
  not_stopped_live stop dry h live = ground arith

  doomed_new-Justified :
      (db : Db) (job : ReplacementJob) (vps : VpsInstance) (id : ℕ) (token : String) (w : World)
      → Returns (doomed_new out settings job vps id token) (λ d _. Justified db id d) w
  doomed_new-Justified db job vps id token w =
      Returns-any (require_provider vps.provider_id) _ (λ d _. Justified db id d) w
        λ provider w1.
          Returns-any (renew_lease out settings id token) _ (λ d _. Justified db id d) w1
            λ _ w2. Returns-pure _ (λ d _. Justified db id d) w2 (inl (refl, refl))

  doomed_old-Justified :
      (job : ReplacementJob) (d : Deployment) (vps : VpsInstance) (id : ℕ) (token : String)
      (w : World)
      → get w.db.jobs id ≡ some job
      → opt_row w.db.vps job.new_vps_instance_id ≡ some vps
      → get_for_attempt job w.db ≡ some d
      → job.is_dry_run ≡ false
      → settings.replacement_emergency_stop ≡ false
      → Returns (doomed_old out settings job d vps id token) (λ r _. Justified w.db id r) w
  doomed_old-Justified job d vps id token w stored new_stored deployment_stored live running =
      let Q : Doomed out settings → World → Type 0 = λ r _. Justified w.db id r in
      Returns-or_raise _ job.old_vps_instance_id _ Q w λ old_id named. Returns-gets _ _ Q w (
        Returns-or_raise _ (get w.db.vps old_id) _ Q w λ old_vps found.
          Returns-when-raise (not settings.allow_old_vps_deletion) _ _ Q w λ allow.
            Returns-lift (assert_can_delete job d vps old_vps) _ Q w λ _ passed.
              Returns-any (require_provider old_vps.provider_id) _ Q w λ provider w1.
                Returns-any (renew_lease out settings id token) _ Q w1 λ _ w2. Returns-pure _ Q w2 (
                  inr (
                    refl,
                    record {
                      job = job;
                      deployment = d;
                      new_vps = vps;
                      old_vps = old_vps;
                      old_id = old_id;
                      job_stored = stored;
                      job_live = live;
                      old_named = named;
                      old_stored = found;
                      new_stored = new_stored;
                      deployment_stored = deployment_stored;
                      guarded = (assert_can_delete_iff job d vps old_vps).0 (rw passed refl);
                      allowed = ground arith;
                      not_stopped = running;
                      live_adapter = refl;
                      server = refl;
                    },
                  )))

  -- Whatever the first session hands on is justified by the tables that it started from.
  choose_doomed-Justified :
      (id : ℕ) (token : String) (w : World)
      → Returns (choose_doomed out settings id token) (λ d _. Justified w.db id d) w
  unfolding choose_doomed
  choose_doomed-Justified id token w =
      let Q : Doomed out settings → World → Type 0 = λ r _. Justified w.db id r in
      Wp-session _ Q (λ _. Unit {0}) w
        (Returns-require_job id _ Q w λ job stored.
          Returns-unless (settings.replacement_emergency_stop && not job.is_dry_run) _ _ Q w λ stop.
            Returns-require_new_vps job _ Q w λ vps new_stored.
              Returns-require_deployment job _ Q w λ d deployment_stored.
                Returns-if job.is_dry_run _ _ Q w
                  (λ _. doomed_new-Justified w.db job vps id token w)
                  λ live.
                    doomed_old-Justified job d vps id token w stored new_stored deployment_stored
                      live
                      (not_stopped_live settings.replacement_emergency_stop job.is_dry_run stop
                        live))

  -- The one call that the cleanup may make.
  abbrev deletion : Doomed out settings → Effect
  deletion doomed = Effect.delete_server doomed.adapter doomed.server_id

  Calls-finish_dry_run :
      (id : ℕ) (doomed : Doomed out settings)
      → Calls (deletion doomed) (finish_dry_run out settings id doomed)
  unfolding finish_dry_run
  Calls-finish_dry_run id doomed =
      Calls-before _ _ (Calls-call (deletion doomed)) λ _. search quiet_stage depth 20

  Calls-delete_old :
      (doomed : Doomed out settings) (server : Option ProviderServer)
      → Calls (deletion doomed) (delete_old out settings doomed server)
  Calls-delete_old doomed none = Calls-Quiet _ (Quiet-pure tt)
  Calls-delete_old doomed (some server) = search (calls_rules, quiet_reads) depth 20

  Quiet-switch_registry : (id : ℕ) → Quiet (switch_registry out settings id)
  unfolding switch_registry
  Quiet-switch_registry id = search quiet_stage depth 60

  Calls-finish_live :
      (id : ℕ) (doomed : Doomed out settings)
      → Calls (deletion doomed) (finish_live out settings id doomed)
  unfolding finish_live
  Calls-finish_live id doomed =
      Calls-after _ _ (Quiet-ask _)
        λ server. Calls-before _ _ (Calls-delete_old doomed server) λ _. Quiet-switch_registry id

  Quiet-assert_not_emergency_stopped :
      (dry : Bool) → Quiet (assert_not_emergency_stopped out settings dry)
  Quiet-assert_not_emergency_stopped dry = search quiet_reads

  Quiet-choose_doomed : (id : ℕ) (token : String) → Quiet (choose_doomed out settings id token)
  unfolding choose_doomed
  Quiet-choose_doomed id token = search (quiet_stage, Quiet-assert_not_emergency_stopped) depth 60

  -- Nothing was called, or one deletion that the tables `db` justify.
  abbrev pub JustifiedCalls : Db → ℕ → World → World → Type 0
  JustifiedCalls db id w w' =
      (w'.effects ≡ w.effects)
      ⊎ ((doomed : Doomed out settings) × (w'.effects
            ≡ w.effects ++ Effect.delete_server doomed.adapter doomed.server_id ∷ [])
          × Justified db id doomed)

  finish_cleanup : ℕ → Doomed out settings → Exec (Unit {0})
  finish_cleanup id doomed =
      if doomed.dry_run
      then finish_dry_run out settings id doomed
      else finish_live out settings id doomed

  Calls-finish_cleanup :
      (id : ℕ) (doomed : Doomed out settings) → Calls (deletion doomed) (finish_cleanup id doomed)
  unfolding finish_cleanup
  Calls-finish_cleanup id doomed =
      Calls-if doomed.dry_run _ _ (Calls-finish_dry_run id doomed) (Calls-finish_live id doomed)

  justified_calls :
      (id : ℕ) (db : Db) (r : Result (Doomed out settings)) (w w1 : World)
      → w1.effects ≡ w.effects
      → Post (λ d _. Justified db id d) (λ _. Unit {0}) (r, w1)
      → JustifiedCalls db id w (continue r w1 (finish_cleanup id)).1
  justified_calls id db (ok doomed) w w1 same j = elim ((Calls-finish_cleanup id doomed).made w1) [
    | inl none_made ↦ inl (none_made ∙ same)
    | inr one_made ↦ inr (doomed, rw⁻¹ same one_made, j)
  ]
  justified_calls id db (err e) w w1 same j = inl same

  -- The cleanup of the old VPS calls nothing outside, or it deletes one server. In a dry run that
  -- goes to the simulating adapter; otherwise the server is the one of the job's old VPS, every gate
  -- of the guard holds of the stored rows, the deletion of old VPSs is enabled, and there is no
  -- emergency stop. This is so whether the stage returns or raises, and whatever is answered.
  pub stage_old_vps_cleanup-JustifiedCalls :
      (id : ℕ) (token : String) (w : World)
      → JustifiedCalls w.db id w (stage_old_vps_cleanup out settings id token w).1
  unfolding stage_old_vps_cleanup ◌>>=◌ finish_cleanup
  stage_old_vps_cleanup-JustifiedCalls id token w =
      let chosen = choose_doomed out settings id token w in
      justified_calls id w.db chosen.0 w chosen.1 ((Quiet-choose_doomed id token).stays w)
        (choose_doomed-Justified id token w)
