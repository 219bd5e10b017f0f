-- ===== src/Replacement/Safety/Provisioning.antt =====
-- The server that `_stage_provisioning` creates, and when.
use mathlib.Core.Path.{subst}
use aso_node_recovery.Prelude.{
  Option, String, [], ap, arith, get, inl, inr, none, refl, some, ℕ, ◌++◌, ◌+◌, ◌-◌, ◌<◌, ◌∙◌, ◌∷◌,
  ◌≡◌, ◌≤◌, ◌⊎◌,
}
use aso_node_recovery.Errors.{Result, Result-cases, err, ok}
use aso_node_recovery.Models.NodeEnums.{SshAuthMethod}
use aso_node_recovery.Models.Rows.{NodeCredential, Provider, ReplacementJob}
use aso_node_recovery.Outside.{Adapter, CreateServerRequest, Outside}
use aso_node_recovery.Replacement.Access.{utc_now}
use aso_node_recovery.Replacement.Safety.Creation.{
  OnceIf, Passes, Quiet-record_server, create_temporary-OnceIf, creation, OnceIf-then,
}
use aso_node_recovery.Replacement.Safety.Planning.{
  IsPlanned, open_jobs, plan_provisioning-IsPlanned, temporary_servers,
}
use aso_node_recovery.Replacement.Safety.Reads.{quiet_stage}
use aso_node_recovery.Replacement.Stages.Provision.{
  Plan, build_create_request, create_temporary, follow_plan, plan_provisioning, ssh_access,
  stage_provisioning,
}
use aso_node_recovery.Replacement.Stages.Provision.Capacity.{validate_capacity_iff}
use aso_node_recovery.Runtime.{Db, Effect, World, pure, ◌>>=◌}
use aso_node_recovery.Runtime.Quiet.{Quiet}
use aso_node_recovery.Runtime.Wp.{Post}
use aso_node_recovery.Settings.{Settings}

-- The settings leave room for another server of the job `id` in the tables `db`: its attempt is one
-- of those allowed, and there are few enough temporary servers and few enough other open jobs.
pub record HasRoom (settings : Settings) (db : Db) (id : ℕ) (adapter : Adapter) : Type 0 where
  pub job : ReplacementJob
  pub job_stored : get db.jobs id ≡ some job
  pub same_run : adapter.dry_run ≡ job.is_dry_run
  pub attempt_from : 1 ≤ job.attempt_count
  pub attempt_to : job.attempt_count ≤ settings.max_replacement_attempts
  pub servers_left : temporary_servers db < settings.max_temporary_servers
  pub jobs_left : open_jobs db - 1 < settings.max_concurrent_replacements

module _ (out : Outside) (settings : Settings) where
  Quiet-ssh_access :
      (provider : Provider) (credential : NodeCredential) (method : SshAuthMethod)
      → Quiet (ssh_access out settings provider credential method)
  Quiet-ssh_access provider credential SshAuthMethod.private_key = search quiet_stage
  Quiet-ssh_access provider credential SshAuthMethod.password = search quiet_stage

  Quiet-plan_provisioning : (id : ℕ) → Quiet (plan_provisioning out settings id)
  unfolding plan_provisioning build_create_request
  Quiet-plan_provisioning id = search (quiet_stage, Quiet-ssh_access) depth 30

  -- The provider answered that it has no server of that name.
  abbrev pub IsUnknown : Adapter → String → Type 0
  IsUnknown adapter name = (n : ℕ) × (out.find_server_by_name n adapter name ≡ ok none)

  -- Nothing was called, or the creation of a server that the provider does not have, for which the
  -- settings leave room in the tables `db`.
  abbrev pub RoomyCalls : Db → ℕ → World → World → Type 0
  RoomyCalls db id w w' =
      (w'.effects ≡ w.effects)
      ⊎ ((adapter : Adapter) × (request : CreateServerRequest) × (w'.effects
            ≡ w.effects ++ Effect.create_server adapter request ∷ [])
          × HasRoom settings db id adapter
          × IsUnknown adapter request.name)

  OnceIf-both :
      (job : ReplacementJob) (plan : Plan out settings) (w w2 : World)
      → OnceIf (creation out settings plan) (Passes out settings plan job.attempt_count) w w2
      → IsUnknown plan.adapter plan.request.name
      → OnceIf
          (creation out settings plan)
          (Passes out settings plan job.attempt_count × IsUnknown plan.adapter plan.request.name)
          w
          w2
  OnceIf-both job plan w w2 made unknown = elim made [
    | inl none_made ↦ inl none_made
    | inr (one_made, passed) ↦ inr (one_made, (passed, unknown))
  ]

  room_lem :
      (db : Db) (id : ℕ) (job : ReplacementJob) (plan : Plan out settings)
      → get db.jobs id ≡ some job
      → plan.adapter.dry_run ≡ job.is_dry_run
      → plan.active_temporary ≡ temporary_servers db
      → plan.active_jobs ≡ open_jobs db
      → Passes out settings plan job.attempt_count
      → HasRoom settings db id plan.adapter
  room_lem db id job plan found dry servers jobs passed =
      let (from, to, left, others) =
        (validate_capacity_iff settings job.attempt_count plan.active_temporary
            (plan.active_jobs - 1)).0
          passed in
      record {
        job = job;
        job_stored = found;
        same_run = dry;
        attempt_from = from;
        attempt_to = to;
        servers_left = rw⁻¹ servers left;
        jobs_left = rw⁻¹ jobs others;
      }

  answer-IsPlanned :
      (id : ℕ) (w : World) (answer : Option (Plan out settings))
      (r : Result (Option (Plan out settings)) × World)
      → Post (IsPlanned out settings w.db id) (λ _. Unit {0}) r
      → r.0 ≡ ok answer
      → IsPlanned out settings w.db id answer r.1
  answer-IsPlanned id w answer (ok a, w') planned e =
      subst (λ o. IsPlanned out settings w.db id o w') (cc) planned
  answer-IsPlanned id w answer (err x, w') planned e = absurd (ground arith)

  module _ (id : ℕ) (token : String) (now : ℕ) where
    follow_plan-OnceIf :
        (job : ReplacementJob) (plan : Plan out settings) (w : World)
        → get w.db.jobs id ≡ some job
        → OnceIf
            (creation out settings plan)
            (Passes out settings plan job.attempt_count × IsUnknown plan.adapter plan.request.name)
            w
            (follow_plan out settings id token now (some plan) w).1
    unfolding ◌>>=◌ pure
    follow_plan-OnceIf job plan w found =
        let w1 = record w { calls = w.calls + 1 } in
        elim (Result-cases (out.find_server_by_name w.calls plan.adapter plan.request.name)) [
          | inl (none, e) ↦ rw e (
              OnceIf-then _ _ (create_temporary out settings id token now plan w1).0 _ w _
                (OnceIf-both job plan w (create_temporary out settings id token now plan w1).1
                  (create_temporary-OnceIf out settings id token job plan now w1 found)
                  (w.calls, e))
                (Quiet-record_server out settings id token plan))
          | inl (some server, e) ↦
              rw e (inl ((Quiet-record_server out settings id token plan server).stays w1))
          | inr (x, raised) ↦ rw raised (inl refl)
        ]

    roomy :
        (w w1 : World) (answer : Option (Plan out settings))
        → w1.effects ≡ w.effects
        → IsPlanned out settings w.db id answer w1
        → RoomyCalls w.db id w (follow_plan out settings id token now answer w1).1
    unfolding pure
    roomy w w1 none same planned = inl same
    roomy w w1 (some plan) same (kept, (job, found, dry), servers, jobs) =
        elim (follow_plan-OnceIf job plan w1 (ap (λ d. get d.jobs id) kept ∙ found)) [
          | inl none_made ↦ inl (none_made ∙ same)
          | inr (one_made, (passed, unknown)) ↦ inr (
            plan.adapter,
            plan.request,
            rw⁻¹ same one_made,
            room_lem w.db id job plan found dry servers jobs passed,
            unknown,
          )
        ]

  -- Provisioning calls nothing outside, or it creates one server, and then only if the provider
  -- answered that it has none of that name, and the settings leave room in the tables that the stage
  -- began with: the attempt of the stored job is one of those allowed, and there are fewer temporary
  -- servers and fewer other open jobs than the limits. A dry run creates through the simulating
  -- adapter. This is so whether the stage returns or raises, and whatever is answered.
  pub stage_provisioning-RoomyCalls :
      (id : ℕ) (token : String) (w : World)
      → RoomyCalls w.db id w (stage_provisioning out settings id token w).1
  unfolding stage_provisioning utc_now ◌>>=◌
  stage_provisioning-RoomyCalls id token w =
      let w1 = record w { calls = w.calls + 1 } in
      let step = plan_provisioning out settings id w1 in
      let quiet = (Quiet-plan_provisioning id).stays w1 in
      elim (Result-cases step.0) [
        | inl (answer, e) ↦ rw e (
            roomy id token (out.now w.calls) w step.1 answer quiet (
              answer-IsPlanned id w1 answer step (plan_provisioning-IsPlanned out settings id w1)
                e))
        | inr (x, raised) ↦ rw raised (inl quiet)
      ]
