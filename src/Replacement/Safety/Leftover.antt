-- ===== src/Replacement/Safety/Leftover.antt =====
-- What `_stage_temp_cleanup` finds and what it leaves alone.
use aso_node_recovery.Prelude.{
  Bool, Option, String, false, get, if◌then◌else◌, nat_eq, none, refl, some, string_eq, true,
  truthy, ℕ, ◌==◌, ◌≡◌, ◌⊎◌,
}
use aso_node_recovery.Errors.{ok}
use aso_node_recovery.Models.EventEnums.{
  event_severity_eq, node_check_outcome_eq, replacement_trigger_mode_eq,
  secret_reference_backend_eq,
}
use aso_node_recovery.Models.JobEnums.{replacement_checkpoint_eq, replacement_job_state_eq}
use aso_node_recovery.Models.NodeEnums.{
  VpsInstanceState, deployment_state_eq, node_operation_mode_eq, node_state_eq, provider_type_eq,
  ssh_auth_method_eq, vps_instance_role_eq, vps_instance_state_eq,
}
use aso_node_recovery.Models.Rows.{Node, Provider, ReplacementJob, VpsInstance}
use aso_node_recovery.Outside.{Outside, ProviderServer}
use aso_node_recovery.Replacement.Access.{renew_lease, require_provider}
use aso_node_recovery.Replacement.Queries.{opt_row}
use aso_node_recovery.Replacement.Safety.Reads.{
  Quiet-save_vps, Returns, Returns-any, Returns-bind, Returns-gets, Returns-pure,
  Returns-require_job, quiet_stage,
}
use aso_node_recovery.Replacement.Stages.Cleanup.{
  Leftover, end_attempt, find_leftover, leftover_of, mark_deleted, start_next_attempt,
}
use aso_node_recovery.Replacement.Stages.Ready.{found_answer}
use aso_node_recovery.Runtime.{Db, World, pure, ◌>>=◌, ◌>>◌}
use aso_node_recovery.Runtime.Quiet.{Quiet, Quiet-pure}
use aso_node_recovery.Runtime.Wp.{Wp-session}
use aso_node_recovery.Settings.{Settings}

module _ (out : Outside) (settings : Settings) where
  -- The server of the job's current attempt, as the tables have it.
  pub record IsLeftover (db : Db) (id : ℕ) (leftover : Leftover out settings) : Type 0 where
    pub job : ReplacementJob
    pub job_stored : get db.jobs id ≡ some job
    pub vps_stored : opt_row db.vps job.new_vps_instance_id ≡ some leftover.vps
    pub same_mode : leftover.adapter.dry_run ≡ job.is_dry_run
    pub not_deleted : (leftover.vps.state == VpsInstanceState.deleted) ≡ false

  -- The provider's answer names the server that the tables have: by id, by the name that the stored
  -- job has in the state `at`, and by address, if one was recorded.
  pub record IsConfirmed (at : World) (id : ℕ) (leftover : Leftover out settings) : Type 0 where
    pub asked : ℕ
    pub server : ProviderServer
    pub job : ReplacementJob
    pub node : Node
    pub job_stored : get at.db.jobs id ≡ some job
    pub node_stored : get at.db.nodes job.node_id ≡ some node
    pub answered :
        found_answer (out.get_server asked leftover.adapter leftover.vps.provider_server_id)
        ≡ ok (some server)
    pub same_id : server.provider_server_id ≡ leftover.vps.provider_server_id
    pub same_name : server.name ≡ out.replacement_server_name node.name job.id job.attempt_count
    pub same_host : (truthy leftover.vps.host ≡ false) ⊎ (server.ipv4 ≡ leftover.vps.host)

  abbrev pub LeftoverOrNone : Db → ℕ → Option (Leftover out settings) → Type 0
  LeftoverOrNone db id none = Unit {0}
  LeftoverOrNone db id (some leftover) = IsLeftover db id leftover

  live_leftover :
      (db : Db) (id : ℕ) (job : ReplacementJob) (vps : VpsInstance) (provider : Provider)
      (gone : Bool)
      → (vps.state == VpsInstanceState.deleted) ≡ gone
      → get db.jobs id ≡ some job
      → opt_row db.vps job.new_vps_instance_id ≡ some vps
      → LeftoverOrNone db id (
          if gone
          then none
          else some (record {
            adapter = record { provider_id = provider.id; dry_run = job.is_dry_run };
            vps = vps;
          }))
  live_leftover db id job vps provider true e stored found = tt
  live_leftover db id job vps provider false e stored found = record {
    job = job;
    job_stored = stored;
    vps_stored = found;
    same_mode = refl;
    not_deleted = e;
  }

  kept :
      (db : Db) (id : ℕ) (token : String) (leftover : Option (Leftover out settings)) (w : World)
      → LeftoverOrNone db id leftover
      → Returns
          (renew_lease out settings id token >> pure leftover)
          (λ a _. LeftoverOrNone db id a)
          w
  kept db id token leftover w h =
      let Q : Option (Leftover out settings) → World → Type 0 = λ a _. LeftoverOrNone db id a in
      Returns-any (renew_lease out settings id token) _ Q w λ _ w1. Returns-pure leftover Q w1 h

  Returns-leftover :
      (id : ℕ) (token : String) (job : ReplacementJob) (vps : Option VpsInstance) (w : World)
      → get w.db.jobs id ≡ some job
      → opt_row w.db.vps job.new_vps_instance_id ≡ vps
      → Returns
          (leftover_of out settings job vps >>= λ leftover.
            renew_lease out settings id token >> pure leftover)
          (λ leftover _. LeftoverOrNone w.db id leftover)
          w
  Returns-leftover id token job none w stored found =
      Returns-bind (pure none) _ _ w (Returns-pure none _ w (kept w.db id token none w tt))
  Returns-leftover id token job (some vps) w stored found =
      let Q : Option (Leftover out settings) → World → Type 0 =
        λ leftover _. LeftoverOrNone w.db id leftover in
      let rest : Option (Leftover out settings) → World → Type 0 =
        λ leftover w'. Returns (renew_lease out settings id token >> pure leftover) Q w' in
      Returns-bind _ _ Q w (
        Returns-any (require_provider vps.provider_id) _ rest w λ provider w1.
          Returns-pure _ rest w1
            (kept w.db id token _ w1 (live_leftover w.db id job vps provider _ refl stored found)))

  pub find_leftover_stored :
      (id : ℕ) (token : String) (w : World)
      → Returns
          (find_leftover out settings id token)
          (λ leftover _. LeftoverOrNone w.db id leftover)
          w
  unfolding find_leftover
  find_leftover_stored id token w =
      let Q : Option (Leftover out settings) → World → Type 0 =
        λ leftover _. LeftoverOrNone w.db id leftover in
      Wp-session _ Q (λ _. Unit {0}) w
        (Returns-require_job id _ Q w
          λ job stored. Returns-gets _ _ Q w (Returns-leftover id token job _ w stored refl))

  Quiet-leftover_of :
      (job : ReplacementJob) (vps : Option VpsInstance) → Quiet (leftover_of out settings job vps)
  Quiet-leftover_of job none = Quiet-pure none
  Quiet-leftover_of job (some vps) = search quiet_stage

  pub Quiet-find_leftover : (id : ℕ) (token : String) → Quiet (find_leftover out settings id token)
  unfolding find_leftover
  Quiet-find_leftover id token = search (quiet_stage, Quiet-leftover_of) depth 20

  Quiet-mark_deleted : (vps : Option VpsInstance) → Quiet (mark_deleted out settings vps)
  Quiet-mark_deleted none = Quiet-pure tt
  Quiet-mark_deleted (some vps) = Quiet-save_vps _

  Quiet-start_next_attempt :
      (job : ReplacementJob) (exhausted : Bool)
      → Quiet (start_next_attempt out settings job exhausted)
  Quiet-start_next_attempt job exhausted = search quiet_stage

  pub Quiet-end_attempt : (id : ℕ) → Quiet (end_attempt out settings id)
  unfolding end_attempt
  Quiet-end_attempt id = search (quiet_stage, Quiet-mark_deleted, Quiet-start_next_attempt) depth 20
