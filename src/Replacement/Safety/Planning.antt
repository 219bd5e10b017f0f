-- ===== src/Replacement/Safety/Planning.antt =====
-- What the first session of `_stage_provisioning` hands on of the tables.
use aso_node_recovery.Prelude.{
  Option, ap, get, length, nat_eq, none, not, refl, select, some, string_eq, sym, ℕ, ◌&&◌, ◌==◌,
  ◌∙◌, ◌≡◌,
}
use aso_node_recovery.Errors.{Error}
use aso_node_recovery.Models.EventEnums.{
  event_severity_eq, node_check_outcome_eq, replacement_trigger_mode_eq,
  secret_reference_backend_eq,
}
use aso_node_recovery.Models.JobEnums.{
  ReplacementCheckpoint, replacement_checkpoint_eq, replacement_job_state_eq,
}
use aso_node_recovery.Models.NodeEnums.{
  SshAuthMethod, VpsInstanceRole, VpsInstanceState, deployment_state_eq, node_operation_mode_eq,
  node_state_eq, provider_type_eq, ssh_auth_method_eq, vps_instance_role_eq, vps_instance_state_eq,
}
use aso_node_recovery.Models.Rows.{Node, NodeCredential, Provider, ReplacementJob, VpsInstance}
use aso_node_recovery.Outside.{Outside}
use aso_node_recovery.Replacement.Access.{
  advance, or_raise, require_credential, require_node, require_provider, required,
}
use aso_node_recovery.Replacement.Queries.{count_active, count_active_replacements, opt_row}
use aso_node_recovery.Replacement.Safety.Reads.{
  Returns, Returns-Reading, Returns-any, Returns-gets, Returns-if, Returns-pure,
  Returns-require_job,
}
use aso_node_recovery.Replacement.Stages.Provision.{
  Plan, build_create_request, has_live_vps, plan_provisioning, ssh_access,
}
use aso_node_recovery.Runtime.{Db, World}
use aso_node_recovery.Runtime.Reading.{Reading, Reading-pure, Reading-raise, reading_rules}
use aso_node_recovery.Runtime.Wp.{Wp-session}
use aso_node_recovery.Settings.{Settings}

module _ {A : Type 0} where
  pub Reading-or_raise : (e : Error) (o : Option A) → Reading (or_raise e o)
  Reading-or_raise e none = Reading-raise e
  Reading-or_raise e (some a) = Reading-pure a

ruleset table_reads = (reading_rules, Reading-or_raise)

Reading-require_node : (id : ℕ) → Reading (require_node id)
unfolding require_node
Reading-require_node id = search table_reads

Reading-require_provider : (id : ℕ) → Reading (require_provider id)
unfolding require_provider
Reading-require_provider id = search table_reads

Reading-require_credential : (id : ℕ) → Reading (require_credential id)
unfolding require_credential
Reading-require_credential id = search table_reads

-- The temporary servers that were not deleted, and the jobs that have not ended.
abbrev pub temporary_servers : Db → ℕ
temporary_servers db = length (
    select db.vps
      λ vps. vps.role == VpsInstanceRole.replacement && not (vps.state == VpsInstanceState.deleted))

abbrev pub open_jobs : Db → ℕ
open_jobs db = length (select db.jobs λ job. job.active_slot)

module _ (out : Outside) (settings : Settings) where
  Reading-ssh_access :
      (provider : Provider) (credential : NodeCredential) (method : SshAuthMethod)
      → Reading (ssh_access out settings provider credential method)
  Reading-ssh_access provider credential SshAuthMethod.private_key = search table_reads
  Reading-ssh_access provider credential SshAuthMethod.password = search table_reads

  Reading-build_create_request :
      (job : ReplacementJob) (node : Node) (provider : Provider) (credential : NodeCredential)
      (old_vps : VpsInstance)
      → Reading (build_create_request out settings job node provider credential old_vps)
  unfolding build_create_request
  Reading-build_create_request job node provider credential old_vps =
      search (table_reads, Reading-ssh_access)

  -- A plan that rests on the tables `db`, which are still the ones of the state.
  abbrev pub IsPlanned : Db → ℕ → Option (Plan out settings) → World → Type 0
  IsPlanned db id none w = Unit
  IsPlanned db id (some plan) w =
      (w.db ≡ db)
      × ((job : ReplacementJob) × (get db.jobs id ≡ some job)
          × (plan.adapter.dry_run ≡ job.is_dry_run))
      × (plan.active_temporary ≡ temporary_servers db)
      × (plan.active_jobs ≡ open_jobs db)

  planned :
      (db : Db) (id : ℕ) (job : ReplacementJob) (plan : Plan out settings) (w : World)
      → get db.jobs id ≡ some job
      → plan.adapter.dry_run ≡ job.is_dry_run
      → w.db ≡ db
      → plan.active_temporary ≡ temporary_servers w.db
      → plan.active_jobs ≡ open_jobs w.db
      → IsPlanned db id (some plan) w
  planned db id job plan w found dry same temporary active =
      (same, (job, found, dry), temporary ∙ ap temporary_servers same, active ∙ ap open_jobs same)

  pub plan_provisioning-IsPlanned :
      (id : ℕ) (w : World) → Returns (plan_provisioning out settings id) (IsPlanned w.db id) w
  unfolding plan_provisioning
  plan_provisioning-IsPlanned id w =
      let Q = IsPlanned w.db id in
      Wp-session _ Q (λ _. Unit {0}) w
        (Returns-require_job id _ Q w λ job found.
          Returns-Reading (require_node job.node_id) _ Q w (Reading-require_node _) λ node w1 e1.
            Returns-Reading (require_provider node.provider_id) _ Q w1 (Reading-require_provider _)
              λ provider w2 e2.
                Returns-Reading (require_credential node.id) _ Q w2 (Reading-require_credential _)
                  λ credential w3 e3.
                    Returns-gets (λ db. opt_row db.vps job.new_vps_instance_id) _ Q w3
                      (Returns-if
                        (has_live_vps out settings (opt_row w3.db.vps job.new_vps_instance_id)) _ _
                        Q w3
                        (λ _.
                          Returns-any (advance out job ReplacementCheckpoint.provisioned) _ Q w3
                            λ _ w4. Returns-pure none Q w4 tt)
                        (λ _. Returns-gets count_active_replacements _ Q w3 (
                          Returns-gets count_active _ Q w3 (
                            Returns-gets (λ db. opt_row db.vps job.old_vps_instance_id) _ Q w3
                              (Returns-Reading
                                (required (opt_row w3.db.vps job.old_vps_instance_id)) _ Q w3
                                (Reading-or_raise _ _)
                                λ old_vps w4 e4.
                                  Returns-Reading
                                    (build_create_request out settings job node provider credential
                                      old_vps)
                                    _ Q w4 (Reading-build_create_request _ _ _ _ _)
                                    λ request w5 e5. Returns-pure _ Q w5 (
                                      planned w.db id job
                                        (record {
                                          provider_id = provider.id;
                                          adapter = record {
                                            provider_id = provider.id;
                                            dry_run = job.is_dry_run;
                                          };
                                          request = request;
                                          requested_at = job.provisioning_requested_at;
                                          active_temporary = temporary_servers w3.db;
                                          active_jobs = open_jobs w3.db;
                                        })
                                        w5 found refl (e5 ∙ e4 ∙ e3 ∙ e2 ∙ e1)
                                        (ap temporary_servers (sym e4)
                                          ∙ ap temporary_servers (sym e5))
                                        (ap open_jobs (sym e4) ∙ ap open_jobs (sym e5)))))))))
