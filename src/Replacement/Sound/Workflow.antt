-- ===== src/Replacement/Sound/Workflow.antt =====
-- `resume` and `cancel` keep every job sound, whatever the outside answers.
use aso_node_recovery.Prelude.{Bool, Option, String, false, none, refl, some, suc, true, zero, ℕ}
use aso_node_recovery.Errors.{Error}
use aso_node_recovery.Models.JobEnums.{ReplacementCheckpoint}
use aso_node_recovery.Models.Rows.{Node, ReplacementJob}
use aso_node_recovery.Outside.{Outside}
use aso_node_recovery.Replacement.Access.{release_lease}
use aso_node_recovery.Replacement.Checkpoints.{is_terminal}
use aso_node_recovery.Replacement.Sound.{AllSound, IsSound}
use aso_node_recovery.Replacement.Sound.Actions.{
  Preserves-acquire_lease, Preserves-found_job, reads, stage_rules, unleased,
}
use aso_node_recovery.Replacement.Sound.Address.{
  Preserves-stage_checking_ip, Preserves-stage_temp_cleanup,
}
use aso_node_recovery.Replacement.Sound.Deploy.{
  Preserves-stage_deploying, Preserves-stage_ip_verified,
}
use aso_node_recovery.Replacement.Sound.Early.{
  Preserves-stage_created, Preserves-stage_provisioned, Preserves-stage_provisioning,
}
use aso_node_recovery.Replacement.Sound.Finish.{
  Preserves-assert_not_emergency_stopped, Preserves-stage_final_check,
  Preserves-stage_old_vps_cleanup,
}
use aso_node_recovery.Replacement.Sound.Master.{
  Preserves-stage_master_updating, Preserves-stage_master_verifying, Preserves-stage_next,
  Preserves-stage_node_verified,
}
use aso_node_recovery.Replacement.Workflow.{
  RunResult, assert_runtime_execution_allowed, cancel, dispatch, fail_active, fail_job,
  get_checkpoint, next_round, one_round, release, restore_if, resume, rounds, run_checkpoint,
  try_finally,
}
use aso_node_recovery.Runtime.{Exec, World, modify}
use aso_node_recovery.Runtime.Preserves.{
  Preserves, Preserves-bind, Preserves-if, Preserves-pure, Preserves-raise, Preserves-session,
}
use aso_node_recovery.Settings.{Settings}

module _ (out : Outside) (settings : Settings) where
  Preserves-dispatch :
      (checkpoint : ReplacementCheckpoint) (id : ℕ) (token : String)
      → Preserves AllSound (dispatch out settings checkpoint id token)
  unfolding dispatch
  Preserves-dispatch ReplacementCheckpoint.created id token =
      Preserves-stage_created out settings id
  Preserves-dispatch ReplacementCheckpoint.provisioning id token =
      Preserves-stage_provisioning out settings id token
  Preserves-dispatch ReplacementCheckpoint.provisioned id token =
      Preserves-stage_provisioned out settings id token
  Preserves-dispatch ReplacementCheckpoint.checking_ip id token =
      Preserves-stage_checking_ip out settings id token
  Preserves-dispatch ReplacementCheckpoint.temp_cleanup id token =
      Preserves-stage_temp_cleanup out settings id token
  Preserves-dispatch ReplacementCheckpoint.ip_verified id token =
      Preserves-stage_ip_verified out settings id
  Preserves-dispatch ReplacementCheckpoint.deploying id token =
      Preserves-stage_deploying out settings id token
  Preserves-dispatch ReplacementCheckpoint.node_verified id token =
      Preserves-stage_node_verified out settings id token
  Preserves-dispatch ReplacementCheckpoint.master_updating id token =
      Preserves-stage_master_updating out settings id token
  Preserves-dispatch ReplacementCheckpoint.master_updated id token =
      Preserves-stage_next out settings _ id λ job. refl
  Preserves-dispatch ReplacementCheckpoint.master_verifying id token =
      Preserves-stage_master_verifying out settings id token
  Preserves-dispatch ReplacementCheckpoint.master_verified id token =
      Preserves-stage_next out settings _ id λ job. refl
  Preserves-dispatch ReplacementCheckpoint.final_check id token =
      Preserves-stage_final_check out settings id token
  Preserves-dispatch ReplacementCheckpoint.final_verified id token =
      Preserves-stage_next out settings _ id λ job. refl
  Preserves-dispatch ReplacementCheckpoint.old_vps_cleanup id token =
      Preserves-stage_old_vps_cleanup out settings id token
  Preserves-dispatch _ id token = Preserves-raise Error.runtime_error

  Preserves-restore_if :
      (job : ReplacementJob) (node : Option Node)
      → Preserves AllSound (restore_if out settings job node)
  Preserves-restore_if job none = search reads
  Preserves-restore_if job (some node) = search stage_rules depth 20

  Preserves-fail_active :
      (e : Error) (job : ReplacementJob)
      → IsSound job
      → Preserves AllSound (fail_active out settings e (some job))
  Preserves-fail_active e job v = search (stage_rules, Preserves-restore_if) depth 20

  Preserves-fail_job : (id : ℕ) (e : Error) → Preserves AllSound (fail_job out settings id e)
  unfolding fail_job
  Preserves-fail_job id e =
      Preserves-session _
        (Preserves-found_job id _ (Preserves-pure tt) λ job v. Preserves-fail_active e job v)

  Preserves-get_checkpoint : (id : ℕ) → Preserves AllSound (get_checkpoint out settings id)
  unfolding get_checkpoint
  Preserves-get_checkpoint id = search stage_rules

  Preserves-assert_runtime_execution_allowed :
      (dry : Bool) → Preserves AllSound (assert_runtime_execution_allowed out settings dry)
  unfolding assert_runtime_execution_allowed
  Preserves-assert_runtime_execution_allowed true = search reads
  Preserves-assert_runtime_execution_allowed false = search reads

  Preserves-run_checkpoint :
      (id : ℕ) (token : String) (checkpoint : ReplacementCheckpoint)
      → Preserves AllSound (run_checkpoint out settings id token checkpoint)
  unfolding run_checkpoint
  Preserves-run_checkpoint id token checkpoint =
      search
        (
          stage_rules, Preserves-assert_runtime_execution_allowed,
          Preserves-assert_not_emergency_stopped, Preserves-dispatch,
        )
        depth 20

  Preserves-one_round :
      (id : ℕ) (token : String) (checkpoint : ReplacementCheckpoint)
      → Preserves AllSound (one_round out settings id token checkpoint)
  unfolding one_round
  Preserves-one_round id token checkpoint =
      search (reads, Preserves-run_checkpoint, Preserves-get_checkpoint, Preserves-fail_job) depth
        20

  Preserves-next_round :
      (outcome : Option RunResult) (again : Exec RunResult)
      → Preserves AllSound again
      → Preserves AllSound (next_round out settings outcome again)
  Preserves-next_round none again keeps = keeps
  Preserves-next_round (some result) again keeps = Preserves-pure result

  Preserves-rounds :
      (left id : ℕ) (token : String) → Preserves AllSound (rounds out settings left id token)
  unfolding rounds
  Preserves-rounds zero id token = Preserves-raise Error.runtime_error
  Preserves-rounds (suc left) id token =
      Preserves-bind _ _ (Preserves-get_checkpoint id) λ checkpoint.
        Preserves-if (is_terminal checkpoint) _ _ (Preserves-pure _) (
          Preserves-bind _ _ (Preserves-one_round id token checkpoint)
            λ outcome. Preserves-next_round outcome _ (Preserves-rounds left id token))

  Preserves-release :
      (id : ℕ) (token : String) (w : World)
      → AllSound w.db
      → AllSound (release out settings id token w).db
  unfolding release_lease modify
  Preserves-release id token w i = unleased w.db id token i

  Preserves-guarded :
      (id : ℕ) (token : String) (m : Exec RunResult)
      → Preserves AllSound m
      → Preserves AllSound (try_finally m (release out settings id token))
  unfolding try_finally
  Preserves-guarded id token m keeps = record {
    leads = λ w i. Preserves-release id token (m w).1 (keeps.leads w i);
  }

  pub Preserves-resume :
      (id : ℕ) (token : String) → Preserves AllSound (resume out settings id token)
  unfolding resume
  Preserves-resume id token =
      search (stage_rules, Preserves-acquire_lease, Preserves-rounds, Preserves-guarded) depth 20

  -- `resume` leaves every replacement job sound, whether it returns, defers or raises, whatever the
  -- provider, the hosts, the master node, the clock and the switches answer.
  pub resume-AllSound :
      (id : ℕ) (token : String) (w : World)
      → AllSound w.db
      → AllSound (resume out settings id token w).1.db
  resume-AllSound id token w i = (Preserves-resume id token).leads w i

  pub Preserves-cancel : (id : ℕ) → Preserves AllSound (cancel out settings id)
  unfolding cancel
  Preserves-cancel id = search (stage_rules, Preserves-restore_if) depth 20

  -- `cancel` leaves every replacement job sound.
  pub cancel-AllSound :
      (id : ℕ) (w : World) → AllSound w.db → AllSound (cancel out settings id w).1.db
  cancel-AllSound id w i = (Preserves-cancel id).leads w i
