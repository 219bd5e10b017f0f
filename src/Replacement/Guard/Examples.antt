-- ===== src/Replacement/Guard/Examples.antt =====
-- The guard at a job that meets every gate, and at one that does not.
use aso_node_recovery.Prelude.{[], refl, true, ◌↔◌, ◌∷◌, ◌≡◌}
use aso_node_recovery.Errors.{is_ok, ok}
use aso_node_recovery.Models.JobEnums.{ReplacementCheckpoint}
use aso_node_recovery.Models.NodeEnums.{VpsInstanceRole}
use aso_node_recovery.Replacement.Guard.{assert_can_delete, missing_gates, note}
use aso_node_recovery.Replacement.Guard.Exact.{CanDelete, assert_can_delete_iff}
use aso_node_recovery.Replacement.Samples.{
  new_server, old_server, sample_deployment, sample_job, verified_job,
}

assert_can_delete_iff_example :
    (is_ok (
        assert_can_delete
          (verified_job ReplacementCheckpoint.old_vps_cleanup)
          sample_deployment
          new_server
          old_server)
      ≡ true)
    ↔ CanDelete
        (verified_job ReplacementCheckpoint.old_vps_cleanup)
        sample_deployment
        new_server
        old_server
assert_can_delete_iff_example =
    assert_can_delete_iff (verified_job ReplacementCheckpoint.old_vps_cleanup) sample_deployment
      new_server old_server

guard_passes :
    assert_can_delete
      (verified_job ReplacementCheckpoint.old_vps_cleanup)
      sample_deployment
      new_server
      old_server
    ≡ ok tt
unfolding assert_can_delete missing_gates note
guard_passes = refl

guard_names_the_gates :
    missing_gates
      (sample_job ReplacementCheckpoint.old_vps_cleanup)
      sample_deployment
      new_server
      (record old_server { role = VpsInstanceRole.replacement })
    ≡ "old_vps_current_role" ∷ "new_ip_verified" ∷ "deployment_verified" ∷ "master_updated"
      ∷ "master_verified" ∷ "final_health_verified" ∷ []
unfolding missing_gates note
guard_names_the_gates = refl
