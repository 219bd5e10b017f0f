-- ===== src/Replacement/Sound/Examples.antt =====
-- A job that stands at the cleanup of the old VPS, run to its end.
use aso_node_recovery.Replacement.Checkpoints
use aso_node_recovery.Prelude.{arith, refl}
use aso_node_recovery.Models.JobEnums.{ReplacementCheckpoint}
use aso_node_recovery.Models.Rows.{ReplacementJob}
use aso_node_recovery.Replacement.SampleWorld.{
  jobless_db, plain_outside, plain_settings, sample_db, sample_world,
}
use aso_node_recovery.Replacement.Samples.{verified_job}
use aso_node_recovery.Replacement.Sound.{AllSound, IsSound}
use aso_node_recovery.Replacement.Sound.Actions.{put_at}
use aso_node_recovery.Replacement.Sound.Workflow.{resume-AllSound}
use aso_node_recovery.Replacement.Workflow.{resume}

abbrev cleaning : ReplacementJob
cleaning = verified_job ReplacementCheckpoint.old_vps_cleanup

cleaning-IsSound : IsSound cleaning
unfolding Checkpoints.allowed
cleaning-IsSound = ground arith

no_jobs : AllSound jobless_db
no_jobs = record { row = λ id job e. absurd (ground arith) }

all_sound : AllSound (sample_db cleaning)
all_sound = put_at jobless_db 100 cleaning refl cleaning-IsSound no_jobs

resume-AllSound_example :
    AllSound (resume plain_outside plain_settings 100 "t" (sample_world cleaning)).1.db
resume-AllSound_example =
    resume-AllSound plain_outside plain_settings 100 "t" (sample_world cleaning) all_sound
