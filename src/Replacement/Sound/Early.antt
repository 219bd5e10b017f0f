-- ===== src/Replacement/Sound/Early.antt =====
-- The stages up to the verified address keep every job sound.
use aso_node_recovery.Prelude.{Option, String, none, refl, some, suc, zero, ℕ}
use aso_node_recovery.Models.NodeEnums.{SshAuthMethod}
use aso_node_recovery.Models.Rows.{Node, NodeCredential, Provider, ReplacementJob, VpsInstance}
use aso_node_recovery.Outside.{Outside, ProviderServer}
use aso_node_recovery.Replacement.Sound.{AllSound}
use aso_node_recovery.Replacement.Sound.Actions.{
  Preserves-advance, Preserves-require_job, Preserves-utc_now, reads, stage_rules,
}
use aso_node_recovery.Replacement.Sound.Moves.{counted-IsSound}
use aso_node_recovery.Replacement.Stages.Provision.{
  Plan, build_create_request, create_temporary, follow_plan, found_or_created, plan_provisioning,
  record_instance, record_server, ssh_access, stage_created, stage_provisioning,
}
use aso_node_recovery.Replacement.Stages.Ready.{
  after_wait, server_running, server_to_await, server_vanished, sleep_pieces, sleep_with_lease,
  stage_provisioned, wait_for_vps_boot_grace,
}
use aso_node_recovery.Runtime.Preserves.{
  Preserves, Preserves-ask, Preserves-bind, Preserves-if, Preserves-pure, Preserves-raise,
  Preserves-session,
}
use aso_node_recovery.Settings.{Settings}

module _ (out : Outside) (settings : Settings) where
  pub Preserves-stage_created : (id : ℕ) → Preserves AllSound (stage_created out settings id)
  unfolding stage_created
  Preserves-stage_created id =
      Preserves-session _
        (Preserves-require_job id _ λ job v. Preserves-advance out _ _ (counted-IsSound job v) refl)

  Preserves-ssh_access :
      (provider : Provider) (credential : NodeCredential) (method : SshAuthMethod)
      → Preserves AllSound (ssh_access out settings provider credential method)
  Preserves-ssh_access provider credential SshAuthMethod.private_key =
      Preserves-if _ _ _ (Preserves-pure _) (Preserves-raise _)
  Preserves-ssh_access provider credential SshAuthMethod.password =
      Preserves-if _ _ _ (Preserves-bind _ _ (Preserves-ask _) λ secret. Preserves-pure _)
        (Preserves-raise _)

  Preserves-build_create_request :
      (job : ReplacementJob) (node : Node) (provider : Provider) (credential : NodeCredential)
      (old_vps : VpsInstance)
      → Preserves AllSound (build_create_request out settings job node provider credential old_vps)
  unfolding build_create_request
  Preserves-build_create_request job node provider credential old_vps =
      search (reads, Preserves-ssh_access)

  Preserves-plan_provisioning : (id : ℕ) → Preserves AllSound (plan_provisioning out settings id)
  unfolding plan_provisioning
  Preserves-plan_provisioning id = search (stage_rules, Preserves-build_create_request) depth 30

  Preserves-create_temporary :
      (id : ℕ) (token : String) (now : ℕ) (plan : Plan out settings)
      → Preserves AllSound (create_temporary out settings id token now plan)
  unfolding create_temporary
  Preserves-create_temporary id token now plan = search stage_rules depth 30

  Preserves-found_or_created :
      (id : ℕ) (token : String) (now : ℕ) (plan : Plan out settings) (found : Option ProviderServer)
      → Preserves AllSound (found_or_created out settings id token now plan found)
  Preserves-found_or_created id token now plan none = Preserves-create_temporary id token now plan
  Preserves-found_or_created id token now plan (some server) = Preserves-pure server

  Preserves-record_instance :
      (job : ReplacementJob) (plan : Plan out settings) (server : ProviderServer)
      (existing : Option VpsInstance)
      → Preserves AllSound (record_instance out settings job plan server existing)
  Preserves-record_instance job plan server none = search stage_rules depth 10
  Preserves-record_instance job plan server (some vps) = search stage_rules depth 10

  Preserves-record_server :
      (id : ℕ) (token : String) (plan : Plan out settings) (server : ProviderServer)
      → Preserves AllSound (record_server out settings id token plan server)
  unfolding record_server
  Preserves-record_server id token plan server =
      search (stage_rules, Preserves-record_instance) depth 30

  Preserves-follow_plan :
      (id : ℕ) (token : String) (now : ℕ) (plan : Option (Plan out settings))
      → Preserves AllSound (follow_plan out settings id token now plan)
  Preserves-follow_plan id token now none = Preserves-pure tt
  Preserves-follow_plan id token now (some plan) =
      search (reads, Preserves-found_or_created, Preserves-record_server)

  pub Preserves-stage_provisioning :
      (id : ℕ) (token : String) → Preserves AllSound (stage_provisioning out settings id token)
  unfolding stage_provisioning
  Preserves-stage_provisioning id token =
      search (reads, Preserves-utc_now, Preserves-plan_provisioning, Preserves-follow_plan)

  pub Preserves-sleep_pieces :
      (fuel id : ℕ) (token : String) (remaining : ℕ)
      → Preserves AllSound (sleep_pieces out settings fuel id token remaining)
  unfolding sleep_pieces
  Preserves-sleep_pieces zero id token remaining = Preserves-pure tt
  Preserves-sleep_pieces (suc fuel) id token remaining =
      let rest = Preserves-sleep_pieces fuel id token in search (stage_rules, rest) depth 20

  pub Preserves-sleep_with_lease :
      (id : ℕ) (token : String) (thirds : ℕ)
      → Preserves AllSound (sleep_with_lease out settings id token thirds)
  unfolding sleep_with_lease
  Preserves-sleep_with_lease id token thirds = Preserves-sleep_pieces thirds id token thirds

  Preserves-server_running :
      (id : ℕ) (token : String) (server : ProviderServer)
      → Preserves AllSound (server_running out settings id token server)
  unfolding server_running wait_for_vps_boot_grace
  Preserves-server_running id token server =
      search (stage_rules, Preserves-sleep_with_lease) depth 30

  Preserves-server_vanished : (id : ℕ) → Preserves AllSound (server_vanished out settings id)
  unfolding server_vanished
  Preserves-server_vanished id = search stage_rules depth 20

  Preserves-after_wait :
      (id : ℕ) (token : String) (server : Option ProviderServer)
      → Preserves AllSound (after_wait out settings id token server)
  Preserves-after_wait id token none = Preserves-server_vanished id
  Preserves-after_wait id token (some server) = Preserves-server_running id token server

  Preserves-server_to_await :
      (id : ℕ) (token : String) → Preserves AllSound (server_to_await out settings id token)
  unfolding server_to_await
  Preserves-server_to_await id token = search stage_rules depth 20

  pub Preserves-stage_provisioned :
      (id : ℕ) (token : String) → Preserves AllSound (stage_provisioned out settings id token)
  unfolding stage_provisioned
  Preserves-stage_provisioned id token =
      search (reads, Preserves-server_to_await, Preserves-after_wait)
