-- ===== src/System/Examples.antt =====
-- A day of the service: checks, a replacement that an operator starts, and what follows.
use aso_node_recovery.Prelude.{List, [], arith, put, ◌∷◌}
use aso_node_recovery.Errors.{Error, err, ok}
use aso_node_recovery.Models.NodeEnums.{NodeOperationMode, NodeState}
use aso_node_recovery.Monitoring.Client.{CheckHost}
use aso_node_recovery.Registry.Management.History.{Operation}
use aso_node_recovery.Replacement.SampleWorld.{
  jobless_db, plain_node, plain_outside, plain_settings,
}
use aso_node_recovery.Replacement.Sound.{AllSound}
use aso_node_recovery.Runtime.{World}
use aso_node_recovery.System.{Step, take_steps, take_steps-AllSound}

abbrev answering : CheckHost
answering = record {
  resolve_nodes = λ _. ok ("ir1" ∷ []);
  create_tcp_check =
      λ _ _ _ nodes. ok (record { request_id = "r1"; nodes = nodes; target = "198.51.100.7:2053" });
  poll_result = λ _ _. err Error.check_host_error;
}

abbrev failed_world : World
failed_world = record {
  db = record jobless_db {
    nodes = put jobless_db.nodes 1 (record plain_node { state = NodeState.failed });
  };
  effects = [];
  calls = 0;
}

failed_world-AllSound : AllSound failed_world.db
failed_world-AllSound = record { row = λ id job e. absurd (ground arith) }

abbrev steps : List Step
steps =
    Step.check_now 1
    ∷ Step.replace_node 1
    ∷ Step.switch_mode 1 NodeOperationMode.disabled
    ∷ Step.repair_all
    ∷ Step.change_registry (Operation.forget_node 1)
    ∷ Step.monitor_all
    ∷ []

take_steps-AllSound_example :
    AllSound (take_steps plain_outside answering plain_settings steps failed_world).db
take_steps-AllSound_example =
    take_steps-AllSound plain_outside answering plain_settings (ground arith) steps failed_world
      failed_world-AllSound
