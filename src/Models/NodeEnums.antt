-- ===== src/Models/NodeEnums.antt =====
-- app/models/enums.py: the enumerations of nodes, providers, servers and deployments.
use aso_node_recovery.Prelude.{ℕ, ◌≡◌, refl, Comparable, eqb, eq_by_code, if◌then◌else◌}

-- `NodeState`
pub data NodeState : Type 0 where
  unknown healthy degraded failed replacing deploying verifying disabled : NodeState

abbrev pub node_state_code : NodeState → ℕ
node_state_code NodeState.unknown = 0
node_state_code NodeState.healthy = 1
node_state_code NodeState.degraded = 2
node_state_code NodeState.failed = 3
node_state_code NodeState.replacing = 4
node_state_code NodeState.deploying = 5
node_state_code NodeState.verifying = 6
node_state_code NodeState.disabled = 7

abbrev pub node_state_of : ℕ → NodeState
node_state_of n =
    if eqb n 0
    then NodeState.unknown
    else if eqb n 1
    then NodeState.healthy
    else if eqb n 2
    then NodeState.degraded
    else if eqb n 3
    then NodeState.failed
    else if eqb n 4
    then NodeState.replacing
    else if eqb n 5
    then NodeState.deploying
    else if eqb n 6
    then NodeState.verifying
    else NodeState.disabled

pub node_state_of_code : (a : NodeState) → node_state_of (node_state_code a) ≡ a
node_state_of_code NodeState.unknown = refl
node_state_of_code NodeState.healthy = refl
node_state_of_code NodeState.degraded = refl
node_state_of_code NodeState.failed = refl
node_state_of_code NodeState.replacing = refl
node_state_of_code NodeState.deploying = refl
node_state_of_code NodeState.verifying = refl
node_state_of_code NodeState.disabled = refl

instance abbrev pub node_state_eq : Comparable NodeState
node_state_eq = eq_by_code node_state_code node_state_of node_state_of_code

-- `NodeOperationMode`
pub data NodeOperationMode : Type 0 where
  disabled monitor_only auto_repair : NodeOperationMode

abbrev pub node_operation_mode_code : NodeOperationMode → ℕ
node_operation_mode_code NodeOperationMode.disabled = 0
node_operation_mode_code NodeOperationMode.monitor_only = 1
node_operation_mode_code NodeOperationMode.auto_repair = 2

abbrev pub node_operation_mode_of : ℕ → NodeOperationMode
node_operation_mode_of n =
    if eqb n 0
    then NodeOperationMode.disabled
    else if eqb n 1
    then NodeOperationMode.monitor_only
    else NodeOperationMode.auto_repair

pub node_operation_mode_of_code :
    (a : NodeOperationMode) → node_operation_mode_of (node_operation_mode_code a) ≡ a
node_operation_mode_of_code NodeOperationMode.disabled = refl
node_operation_mode_of_code NodeOperationMode.monitor_only = refl
node_operation_mode_of_code NodeOperationMode.auto_repair = refl

instance abbrev pub node_operation_mode_eq : Comparable NodeOperationMode
node_operation_mode_eq =
    eq_by_code node_operation_mode_code node_operation_mode_of node_operation_mode_of_code

-- `ProviderType`
pub data ProviderType : Type 0 where
  hetzner linode : ProviderType

abbrev pub provider_type_code : ProviderType → ℕ
provider_type_code ProviderType.hetzner = 0
provider_type_code ProviderType.linode = 1

abbrev pub provider_type_of : ℕ → ProviderType
provider_type_of n = if eqb n 0 then ProviderType.hetzner else ProviderType.linode

pub provider_type_of_code : (a : ProviderType) → provider_type_of (provider_type_code a) ≡ a
provider_type_of_code ProviderType.hetzner = refl
provider_type_of_code ProviderType.linode = refl

instance abbrev pub provider_type_eq : Comparable ProviderType
provider_type_eq = eq_by_code provider_type_code provider_type_of provider_type_of_code

-- `SshAuthMethod`
pub data SshAuthMethod : Type 0 where
  private_key password : SshAuthMethod

abbrev pub ssh_auth_method_code : SshAuthMethod → ℕ
ssh_auth_method_code SshAuthMethod.private_key = 0
ssh_auth_method_code SshAuthMethod.password = 1

abbrev pub ssh_auth_method_of : ℕ → SshAuthMethod
ssh_auth_method_of n = if eqb n 0 then SshAuthMethod.private_key else SshAuthMethod.password

pub ssh_auth_method_of_code : (a : SshAuthMethod) → ssh_auth_method_of (ssh_auth_method_code a) ≡ a
ssh_auth_method_of_code SshAuthMethod.private_key = refl
ssh_auth_method_of_code SshAuthMethod.password = refl

instance abbrev pub ssh_auth_method_eq : Comparable SshAuthMethod
ssh_auth_method_eq = eq_by_code ssh_auth_method_code ssh_auth_method_of ssh_auth_method_of_code

-- `VpsInstanceState`
pub data VpsInstanceState : Type 0 where
  provisioning running deleting deleted error : VpsInstanceState

abbrev pub vps_instance_state_code : VpsInstanceState → ℕ
vps_instance_state_code VpsInstanceState.provisioning = 0
vps_instance_state_code VpsInstanceState.running = 1
vps_instance_state_code VpsInstanceState.deleting = 2
vps_instance_state_code VpsInstanceState.deleted = 3
vps_instance_state_code VpsInstanceState.error = 4

abbrev pub vps_instance_state_of : ℕ → VpsInstanceState
vps_instance_state_of n =
    if eqb n 0
    then VpsInstanceState.provisioning
    else if eqb n 1
    then VpsInstanceState.running
    else if eqb n 2
    then VpsInstanceState.deleting
    else if eqb n 3
    then VpsInstanceState.deleted
    else VpsInstanceState.error

pub vps_instance_state_of_code :
    (a : VpsInstanceState) → vps_instance_state_of (vps_instance_state_code a) ≡ a
vps_instance_state_of_code VpsInstanceState.provisioning = refl
vps_instance_state_of_code VpsInstanceState.running = refl
vps_instance_state_of_code VpsInstanceState.deleting = refl
vps_instance_state_of_code VpsInstanceState.deleted = refl
vps_instance_state_of_code VpsInstanceState.error = refl

instance abbrev pub vps_instance_state_eq : Comparable VpsInstanceState
vps_instance_state_eq =
    eq_by_code vps_instance_state_code vps_instance_state_of vps_instance_state_of_code

-- `VpsInstanceRole`
pub data VpsInstanceRole : Type 0 where
  current replacement : VpsInstanceRole

abbrev pub vps_instance_role_code : VpsInstanceRole → ℕ
vps_instance_role_code VpsInstanceRole.current = 0
vps_instance_role_code VpsInstanceRole.replacement = 1

abbrev pub vps_instance_role_of : ℕ → VpsInstanceRole
vps_instance_role_of n = if eqb n 0 then VpsInstanceRole.current else VpsInstanceRole.replacement

pub vps_instance_role_of_code :
    (a : VpsInstanceRole) → vps_instance_role_of (vps_instance_role_code a) ≡ a
vps_instance_role_of_code VpsInstanceRole.current = refl
vps_instance_role_of_code VpsInstanceRole.replacement = refl

instance abbrev pub vps_instance_role_eq : Comparable VpsInstanceRole
vps_instance_role_eq =
    eq_by_code vps_instance_role_code vps_instance_role_of vps_instance_role_of_code

-- `DeploymentState`
pub data DeploymentState : Type 0 where
  pending waiting_ssh bootstrapping installing verifying succeeded failed : DeploymentState

abbrev pub deployment_state_code : DeploymentState → ℕ
deployment_state_code DeploymentState.pending = 0
deployment_state_code DeploymentState.waiting_ssh = 1
deployment_state_code DeploymentState.bootstrapping = 2
deployment_state_code DeploymentState.installing = 3
deployment_state_code DeploymentState.verifying = 4
deployment_state_code DeploymentState.succeeded = 5
deployment_state_code DeploymentState.failed = 6

abbrev pub deployment_state_of : ℕ → DeploymentState
deployment_state_of n =
    if eqb n 0
    then DeploymentState.pending
    else if eqb n 1
    then DeploymentState.waiting_ssh
    else if eqb n 2
    then DeploymentState.bootstrapping
    else if eqb n 3
    then DeploymentState.installing
    else if eqb n 4
    then DeploymentState.verifying
    else if eqb n 5
    then DeploymentState.succeeded
    else DeploymentState.failed

pub deployment_state_of_code :
    (a : DeploymentState) → deployment_state_of (deployment_state_code a) ≡ a
deployment_state_of_code DeploymentState.pending = refl
deployment_state_of_code DeploymentState.waiting_ssh = refl
deployment_state_of_code DeploymentState.bootstrapping = refl
deployment_state_of_code DeploymentState.installing = refl
deployment_state_of_code DeploymentState.verifying = refl
deployment_state_of_code DeploymentState.succeeded = refl
deployment_state_of_code DeploymentState.failed = refl

instance abbrev pub deployment_state_eq : Comparable DeploymentState
deployment_state_eq = eq_by_code deployment_state_code deployment_state_of deployment_state_of_code
