-- ===== src/VimMachine.antt =====
-- A VSphereMachine and the VSphereVM that it makes (pkg/services/vimmachine.go,
-- controllers/vspheremachine_controller.go): the objects, the calls and the state of a reconcile.
pub mod Names
pub mod Override
pub mod World
pub mod Desired
pub mod Service
pub mod Controller
pub mod Reconcile
pub mod Ready
pub mod Spares
pub mod Safety
pub mod Deletion
use cluster_api_provider_vsp.Prelude.{ℕ, String, Bool, Option, List}
use cluster_api_provider_vsp.Errors.{Error, Outcome}
use cluster_api_provider_vsp.Api.{PowerOpMode, IpPoolReference, NetworkStatus}
use cluster_api_provider_vsp.Exec.{Exec}

-- `NetworkDeviceSpec`, with the fields that a failure domain sets; the others are one value.
pub record MachineDevice : Type 0 where
  pub network_name : String
  pub dhcp4 : Option Bool
  pub dhcp6 : Option Bool
  pub nameservers : List String
  pub search_domains : List String
  pub dhcp4_overrides : Option String
  pub dhcp6_overrides : Option String
  pub addresses_from_pools : List IpPoolReference
  pub other_fields : String

-- `NetworkConfiguration` of a failure domain
pub record NetworkConfiguration : Type 0 where
  pub network_name : String
  pub dhcp4 : Option Bool
  pub dhcp6 : Option Bool
  pub nameservers : List String
  pub search_domains : List String
  pub dhcp4_overrides : Option String
  pub dhcp6_overrides : Option String
  pub addresses_from_pools : List IpPoolReference

-- `VirtualMachineCloneSpec`; the fields that this code only copies are one value
pub record CloneSpec : Type 0 where
  pub server : String
  pub thumbprint : String
  pub datacenter : String
  pub folder : String
  pub resource_pool : String
  pub datastore : String
  pub devices : List MachineDevice
  pub other_fields : String

pub record DeploymentZone : Type 0 where
  pub server : String
  pub failure_domain : String
  -- `PlacementConstraint`
  pub folder : String
  pub resource_pool : String

pub record FailureDomain : Type 0 where
  pub datacenter : String
  pub datastore : String
  pub networks : List String
  pub network_configurations : List NetworkConfiguration

pub record MachineOwner : Type 0 where
  pub kind : String
  pub name : String
  pub uid : String

pub record FailureReport : Type 0 where
  pub reason : Option String
  pub message : Option String

-- the VSphereVM, as its VSphereMachine sees it
pub record MachineVm : Type 0 where
  pub name : String
  pub is_deleted : Bool
  pub owner_references : List MachineOwner
  pub labels : List (String × String)
  pub bootstrap_ref : String
  pub clone_spec : CloneSpec
  pub bios_uuid : String
  pub power_off_mode : PowerOpMode
  pub guest_soft_power_off_timeout_seconds : ℕ
  pub ready : Option Bool
  pub addresses : List String
  pub network : List NetworkStatus
  pub host : String
  -- the status of its VirtualMachineProvisioned condition, where it is there
  pub provisioned : Option Bool
  pub failure : Option FailureReport

pub data MachineAddress : Type 0 where
  external_ip internal_dns : String → MachineAddress

pub data MachineReason : Type 0 where
  machine_provisioned machine_not_provisioned waiting_for_network_address : MachineReason
  waiting_for_cluster_infrastructure waiting_for_control_plane_initialized : MachineReason
  waiting_for_bootstrap_data : MachineReason
  machine_deleting : (with_message : Bool) → MachineReason

-- The VirtualMachineProvisioned condition of the VSphereMachine: set by this code, or mirrored from
-- the VSphereVM.
pub data MachineCondition : Type 0 where
  stated : (status : Bool) → MachineReason → MachineCondition
  mirrored : Option Bool → MachineCondition

-- VMProvisioned of v1beta1, which is set beside it
pub data MachineReasonV1Beta1 : Type 0 where
  network_addresses_v1beta1 deleting_v1beta1 deletion_failed_v1beta1 : MachineReasonV1Beta1
  cluster_infrastructure_v1beta1 control_plane_v1beta1 bootstrap_data_v1beta1 : MachineReasonV1Beta1

pub data MachineConditionV1Beta1 : Type 0 where
  marked_true : MachineConditionV1Beta1
  marked_false : MachineReasonV1Beta1 → MachineConditionV1Beta1
  mirrored_v1beta1 : MachineConditionV1Beta1

pub record VimMachine : Type 0 where
  pub name : String
  pub uid : String
  pub is_deleted : Bool
  pub has_finalizer : Bool
  -- it has the control plane label
  pub is_control_plane : Bool
  pub owner_references : List MachineOwner
  pub is_windows : Bool
  pub naming_template : String
  pub clone_spec : CloneSpec
  pub provider_id : String
  pub power_off_mode : PowerOpMode
  pub guest_soft_power_off_timeout_seconds : ℕ
  pub failure : Option FailureReport
  pub network : List NetworkStatus
  pub addresses : List MachineAddress
  pub provisioned : Option Bool
  pub condition : Option MachineCondition
  pub condition_v1beta1 : Option MachineConditionV1Beta1

-- the CAPI Machine
pub record CapiMachine : Type 0 where
  pub name : String
  pub labels : List (String × String)
  pub failure_domain : String
  pub data_secret_name : Option String

-- the CAPI Cluster and its VSphereCluster
pub record CapiCluster : Type 0 where
  -- `Spec.InfrastructureRef`, where it is defined
  pub infrastructure_ref : Option MachineOwner
  pub infrastructure_provisioned : Option Bool
  pub control_plane_initialized : Bool

pub record VsphereCluster : Type 0 where
  pub server : String
  pub thumbprint : String
