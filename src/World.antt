-- ===== src/World.antt =====
-- What the controller calls outside this repository: vCenter through govmomi, the API server, the
-- store of conditions and the clock. Each call is recorded, and the answer of a call may depend on
-- all the calls before it, so that nothing is assumed of what others do in between.
use cluster_api_provider_vsp.Prelude.{ℕ, String, Bool, Option, List}
use cluster_api_provider_vsp.Errors.{Error, Outcome}
use cluster_api_provider_vsp.Api.{PowerState, PciDeviceSpec, IpPoolReference}
use cluster_api_provider_vsp.Api.Conditions.{ConditionType, ConditionWrite}

-- A `types.ManagedObjectReference`, by its text. Tasks are named by the value alone.
abbrev pub MoRef : Type 0
MoRef = String

pub data TaskState : Type 0 where
  queued running success error_state : TaskState
  unknown_task_state : String → TaskState

-- `task.Info.Error.Fault`: `InvalidPowerState{ExistingState, RequestedState}`, or another fault.
pub data MethodFault : Type 0 where
  invalid_power_state : (existing : PowerState) → (requested : PowerState) → MethodFault
  other_fault : MethodFault

pub record TaskError : Type 0 where
  pub fault : MethodFault
  pub localized_message : String

pub record TaskInfo : Type 0 where
  pub state : TaskState
  pub error : Option TaskError

-- A disk of the VM and the storage profiles of it, as the policy server reports them.
pub record ProfileResult : Type 0 where
  pub key : String
  pub profile_ids : List String

pub record ClusterVmGroup : Type 0 where
  pub name : String
  pub vms : List MoRef

-- The change that a `Reconfigure` of a VM asks for.
pub data ConfigSpec : Type 0 where
  metadata_config : String → ConfigSpec
  storage_profile_config : (profile_id : String) → (disk_keys : List String) → ConfigSpec

pub record SecretData : Type 0 where
  pub format : Option String
  pub value : Option String

pub record IpAddressClaim : Type 0 where
  -- `Status.AddressRef.Name`
  pub address_ref_name : String
  -- it has a Ready condition
  pub has_ready : Bool
  -- it has the finalizer of this controller
  pub has_finalizer : Bool

-- The result of `CreateOrPatch`, as far as it is read.
pub data OperationResult : Type 0 where
  created updated unchanged : OperationResult

pub data Call : Type 0 where
  -- calls that only read
  retrieve_task : String → Call
  find_by_bios_uuid find_by_instance_uuid : String → Call
  folder_or_default find_virtual_machine : String → Call
  query_uuid query_power_state query_tools_running query_guest_state_change : MoRef → Call
  query_hardware_version query_devices query_network query_metadata query_host : MoRef → Call
  new_pbm_client : Call
  profile_id_by_name : String → Call
  query_disks : MoRef → Call
  query_associated_profiles : List String → Call
  build_ipam_state : Call
  find_cluster query_cluster_configuration : String → Call
  get_secret get_claim : String → Call
  get_cluster get_cluster_client fetch_owner : Call
  read_clock : Call
  -- calls that start a task of vCenter, or change the VM or the inventory
  clone : (bootstrap : Option String) → (format : String) → Call
  power_on power_off destroy shutdown_guest : MoRef → Call
  upgrade_vm : MoRef → (version : String) → Call
  reconfigure : MoRef → ConfigSpec → Call
  add_pci_devices : MoRef → List PciDeviceSpec → Call
  add_to_vm_group : (cluster : String) → (group : String) → MoRef → Call
  attach_tags : MoRef → List String → Call
  add_to_module remove_from_module : (module_uuid : String) → MoRef → Call
  -- calls that write to the API server
  patch : Call
  create_or_patch_claim : String → IpPoolReference → Call
  remove_claim_finalizer : String → Call
  delete_node : String → Call
  -- a write to the conditions of the object
  write_condition : ConditionWrite → Call
  -- goroutines that the code starts and does not wait for
  watch_task : String → Call
  watch_network : MoRef → Call

-- The calls so far, the newest first.
abbrev pub Trace : Type 0
Trace = List Call

pub record World : Type 0 where
  -- the clock, in nanoseconds
  pub now : Trace → ℕ
  -- vCenter
  pub retrieve_task : Trace → String → Outcome TaskInfo
  pub find_by_bios_uuid : Trace → String → Outcome (Option MoRef)
  pub find_by_instance_uuid : Trace → String → Outcome (Option MoRef)
  pub folder_or_default : Trace → String → Outcome String
  pub find_virtual_machine : Trace → String → Outcome MoRef
  pub is_vc : Bool
  pub uuid : Trace → MoRef → String
  pub power_state : Trace → MoRef → Outcome PowerState
  pub tools_running : Trace → MoRef → Outcome Bool
  pub guest_state_change_supported : Trace → MoRef → Outcome (Option Bool)
  pub hardware_version : Trace → MoRef → Outcome String
  -- how many of the VM's devices have the backing that the spec describes
  pub devices : Trace → MoRef → Outcome (PciDeviceSpec → ℕ)
  pub host_name : Trace → MoRef → Outcome String
  pub new_pbm_client : Trace → Option Error
  pub profile_id_by_name : Trace → String → Outcome String
  pub disk_ids : Trace → MoRef → Outcome (List String)
  pub associated_profiles : Trace → List String → Outcome (List ProfileResult)
  pub find_cluster : Trace → String → Outcome MoRef
  pub cluster_groups : Trace → MoRef → Outcome (List ClusterVmGroup)
  -- the calls that answer with the reference of the task that they started
  pub power_on : Trace → MoRef → Outcome String
  pub power_off : Trace → MoRef → Outcome String
  pub destroy : Trace → MoRef → Outcome String
  pub upgrade_vm : Trace → MoRef → String → Outcome String
  pub reconfigure : Trace → MoRef → ConfigSpec → Outcome String
  pub add_to_vm_group : Trace → String → String → MoRef → Outcome String
  -- the calls that answer with an error or nothing
  pub shutdown_guest : Trace → MoRef → Option Error
  pub add_pci_devices : Trace → MoRef → List PciDeviceSpec → Option Error
  pub attach_tags : Trace → MoRef → List String → Option Error
  pub add_to_module : Trace → String → MoRef → Option Error
  pub remove_from_module : Trace → String → MoRef → Option Error
  -- the API server
  pub get_secret : Trace → String → Outcome SecretData
  pub patch : Trace → Option Error
  pub get_claim : Trace → String → Outcome IpAddressClaim
  pub create_or_patch_claim :
      Trace → String → IpPoolReference → Outcome (IpAddressClaim × OperationResult)
  pub remove_claim_finalizer : Trace → String → Option Error
  -- the CAPI Cluster of the object, and whether it is being deleted
  pub get_cluster : Trace → Outcome Bool
  pub get_cluster_client : Trace → Option Error
  pub delete_node : Trace → String → Option Error
  -- the name of the KubeadmControlPlane (true) or the MachineDeployment that owns the Machine
  pub owner_name : Trace → Bool → Outcome String
  -- the error of `conditions.SetAggregateCondition`
  pub set_aggregate : Trace → Option Error
  -- the conditions of the object: `conditions.Has`, `conditions.GetLastTransitionTime`
  pub has_condition : Trace → ConditionType → Bool
  pub last_transition_time : Trace → ConditionType → ℕ
