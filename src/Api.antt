-- ===== src/Api.antt =====
-- The API objects that the VM controller reads and writes (api/govmomi/v1beta2), as far as the
-- modelled code uses them, and the result of the VM service (pkg/services/interfaces.go).
pub mod Conditions
use cluster_api_provider_vsp.Prelude.{ℕ, String, Bool, Option, List}

-- `VirtualMachinePowerOpMode`; the empty text is `unset`.
pub data PowerOpMode : Type 0 where
  unset hard soft try_soft : PowerOpMode

-- The power state that vCenter reports; `unknown_state` is any other text.
pub data PowerState : Type 0 where
  powered_on powered_off suspended : PowerState
  unknown_state : String → PowerState

pub record IpPoolReference : Type 0 where
  pub api_group : String
  pub kind : String
  pub name : String

pub record NetworkRouteSpec : Type 0 where
  pub to : String
  pub via : String
  pub metric : Option ℕ

pub record NetworkDeviceSpec : Type 0 where
  pub dhcp4 : Option Bool
  pub dhcp6 : Option Bool
  pub gateway4 : String
  pub gateway6 : String
  pub ip_addrs : List String
  pub mac_addr : String
  pub routes : List NetworkRouteSpec
  pub addresses_from_pools : List IpPoolReference
  pub skip_ip_allocation : Option Bool

pub record NetworkStatus : Type 0 where
  pub connected : Option Bool
  pub ip_addrs : List String
  pub mac_addr : String
  pub network_name : String

pub record PciDeviceSpec : Type 0 where
  pub device_id : Option ℕ
  pub vendor_id : Option ℕ
  pub vgpu_profile : String
  pub custom_label : String

pub record VsphereVmSpec : Type 0 where
  pub bios_uuid : String
  pub bootstrap_ref_name : String
  pub folder : String
  pub power_off_mode : PowerOpMode
  -- int32, at least 1 where it is set, and 0 where it is not
  pub guest_soft_power_off_timeout_seconds : ℕ
  pub storage_policy_name : String
  pub hardware_version : String
  pub pci_devices : List PciDeviceSpec
  pub tag_ids : List String
  pub devices : List NetworkDeviceSpec
  pub routes : List NetworkRouteSpec

-- Times are nanoseconds; 0 is the zero `metav1.Time`.
pub record VsphereVmStatus : Type 0 where
  pub task_ref : String
  pub retry_after : ℕ
  pub ready : Option Bool
  pub addresses : List String
  pub host : String
  pub module_uuid : Option String
  pub network : List NetworkStatus
  pub vm_ref : String

pub record VsphereVm : Type 0 where
  pub name : String
  pub namespace : String
  pub uid : String
  -- the deletion timestamp is set
  pub is_deleted : Bool
  pub has_finalizer : Bool
  pub spec : VsphereVmSpec
  pub status : VsphereVmStatus

pub record FailureDomainTopology : Type 0 where
  pub compute_cluster : String
  -- `Hosts.VMGroupName`, where `Hosts.IsDefined()`
  pub vm_group_name : Option String

pub data VirtualMachineState : Type 0 where
  not_found pending ready_state : VirtualMachineState

pub record VirtualMachine : Type 0 where
  pub name : String
  pub bios_uuid : String
  pub state : VirtualMachineState
  pub network : List NetworkStatus
  pub vm_ref : String

pub record ClusterModule : Type 0 where
  pub control_plane : Option Bool
  pub target_object_name : String
  pub module_uuid : String
