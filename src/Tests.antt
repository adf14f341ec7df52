-- ===== src/Tests.antt =====
-- Inputs at which the theorems are applied: a vCenter that answers every call, a VSphereVM, and
-- what one reconcile of it starts from.
pub mod Tasks
pub mod Machines
pub mod Reconciles
pub mod Clusters
pub mod Encodings
pub mod Groups
pub mod Addresses
pub mod VimMachines
pub mod Webhooks
pub mod Controllers
use cluster_api_provider_vsp.Prelude.{true, false, none, some, [], ◌∷◌}
use cluster_api_provider_vsp.Errors.{ok, err, errorf}
use cluster_api_provider_vsp.Api.{
  VsphereVm, PowerOpMode, PowerState, pending, soft, powered_on, powered_off,
}
use cluster_api_provider_vsp.World.{World, TaskInfo, OperationResult, running}
use cluster_api_provider_vsp.Vm.Context.{Context}
use cluster_api_provider_vsp.Vm.Services.{Services}

-- a task that is at work, a VM that is off, and no BIOS UUID that is known
abbrev pub vcenter : World
vcenter = record {
  now = λ tr. 1000;
  retrieve_task = λ tr ref. ok (record { state = running; error = none });
  find_by_bios_uuid = λ tr uuid. ok none;
  find_by_instance_uuid = λ tr uuid. ok (some "vm-1");
  folder_or_default = λ tr folder. ok "/dc/vm";
  find_virtual_machine = λ tr path. ok "vm-1";
  is_vc = true;
  uuid = λ tr ref. "4210";
  power_state = λ tr ref. ok powered_off;
  tools_running = λ tr ref. ok true;
  guest_state_change_supported = λ tr ref. ok (some true);
  hardware_version = λ tr ref. ok "vmx-19";
  devices = λ tr ref. ok (λ spec. 0);
  host_name = λ tr ref. ok "esx-1";
  new_pbm_client = λ tr. none;
  profile_id_by_name = λ tr name. ok "profile-1";
  disk_ids = λ tr ref. ok [];
  associated_profiles = λ tr disks. ok [];
  find_cluster = λ tr name. ok "cluster-1";
  cluster_groups = λ tr ref. ok [];
  power_on = λ tr ref. ok "task-2";
  power_off = λ tr ref. ok "task-3";
  destroy = λ tr ref. ok "task-4";
  upgrade_vm = λ tr ref version. ok "task-5";
  reconfigure = λ tr ref spec. ok "task-6";
  add_to_vm_group = λ tr cluster group ref. ok "task-7";
  shutdown_guest = λ tr ref. none;
  add_pci_devices = λ tr ref specs. none;
  attach_tags = λ tr ref tags. none;
  add_to_module = λ tr m ref. none;
  remove_from_module = λ tr m ref. none;
  get_secret = λ tr name. ok (record { format = none; value = some "#cloud-config" });
  patch = λ tr. none;
  get_claim =
      λ tr name. ok (record { address_ref_name = ""; has_ready = false; has_finalizer = true });
  create_or_patch_claim = λ tr name pool. ok (
    record { address_ref_name = "ip-1"; has_ready = false; has_finalizer = true },
    OperationResult.unchanged,
  );
  remove_claim_finalizer = λ tr name. none;
  get_cluster = λ tr. ok false;
  get_cluster_client = λ tr. none;
  delete_node = λ tr name. some (errorf "connection refused");
  owner_name = λ tr is_control_plane. ok "md-0";
  set_aggregate = λ tr. none;
  has_condition = λ tr t. true;
  last_transition_time = λ tr t. 500;
}

abbrev pub services : Services
services = record {
  clone = λ tr vm bootstrap format. ok "task-1";
  network_status = λ tr ref. ok [];
  ipam_state = λ tr vm networks. ok [];
  machine_metadata = λ vm state networks. ok "metadata";
  existing_metadata = λ tr ref. ok "metadata";
}

abbrev pub machine : VsphereVm
machine = record {
  name = "md-0-abc";
  namespace = "default";
  uid = "uid-1";
  is_deleted = false;
  has_finalizer = true;
  spec = record {
    bios_uuid = "";
    bootstrap_ref_name = "bootstrap";
    folder = "vm";
    power_off_mode = PowerOpMode.try_soft;
    guest_soft_power_off_timeout_seconds = 0;
    storage_policy_name = "";
    hardware_version = "";
    pci_devices = [];
    tag_ids = [];
    devices = [];
    routes = [];
  };
  status = record {
    task_ref = "";
    retry_after = 0;
    ready = none;
    addresses = [];
    host = "";
    module_uuid = none;
    network = [];
    vm_ref = "";
  };
}

abbrev pub context : Context
context = record {
  vsphere_vm = machine;
  vm = record { name = ""; bios_uuid = ""; state = pending; network = []; vm_ref = "" };
  cluster_module_info = none;
  failure_domain = none;
  ipam_state = [];
  trace = [];
}

-- the same, with a task in flight
abbrev pub with_task : Context
with_task = record context {
  vsphere_vm = record machine { status = record machine.status { task_ref = "task-1" } };
}

-- the VM is on, and has an address
abbrev pub running_vm : World
running_vm = record vcenter { power_state = λ tr ref. ok powered_on }

abbrev pub networked : Services
networked = record services {
  network_status = λ tr ref. ok (
      record {
        connected = some true;
        ip_addrs = "10.0.0.5" ∷ [];
        mac_addr = "m";
        network_name = "n";
      }
      ∷ []);
}
