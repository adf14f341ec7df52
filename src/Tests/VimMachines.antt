-- ===== src/Tests/VimMachines.antt =====
-- The theorems on VSphereMachines, at concrete inputs.
use cluster_api_provider_vsp.Prelude.{
  ◌≤◌, ◌<◌, true, false, ◌≡◌, ◌↔◌, refl, none, some, [], ◌∷◌, arith, lookup,
}
use cluster_api_provider_vsp.Errors.{ok, err, library, api_not_found}
use cluster_api_provider_vsp.Api.{soft}
use cluster_api_provider_vsp.Machine.ProviderId.{
  matches_uuid, convert_provider_id_to_uuid, convert_uuid_to_provider_id,
}
use cluster_api_provider_vsp.VimMachine.{CloneSpec, MachineVm, VimMachine, CapiMachine}
use cluster_api_provider_vsp.VimMachine.Names.{
  text_length, generate_vm_object_name, object_name-windows,
}
use cluster_api_provider_vsp.VimMachine.World.{MachineWorld, MachineState}
use cluster_api_provider_vsp.VimMachine.Service.{finish_vm}
use cluster_api_provider_vsp.VimMachine.Ready.{
  IsDone, addresses_of, finish_vm-IsDone, finish_vm-provider_id,
}
use cluster_api_provider_vsp.VimMachine.Controller.{delete_machine}
use cluster_api_provider_vsp.VimMachine.Deletion.{gone_under, delete_machine-finalizer}
use cluster_api_provider_vsp.VimMachine.Reconcile.{reconcile_machine}
use cluster_api_provider_vsp.VimMachine.Spares.{Spares}
use cluster_api_provider_vsp.VimMachine.Safety.{reconcile_machine-Spares}
use cluster_api_provider_vsp.Tests.Groups.{templates}

abbrev spec : CloneSpec
spec = record {
  server = "vc1";
  thumbprint = "";
  datacenter = "dc0";
  folder = "";
  resource_pool = "";
  datastore = "";
  devices = [];
  other_fields = "template: ubuntu";
}

abbrev vim_machine : VimMachine
vim_machine = record {
  name = "worker-1";
  uid = "u1";
  is_deleted = false;
  has_finalizer = true;
  is_control_plane = false;
  owner_references = [];
  is_windows = true;
  naming_template = "";
  clone_spec = spec;
  provider_id = "";
  power_off_mode = soft;
  guest_soft_power_off_timeout_seconds = 0;
  failure = none;
  network = [];
  addresses = [];
  provisioned = none;
  condition = none;
  condition_v1beta1 = none;
}

abbrev ready_vm : MachineVm
ready_vm = record {
  name = "worker-1";
  is_deleted = false;
  owner_references = [];
  labels = [];
  bootstrap_ref = "secret";
  clone_spec = spec;
  bios_uuid = "42305f0b-dad7-1d3d-5727-0eaffffffffc";
  power_off_mode = soft;
  guest_soft_power_off_timeout_seconds = 0;
  ready = some true;
  addresses = [];
  network = [];
  host = "esx-1";
  provisioned = some true;
  failure = none;
}

abbrev owner : CapiMachine
owner = record {
  name = "worker-1";
  labels = [];
  failure_domain = "";
  data_secret_name = some "secret";
}

-- all calls succeed
abbrev machine_world : MachineWorld
machine_world = record {
  templates = templates;
  ensure_owner_ref = λ refs. λ ref. ref ∷ [];
  remove_owner_ref = λ refs. λ ref. [];
  get_machine = λ tr. ok vim_machine;
  get_owner_machine = λ tr. ok (some owner);
  add_owners = λ tr. none;
  get_cluster = λ tr. ok (record {
    infrastructure_ref = some (record { kind = "VSphereCluster"; name = "c1"; uid = "" });
    infrastructure_provisioned = some true;
    control_plane_initialized = true;
  });
  ensure_finalizer = λ tr. ok false;
  new_patch_helper = λ tr. none;
  ensure_paused = λ tr. ok (false, false);
  get_vsphere_cluster = λ tr. ok (record { server = "vc0"; thumbprint = "aa" });
  set_summary = λ tr. none;
  patch_machine = λ tr. none;
  get_vm = λ tr. λ name. ok ready_vm;
  delete_vm = λ tr. λ name. none;
  write_vm = λ tr. λ vm. ok vm;
  get_zone = λ tr. λ name.
      ok (record { server = "vc2"; failure_domain = "fd"; folder = ""; resource_pool = "" });
  get_failure_domain = λ tr. λ name.
      ok
        (record { datacenter = "dc2"; datastore = ""; networks = []; network_configurations = [] });
  sanitize_host_info = λ s. s;
  is_valid_label_value = λ s. true;
  patch_host_label = λ tr. λ s. none;
}

abbrev start_state : MachineState
start_state = record { machine = vim_machine; calls = [] }

-- the whole reconcile runs to its end
serves : (reconcile_machine machine_world start_state).0 ≡ ok none
unfolding reconcile_machine lookup convert_uuid_to_provider_id
serves = refl

reconcile_machine-Spares_example : Spares (reconcile_machine machine_world start_state).1
reconcile_machine-Spares_example =
    reconcile_machine-Spares machine_world vim_machine start_state refl refl refl tt

vm-IsDone : IsDone ready_vm
unfolding matches_uuid
vm-IsDone = (refl, refl)

finish_vm-IsDone_example : ((finish_vm ready_vm start_state).0 ≡ ok false) ↔ IsDone ready_vm
finish_vm-IsDone_example = finish_vm-IsDone ready_vm start_state

finish_vm-provider_id_example :
    (convert_provider_id_to_uuid (some (finish_vm ready_vm start_state).1.machine.provider_id)
      ≡ ready_vm.bios_uuid)
    × ((finish_vm ready_vm start_state).1.machine.provisioned ≡ some true)
    × ((finish_vm ready_vm start_state).1.machine.addresses ≡ addresses_of ready_vm)
finish_vm-provider_id_example = finish_vm-provider_id ready_vm start_state vm-IsDone

-- the VSphereVM is gone
abbrev empty_world : MachineWorld
empty_world = record machine_world {
  get_vm = λ tr. λ name. err (library api_not_found "vspherevms worker-1 not found");
}

delete_machine-finalizer_example :
    ((delete_machine empty_world owner start_state).1.machine.has_finalizer ≡ false) ↔ (
      gone_under empty_world []
        (generate_vm_object_name empty_world.templates vim_machine owner.name)
      ≡ true)
delete_machine-finalizer_example = delete_machine-finalizer empty_world owner start_state refl

short :
    generate_vm_object_name templates vim_machine "my-cluster-md-0-abcde-fghij"
    ≡ ok "my-cluste-fghij"
unfolding generate_vm_object_name
short = refl

long_name : 15 < text_length "my-cluster-md-0-abcde-fghij"
unfolding text_length
long_name = omega arith

object_name-windows_example : text_length "my-cluste-fghij" ≤ 15
object_name-windows_example =
    object_name-windows templates vim_machine "my-cluster-md-0-abcde-fghij" "my-cluste-fghij" refl
      long_name short
