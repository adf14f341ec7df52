-- ===== src/Controller/Reconcile.antt =====
-- `reconcile`, `reconcileNormal`, `reconcileDelete` and their helpers
-- (controllers/vspherevm_controller.go). A result is the time after which to come back, 0 for none.
pub mod Held
pub mod Outcomes
use cluster_api_provider_vsp.Prelude.{
  ℕ, ◌-◌, ◌*◌, String, Bool, true, false, not, ◌&&◌, ◌||◌, Option, none, some, List, [], ◌∷◌,
  is_empty, is_nil, deref, str_eq, ◌==◌, if◌then◌else◌,
}
use mathlib.Core.List
use cluster_api_provider_vsp.Errors.{
  Error, Outcome, ok, err, errorf, wrapped, is_api_not_found, is_cluster_not_connected,
}
use cluster_api_provider_vsp.Exec.{pure, fail, wrap, gets, modify, attempt, ◌>>=◌, ◌>>◌}
use cluster_api_provider_vsp.Api.{
  ClusterModule, NetworkDeviceSpec, NetworkStatus, VsphereVm, VirtualMachineState, not_found,
  pending, ready_state,
}
use cluster_api_provider_vsp.Api.Conditions.{
  ConditionType, ConditionStatus, V1Beta1Reason, Severity, Reason, Message,
  waiting_for_static_ip_allocation_v1beta1, waiting_for_ip_allocation_v1beta1, deleting_v1beta1,
  deletion_failed, vm_provisioned_v1beta1, waiting_for_static_ip_allocation,
  waiting_for_ip_allocation, provisioned, deleting, status_true, info, warning, no_message,
  error_text, mark_true,
}
use cluster_api_provider_vsp.World.{
  World, Call, read_clock, get_cluster, get_cluster_client, fetch_owner,
}
use cluster_api_provider_vsp.Vm.Context.{Context, Action, ask, try, perform, write, set_condition}
use cluster_api_provider_vsp.Vm.Power.{second}
use cluster_api_provider_vsp.Vm.Update.{not_yet_provisioned}
use cluster_api_provider_vsp.Controller.Claims.{
  reconcile_ip_address_claims, delete_ip_address_claims,
}
use cluster_api_provider_vsp.Controller.Service.{VmService}

-- a device with neither DHCP nor an address to come, which is not skipped
unfoldable pub lacks_address : NetworkDeviceSpec → Bool
lacks_address d =
    not (deref d.skip_ip_allocation false)
    && not (deref d.dhcp4 false || deref d.dhcp6 false)
    && (is_nil d.ip_addrs && is_nil d.addresses_from_pools)

unfoldable pub is_waiting_for_static_ip_allocation : List NetworkDeviceSpec → Bool
unfolding lacks_address
is_waiting_for_static_ip_allocation [] = false
is_waiting_for_static_ip_allocation (d ∷ ds) =
    if lacks_address d then true else is_waiting_for_static_ip_allocation ds

unfoldable pub all_addresses : List NetworkStatus → List String
all_addresses [] = []
all_addresses (n ∷ ns) = List.◌++◌ n.ip_addrs (all_addresses ns)

-- the status takes the networks of the VM, and all their addresses
unfoldable pub reconcile_network : Context → Context
unfolding all_addresses
reconcile_network s = record s {
  vsphere_vm = record s.vsphere_vm {
    status = record s.vsphere_vm.status {
      network = s.vm.network;
      addresses = all_addresses s.vm.network;
    };
  };
}

-- the first module for an object of that name
unfoldable pub find_module : String → List ClusterModule → Option String
find_module owner [] = none
find_module owner (m ∷ ms) =
    if str_eq m.target_object_name owner then some m.module_uuid else find_module owner ms

-- What `Reconcile` hands over with the VM's context.
pub record ReconcileInput : Type 0 where
  -- the feature gate NodeAntiAffinity
  pub node_anti_affinity : Bool
  pub disable_cluster_module : Option Bool
  pub cluster_modules : List ClusterModule
  -- the Machine has the control plane label
  pub is_control_plane : Bool

abbrev pub owner_module : List ClusterModule → Outcome String → Outcome (Option String)
owner_module modules (ok owner) = ok (find_module owner modules)
owner_module modules (err e) = if is_api_not_found e then ok none else err e

abbrev pub set_bios_uuid : String → VsphereVm → VsphereVm
set_bios_uuid u vm = record vm { spec = record vm.spec { bios_uuid = u } }

abbrev pub set_status_ref : String → VsphereVm → VsphereVm
set_status_ref ref vm = record vm { status = record vm.status { vm_ref = ref } }

abbrev pub set_ready : VsphereVm → VsphereVm
set_ready vm = record vm { status = record vm.status { ready = some true } }

-- an error of the cluster modules does not block a deletion
abbrev pub with_module_info : Outcome (Option String) → Action Unit
with_module_info (ok found) = modify (λ s. record s { cluster_module_info = found })
with_module_info (err e) = do
  is_deleted ← gets (λ s. s.vsphere_vm.is_deleted)
  if is_deleted then modify (λ s. record s { cluster_module_info = none }) else fail e

module _ (w : World) where
  unfoldable pub fetch_cluster_module_info : ReconcileInput → Action (Option String)
  unfolding find_module
  fetch_cluster_module_info input =
      try fetch_owner
        (λ tr. owner_module input.cluster_modules (w.owner_name tr input.is_control_plane))

  -- `conditions.Set` and `MarkFalse` of VMProvisioned
  unfoldable pub provisioned_true : Action Unit
  provisioned_true = do
    modify (λ s. record s { vsphere_vm = set_ready s.vsphere_vm })
    write (mark_true vm_provisioned_v1beta1)
    set_condition ConditionType.virtual_machine_provisioned status_true provisioned no_message

  abbrev pub by_connection : String → Outcome (Unit {0}) → Action Unit
  by_connection name (ok u) = perform (Call.delete_node name) (λ tr. w.delete_node tr name)
  by_connection name (err e) = if is_cluster_not_connected e then pure tt else fail e

  unfoldable pub delete_node : String → Action Unit
  delete_node name = do
    is_deleted ← try get_cluster w.get_cluster
    if is_deleted
        then pure tt
        else attempt (perform get_cluster_client w.get_cluster_client) (by_connection name)

  -- the networks of the VM are known: it is ready where they have an address
  unfoldable pub finish_normal : Action ℕ
  unfolding provisioned_true
  finish_normal = do
    modify reconcile_network
    addresses ← gets (λ s. s.vsphere_vm.status.addresses)
    if is_nil addresses
        then (do
          not_yet_provisioned waiting_for_ip_allocation_v1beta1 info waiting_for_ip_allocation
              no_message
          pure (10 * second))
        else (do provisioned_true; pure 0)

  -- `VMRef` is set once
  unfoldable pub keep_vm_ref : Context → Context
  keep_vm_ref s =
      if not (is_empty s.vm.vm_ref) && is_empty s.vsphere_vm.status.vm_ref
      then record s { vsphere_vm = set_status_ref s.vm.vm_ref s.vsphere_vm }
      else s

  -- the VM is ready
  unfoldable pub take_over : Action ℕ
  unfolding finish_normal keep_vm_ref
  take_over = do
    uuid ← gets (λ s. s.vm.bios_uuid)
    if is_empty uuid then fail (errorf "biosUUID is empty while VM is ready") else do
      modify (λ s. record s { vsphere_vm = set_bios_uuid uuid s.vsphere_vm })
      modify keep_vm_ref
      finish_normal

  -- come back when a failed task may be tried again
  unfoldable pub come_back : Action ℕ
  come_back = do
    retry_after ← gets (λ s. s.vsphere_vm.status.retry_after)
    if retry_after == 0 then pure 0 else do now ← ask read_clock w.now; pure (retry_after - now)

  abbrev pub by_state : VirtualMachineState → Action ℕ
  by_state ready_state = take_over
  by_state not_found = come_back
  by_state pending = come_back

module _ (w : World) (service : VmService) where
  unfoldable pub reconcile_normal : Action ℕ
  unfolding take_over come_back
  reconcile_normal = do
    waiting ← gets (λ s. is_waiting_for_static_ip_allocation s.vsphere_vm.spec.devices)
    if waiting
        then (do
          not_yet_provisioned waiting_for_static_ip_allocation_v1beta1 info
              waiting_for_static_ip_allocation no_message
          pure 0)
        else (do
          reconcile_ip_address_claims w
          wrap (wrapped "failed to reconcile VM") service.reconcile_vm
          state ← gets (λ s. s.vm.state)
          by_state w state)

  -- the VM is gone: its node, its claims and the finalizer go
  unfoldable pub finish_delete : Action ℕ
  finish_delete = do
    name ← gets (λ s. s.vm.name)
    attempt (delete_node w name) (λ r. pure tt)
    delete_ip_address_claims w
    modify (λ s. record s { vsphere_vm = record s.vsphere_vm { has_finalizer = false } })
    pure 0

  abbrev pub by_destroyed_state : VirtualMachineState → Action ℕ
  by_destroyed_state not_found = finish_delete
  by_destroyed_state pending = pure 0
  by_destroyed_state ready_state = pure 0

  abbrev pub by_destroyed : Outcome ℕ → Action ℕ
  by_destroyed (err e) = do
    not_yet_provisioned deletion_failed warning deleting (error_text e)
    fail (wrapped "failed to destroy VM" e)
  by_destroyed (ok requeue_after) =
      if requeue_after == 0
      then (do state ← gets (λ s. s.vm.state); by_destroyed_state state)
      else pure requeue_after

  unfoldable pub reconcile_delete : Action ℕ
  unfolding finish_delete
  reconcile_delete = do
    not_yet_provisioned deleting_v1beta1 info deleting no_message
    attempt service.destroy_vm by_destroyed

  unfoldable pub reconcile : ReconcileInput → Action ℕ
  unfolding reconcile_normal reconcile_delete
  reconcile input = do
    if input.node_anti_affinity && not (deref input.disable_cluster_module false)
        then attempt (fetch_cluster_module_info w input) with_module_info
        else pure tt
    is_deleted ← gets (λ s. s.vsphere_vm.is_deleted)
    if is_deleted then reconcile_delete else reconcile_normal
