-- ===== src/VimMachine/Service.antt =====
-- The service for VSphereMachines (pkg/services/vimmachine.go: ReconcileDelete, SyncFailureReason,
-- ReconcileNormal, GetHostInfo and what they call).
use cluster_api_provider_vsp.Prelude.{
  String, Bool, true, false, ◌||◌, Option, none, some, List, [], ◌∷◌, ◌++◌, is_empty, is_nil,
  str_eq, deref, if◌then◌else◌,
}
use cluster_api_provider_vsp.Errors.{Error, Outcome, ok, err, errorf, wrapped, is_api_not_found}
use cluster_api_provider_vsp.Exec.{pure, fail, lift, wrap, gets, attempt, ◌>>=◌, ◌>>◌}
use cluster_api_provider_vsp.Api.{NetworkStatus}
use cluster_api_provider_vsp.Controller.Claims.{aggregate_of}
use cluster_api_provider_vsp.Machine.ProviderId.{convert_uuid_to_provider_id}
use cluster_api_provider_vsp.VimMachine.{
  FailureReport, MachineVm, MachineAddress, external_ip, internal_dns, waiting_for_network_address,
  stated, mirrored, network_addresses_v1beta1, marked_false, mirrored_v1beta1, CapiMachine,
  VsphereCluster,
}
use cluster_api_provider_vsp.VimMachine.Names.{generate_vm_object_name}
use cluster_api_provider_vsp.VimMachine.Desired.{create_or_patch_vsphere_vm}
use cluster_api_provider_vsp.VimMachine.World.{
  get_vm, delete_vm, MachineWorld, MachineAction, call, run, change, mark,
}

abbrev pub is_set : Option String → Bool
is_set none = false
is_set (some s) = true

-- a report says something
abbrev pub says_something : FailureReport → Bool
says_something r = is_set r.reason || is_set r.message

abbrev pub report_of : Option FailureReport → Option FailureReport → Option FailureReport
report_of none old = old
report_of (some report) old = if says_something report then some report else old

-- the statuses of `status.network` that have a MAC address, and the errors of the others
unfoldable pub with_mac : List NetworkStatus → List NetworkStatus
with_mac [] = []
with_mac (s ∷ ss) = let rest = with_mac ss in if is_empty s.mac_addr then rest else s ∷ rest

-- the error is noted twice
unfoldable pub mac_errors : List NetworkStatus → List Error
mac_errors [] = []
mac_errors (s ∷ ss) =
    let rest = mac_errors ss in
    if is_empty s.mac_addr
    then errorf "macAddr is required" ∷ errorf "macAddr is required" ∷ rest
    else rest

unfoldable pub external_ips : List String → List MachineAddress
external_ips [] = []
external_ips (a ∷ rest) = external_ip a ∷ external_ips rest

unfoldable pub machine_addresses : MachineVm → List MachineAddress
unfolding external_ips
machine_addresses vm = external_ips vm.addresses ++ (internal_dns vm.name ∷ [])

abbrev pub waiting : List Error → MachineAction Bool
waiting [] = pure false
waiting (e ∷ es) = fail (aggregate_of e es)

unfoldable pub reconcile_network : MachineVm → MachineAction Bool
unfolding with_mac mac_errors machine_addresses change ◌>>=◌
reconcile_network vm = do
  change (λ m. record m { network = with_mac vm.network; addresses = machine_addresses vm })
  addresses ← gets (λ s. s.machine.addresses)
  if is_nil addresses then waiting (mac_errors vm.network) else pure true

unfoldable pub reconcile_provider_id : MachineVm → MachineAction Bool
unfolding change ◌>>=◌
reconcile_provider_id vm =
    if is_empty vm.bios_uuid
    then pure false
    else (let id = convert_uuid_to_provider_id vm.bios_uuid in
        if is_empty id
        then fail (errorf "failed to reconcile providerID: invalid BIOS UUID %s for %s")
        else (do
          old ← gets (λ s. s.machine.provider_id)
          if str_eq old id
              then pure true
              else do change (λ m. record m { provider_id = id }); pure true))

-- the conditions of the VSphereVM are mirrored
unfoldable pub mirror : MachineVm → MachineAction Unit
unfolding mark
mirror vm = mark mirrored_v1beta1 (mirrored vm.provisioned)

-- True asks to come back.
abbrev pub finish_network : Bool → MachineAction Bool
finish_network true = do change (λ m. record m { provisioned = some true }); pure false
finish_network false = do
  mark (marked_false network_addresses_v1beta1) (stated false waiting_for_network_address)
  pure true

abbrev pub finish_provider_id : MachineVm → Bool → MachineAction Bool
finish_provider_id vm false = pure true
finish_provider_id vm true = do
  done ← wrap (wrapped "unexpected error while reconciling network for %s") (reconcile_network vm)
  finish_network done

unfoldable pub finish_vm : MachineVm → MachineAction Bool
unfolding reconcile_provider_id reconcile_network mirror
finish_vm vm =
    if deref vm.ready false
    then (do
      done ←
          wrap (wrapped "unexpected error while reconciling provider ID for %s")
            (reconcile_provider_id vm)
      finish_provider_id vm done)
    else do mirror vm; pure true

module _ (w : MachineWorld) (owner : CapiMachine) where
  unfoldable pub find_vsphere_vm : MachineAction MachineVm
  unfolding generate_vm_object_name call ◌>>=◌
  find_vsphere_vm = do
    m ← gets (λ s. s.machine)
    name ← lift (generate_vm_object_name w.templates m owner.name)
    call (get_vm name) (λ tr. w.get_vm tr name)

  -- the VSphereVM is deleted, unless it already is being deleted
  unfoldable pub reconcile_delete : MachineAction Unit
  unfolding find_vsphere_vm run mirror
  reconcile_delete = do
    vm ← find_vsphere_vm
    if vm.is_deleted then pure tt else run (delete_vm vm.name) (λ tr. w.delete_vm tr vm.name)
    mirror vm

  unfoldable pub sync_failure_reason : MachineAction Unit
  unfolding find_vsphere_vm change
  sync_failure_reason = do
    vm ← find_vsphere_vm
    change (λ m. record m { failure = report_of vm.failure m.failure })

  abbrev pub found_vm : Outcome MachineVm → MachineAction (Option MachineVm)
  found_vm (ok vm) = pure (some vm)
  found_vm (err e) = if is_api_not_found e then pure none else fail e

  unfoldable pub reconcile_normal : VsphereCluster → MachineAction Bool
  unfolding find_vsphere_vm create_or_patch_vsphere_vm finish_vm attempt
  reconcile_normal cluster = do
    found ← attempt find_vsphere_vm found_vm
    vm ← create_or_patch_vsphere_vm w owner cluster found
    finish_vm vm

  unfoldable pub get_host_info : MachineAction String
  unfolding find_vsphere_vm
  get_host_info = do vm ← find_vsphere_vm; pure (if deref vm.provisioned false then vm.host else "")
