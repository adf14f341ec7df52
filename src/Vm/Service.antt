-- ===== src/Vm/Service.antt =====
-- `ReconcileVM` (pkg/services/govmomi/service.go), with the bootstrap data and the
-- creation of a VM (create.go). The VirtualMachine that they return beside the error is the `vm` of
-- the context.
pub mod Outcomes
pub mod Ready
pub mod Seen
use cluster_api_provider_vsp.Prelude.{
  String, Bool, not, Option, none, some, [], is_empty, if◌then◌else◌,
}
use cluster_api_provider_vsp.Errors.{
  Error, Outcome, ok, err, errorf, wrapped, is_not_found, was_not_found_by_bios_uuid,
}
use cluster_api_provider_vsp.Exec.{pure, fail, wrap, gets, modify, attempt, deferred, ◌>>=◌, ◌>>◌}
use cluster_api_provider_vsp.Api.{not_found, pending, ready_state}
use cluster_api_provider_vsp.Api.Conditions.{
  ConditionType, not_found_by_bios_uuid_v1beta1, cloning_v1beta1, cloning_failed_v1beta1,
  tags_attachment_failed_v1beta1, not_found_by_bios_uuid, waiting_for_clone, not_provisioned, info,
  warning, severe, no_message, error_text,
}
use cluster_api_provider_vsp.World.{World, MoRef, SecretData, Call}
use cluster_api_provider_vsp.Vm.Context.{Context, Action, try, perform, set_task_ref, set_state}
use cluster_api_provider_vsp.Vm.Task.{
  reconcile_in_flight_task, reconcile_vsphere_vm_on_task_completion,
}
use cluster_api_provider_vsp.Vm.Find.{find_vm}
use cluster_api_provider_vsp.Vm.Services.{Services}
use cluster_api_provider_vsp.Vm.Update.{
  not_yet_provisioned, reconcile_uuid, reconcile_network_status, reconcile_ip_addresses,
  reconcile_metadata, reconcile_power_state, reconcile_storage_policy, reconcile_hardware_version,
  reconcile_pci_devices, reconcile_host_info,
}
use cluster_api_provider_vsp.Vm.Membership.{
  reconcile_vm_group_info, reconcile_tags, reconcile_cluster_module_membership,
}

-- `services.VirtualMachine{Name, State: pending}`
unfoldable pub start : Context → Context
start s = record s {
  vm = record {
    name = s.vsphere_vm.name;
    bios_uuid = "";
    state = pending;
    network = [];
    vm_ref = "";
  };
}

unfoldable pub set_vm_ref : MoRef → Context → Context
set_vm_ref ref s = record s { vm = record s.vm { vm_ref = ref } }

-- the format is cloud-config where it is missing or empty
abbrev pub bootstrap_format : Option String → String
bootstrap_format none = "cloud-config"
bootstrap_format (some f) = if is_empty f then "cloud-config" else f

abbrev pub bootstrap_value : SecretData → Action (Option String × String)
bootstrap_value secret = elim secret.value [
  | none ↦ fail (errorf "error retrieving bootstrap data: secret value key is missing")
  | some value ↦ pure (some value, bootstrap_format secret.format)
]

-- A step that answers false ends the reconcile without an error.
abbrev pub if_done : Bool → Action Unit → Action Unit
if_done done rest = if done then rest else pure tt

module _ (w : World) (v : Services) where
  unfoldable pub get_bootstrap_data : Action (Option String × String)
  get_bootstrap_data = do
    name ← gets (λ s. s.vsphere_vm.spec.bootstrap_ref_name)
    if is_empty name then pure (none, "") else do
      secret ←
          wrap (wrapped "failed to get bootstrap data secret for %s")
            (try (Call.get_secret name) (λ tr. w.get_secret tr name))
      bootstrap_value secret

  -- `vcenter.Clone` stores the clone task and patches at once, best effort
  unfoldable pub create_vm : Option String → String → Action Unit
  create_vm bootstrap format =
      if not w.is_vc then fail (errorf "expected VCenter client got %v") else (do
        vm ← gets (λ s. s.vsphere_vm)
        task ← try (Call.clone bootstrap format) (λ tr. v.clone tr vm bootstrap format)
        set_task_ref task
        attempt (perform Call.patch w.patch) (λ r. pure tt))

  abbrev pub cloning_failed : Error → Action Unit
  cloning_failed e = do
    not_yet_provisioned cloning_failed_v1beta1 warning not_provisioned (error_text e)
    fail e

  abbrev pub or_cloning_failed : Outcome (Unit {0}) → Action Unit
  or_cloning_failed (ok u) = pure tt
  or_cloning_failed (err e) = cloning_failed e

  abbrev pub create_from : Outcome (Option String × String) → Action Unit
  create_from (err e) = cloning_failed e
  create_from (ok (bootstrap, format)) = attempt (create_vm bootstrap format) or_cloning_failed

  -- the VM was not found, and is created
  unfoldable pub create_missing : Action Unit
  unfolding create_vm get_bootstrap_data
  create_missing = do
    reported ← gets (λ s. w.has_condition s.trace ConditionType.virtual_machine_provisioned)
    if reported
        then pure tt
        else not_yet_provisioned cloning_v1beta1 info waiting_for_clone no_message
    attempt get_bootstrap_data create_from

  unfoldable pub handle_missing : Error → Action Unit
  unfolding create_missing
  handle_missing e =
      if not (is_not_found e)
      then fail e
      else (if was_not_found_by_bios_uuid e
          then (do
            not_yet_provisioned not_found_by_bios_uuid_v1beta1 warning not_found_by_bios_uuid
                (error_text e)
            set_state not_found
            fail e)
          else create_missing)

  abbrev pub or_tags_failed : Outcome (Unit {0}) → Action Unit
  or_tags_failed (ok u) = set_state ready_state
  or_tags_failed (err e) = do
    not_yet_provisioned tags_attachment_failed_v1beta1 severe not_provisioned (error_text e)
    fail e

  -- the last steps, from the power state on
  unfoldable pub finish_update : MoRef → Action Unit
  finish_update ref = do
    on ← reconcile_power_state w v ref
    if_done on (do reconcile_host_info w v ref; attempt (reconcile_tags w ref) or_tags_failed)

  -- the steps on the configuration of a VM that may still be off
  unfoldable pub configure : MoRef → Action Unit
  unfolding finish_update
  configure ref = do
    addressed ← reconcile_ip_addresses w v
    if_done addressed (do
      described ← reconcile_metadata w v ref
      if_done described (do
        reconcile_storage_policy w v ref
        grouped ← reconcile_vm_group_info w ref
        if_done grouped (do reconcile_cluster_module_membership w ref; finish_update ref)))

  unfoldable pub update_vm : MoRef → Action Unit
  unfolding configure
  update_vm ref = do
    modify (set_vm_ref ref)
    reconcile_uuid w v ref
    upgraded ← reconcile_hardware_version w v ref
    if_done upgraded
        (do reconcile_pci_devices w v ref; reconcile_network_status w v ref; configure ref)

  abbrev pub by_ref : Outcome MoRef → Action Unit
  by_ref (err e) = handle_missing e
  by_ref (ok ref) = update_vm ref

  abbrev pub on_return : Context → Context
  on_return s = (reconcile_vsphere_vm_on_task_completion w s).1

  unfoldable pub reconcile_vm : Action Unit
  reconcile_vm = do
    modify start
    in_flight ← reconcile_in_flight_task w
    if in_flight then pure tt else deferred on_return (attempt (find_vm w) by_ref)
