-- ===== src/Vm/Update.antt =====
-- The steps by which `ReconcileVM` updates a VM that exists (pkg/services/govmomi/service.go).
-- A step that answers false stops the reconcile without an error.
use cluster_api_provider_vsp.Prelude.{
  String, Bool, true, false, not, List, [], ◌∷◌, is_empty, is_nil, str_eq, if◌then◌else◌,
}
use cluster_api_provider_vsp.Errors.{Outcome, ok, err, errorf, wrapped, is_waiting_for_ip_addr}
use cluster_api_provider_vsp.Exec.{pure, fail, lift, wrap, gets, modify, attempt, ◌>>=◌, ◌>>◌}
use cluster_api_provider_vsp.Api.{
  PciDeviceSpec, PowerState, powered_on, powered_off, suspended, unknown_state,
}
use cluster_api_provider_vsp.Api.Conditions.{
  ConditionType, status_false, waiting_for_ip_address, powering_on, not_provisioned,
  pci_devices_not_found, no_message, text, error_text, vm_provisioned_v1beta1,
  pci_devices_detached_v1beta1, powering_on_v1beta1, powering_on_failed_v1beta1, not_found_v1beta1,
  waiting_for_ip_address_v1beta1, V1Beta1Reason, Severity, Reason, Message, info, warning, delete,
  mark_false, delete_v1beta1,
}
use cluster_api_provider_vsp.World.{
  World, MoRef, ProfileResult, metadata_config, storage_profile_config, Call,
}
use cluster_api_provider_vsp.Vmx.{less_than}
use cluster_api_provider_vsp.Vm.Context.{
  IpamState, Action, ask, try, perform, emit, write, set_condition, set_task_ref,
}
use cluster_api_provider_vsp.Vm.Power.{is_powered_on, get_power_state}
use cluster_api_provider_vsp.Vm.Pci.{with_keys, calculate_devices_to_be_added}
use cluster_api_provider_vsp.Vm.Services.{Services}

-- `MarkFalse` of VMProvisioned with the matching v1beta2 condition
unfoldable pub not_yet_provisioned : V1Beta1Reason → Severity → Reason → Message → Action Unit
not_yet_provisioned old severity reason message = do
  write (mark_false vm_provisioned_v1beta1 old severity message)
  set_condition ConditionType.virtual_machine_provisioned status_false reason message

-- the disks that lack the policy
unfoldable pub is_storage_policy_id_present : String → List String → Bool
is_storage_policy_id_present id [] = false
is_storage_policy_id_present id (p ∷ ps) =
    if str_eq p id then true else is_storage_policy_id_present id ps

unfoldable pub disks_to_change : String → List ProfileResult → List String
unfolding is_storage_policy_id_present
disks_to_change id [] = []
disks_to_change id (r ∷ rs) =
    let rest = disks_to_change id rs in
    if is_storage_policy_id_present id r.profile_ids then rest else r.key ∷ rest

module _ (w : World) (v : Services) where
  unfoldable pub reconcile_uuid : MoRef → Action Unit
  reconcile_uuid ref = do
    uuid ← ask (Call.query_uuid ref) (λ tr. w.uuid tr ref)
    modify (λ s. record s { vm = record s.vm { bios_uuid = uuid } })

  unfoldable pub reconcile_network_status : MoRef → Action Unit
  reconcile_network_status ref = do
    status ← try (Call.query_network ref) (λ tr. v.network_status tr ref)
    modify (λ s. record s { vm = record s.vm { network = status } })

  abbrev pub with_ipam_state : Outcome IpamState → Action Bool
  with_ipam_state (ok state) = do modify (λ s. record s { ipam_state = state }); pure true
  with_ipam_state (err e) =
      if is_waiting_for_ip_addr e
      then (do
        not_yet_provisioned waiting_for_ip_address_v1beta1 info waiting_for_ip_address
            (error_text e)
        pure false)
      else fail e

  unfoldable pub reconcile_ip_addresses : Action Bool
  unfolding not_yet_provisioned
  reconcile_ip_addresses = do
    vm ← gets (λ s. s.vsphere_vm)
    network ← gets (λ s. s.vm.network)
    attempt (try Call.build_ipam_state (λ tr. v.ipam_state tr vm network)) with_ipam_state

  unfoldable pub set_metadata : MoRef → String → Action String
  set_metadata ref metadata = wrap (wrapped "unable to set metadata on vm %s") (
      try (Call.reconfigure ref (metadata_config metadata))
        (λ tr. w.reconfigure tr ref (metadata_config metadata)))

  unfoldable pub reconcile_metadata : MoRef → Action Bool
  unfolding set_metadata
  reconcile_metadata ref = do
    existing ← try (Call.query_metadata ref) (λ tr. v.existing_metadata tr ref)
    new ← gets (λ s. v.machine_metadata s.vsphere_vm s.ipam_state s.vm.network)
    metadata ← lift new
    if str_eq metadata existing then pure true else do
      task ← wrap (wrapped "unable to set metadata on vm %s") (set_metadata ref metadata)
      set_task_ref task
      pure false

  abbrev pub powered_on_task : MoRef → Outcome String → Action Bool
  powered_on_task ref (err e) = do
    not_yet_provisioned powering_on_failed_v1beta1 warning not_provisioned (error_text e)
    fail (wrapped "failed to trigger power on op for vm %s" e)
  powered_on_task ref (ok task) = do
    not_yet_provisioned powering_on_v1beta1 info powering_on no_message
    set_task_ref task
    perform Call.patch w.patch
    emit (Call.watch_network ref)
    pure false

  abbrev pub by_power_state : MoRef → PowerState → Action Bool
  by_power_state ref powered_off =
      attempt (try (Call.power_on ref) (λ tr. w.power_on tr ref)) (powered_on_task ref)
  by_power_state ref powered_on = pure true
  by_power_state ref suspended = fail (errorf "unexpected power state %q for vm %s")
  by_power_state ref (unknown_state _) = fail (errorf "unexpected power state %q for vm %s")

  unfoldable pub reconcile_power_state : MoRef → Action Bool
  unfolding not_yet_provisioned get_power_state
  reconcile_power_state ref = do p ← get_power_state w ref; by_power_state ref p

  abbrev pub apply_policy : MoRef → String → List String → Action Unit
  apply_policy ref id [] = pure tt
  apply_policy ref id (d ∷ ds) = do
    task ← wrap (wrapped "unable to set storagePolicy on vm %s") (
        try (Call.reconfigure ref (storage_profile_config id (d ∷ ds)))
          (λ tr. w.reconfigure tr ref (storage_profile_config id (d ∷ ds))))
    set_task_ref task

  unfoldable pub change_storage_policy : MoRef → String → Action Unit
  unfolding disks_to_change
  change_storage_policy ref policy = do
    wrap (wrapped "unable to create pbm client") (perform Call.new_pbm_client w.new_pbm_client)
    id ←
        wrap (wrapped "unable to retrieve storage profile ID")
          (try (Call.profile_id_by_name policy) (λ tr. w.profile_id_by_name tr policy))
    disks ← try (Call.query_disks ref) (λ tr. w.disk_ids tr ref)
    results ←
        wrap (wrapped "unable to query disks associated profiles")
          (try (Call.query_associated_profiles disks) (λ tr. w.associated_profiles tr disks))
    apply_policy ref id (disks_to_change id results)

  unfoldable pub reconcile_storage_policy : MoRef → Action Unit
  unfolding change_storage_policy get_power_state
  reconcile_storage_policy ref = do
    policy ← gets (λ s. s.vsphere_vm.spec.storage_policy_name)
    if is_empty policy then pure tt else do
      p ← get_power_state w ref
      if is_powered_on p then pure tt else change_storage_policy ref policy

  unfoldable pub reconcile_hardware_version : MoRef → Action Bool
  reconcile_hardware_version ref = do
    wanted ← gets (λ s. s.vsphere_vm.spec.hardware_version)
    if is_empty wanted then pure true else do
      version ←
          wrap (wrapped "error getting guestInfo version information from VM %s")
            (try (Call.query_hardware_version ref) (λ tr. w.hardware_version tr ref))
      to_upgrade ←
          wrap (wrapped "failed to parse hardware version") (lift (less_than version wanted))
      if not to_upgrade then pure true else do
        task ←
            wrap (wrapped "error trigging upgrade op for machine %s")
              (try (Call.upgrade_vm ref wanted) (λ tr. w.upgrade_vm tr ref wanted))
        set_task_ref task
        pure false

  -- every device is there: the condition goes, if it is set
  unfoldable pub devices_attached : Action Unit
  devices_attached = do
    reported ← gets (λ s. w.has_condition s.trace ConditionType.pci_devices_detached)
    if not reported then pure tt else do
      write (delete_v1beta1 pci_devices_detached_v1beta1)
      write (delete ConditionType.pci_devices_detached)

  unfoldable pub add_devices : MoRef → List PciDeviceSpec → Action Unit
  unfolding devices_attached
  add_devices ref [] = devices_attached
  add_devices ref (d ∷ ds) = do
    p ← try (Call.query_power_state ref) (λ tr. w.power_state tr ref)
    if is_powered_on p
        then (do
          write (
              mark_false pci_devices_detached_v1beta1 not_found_v1beta1 warning
                (text "PCI devices removed after VM was powered on"))
          set_condition ConditionType.pci_devices_detached status_false pci_devices_not_found
              (text "PCI devices removed after VM was powered on")
          fail (errorf "missing PCI devices"))
        else wrap (wrapped "error adding pci devices for %q")
            (perform (Call.add_pci_devices ref (d ∷ ds)) (λ tr. w.add_pci_devices tr ref (d ∷ ds)))

  -- An identifier that is nil is read before the VM is asked.
  unfoldable pub reconcile_pci_devices : MoRef → Action Unit
  unfolding add_devices
  reconcile_pci_devices ref = do
    expected ← gets (λ s. s.vsphere_vm.spec.pci_devices)
    if is_nil expected then pure tt else do
      keyed ← lift (with_keys expected)
      present ← try (Call.query_devices ref) (λ tr. w.devices tr ref)
      missing ← lift (calculate_devices_to_be_added expected present)
      add_devices ref missing

  unfoldable pub reconcile_host_info : MoRef → Action Unit
  reconcile_host_info ref = do
    host ← try (Call.query_host ref) (λ tr. w.host_name tr ref)
    modify (λ s. record s {
      vsphere_vm = record s.vsphere_vm { status = record s.vsphere_vm.status { host = host } };
    })
