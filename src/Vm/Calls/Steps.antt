-- ===== src/Vm/Calls/Steps.antt =====
-- The calls of the steps of `ReconcileVM` (pkg/services/govmomi/service.go) on a VM that exists.
use cluster_api_provider_vsp.Prelude.{
  String, Bool, true, false, ◌≡◌, refl, Option, none, some, List, [], ◌∷◌,
}
use cluster_api_provider_vsp.Errors.{Outcome, ok, err}
use cluster_api_provider_vsp.Exec.Keeps.{Keeps}
use cluster_api_provider_vsp.Api.{
  PciDeviceSpec, FailureDomainTopology, PowerState, powered_on, powered_off, suspended,
  unknown_state,
}
use cluster_api_provider_vsp.Api.Conditions.{V1Beta1Reason, Severity, Reason, Message}
use cluster_api_provider_vsp.World.{World, MoRef, Call}
use cluster_api_provider_vsp.Vm.Context.{Context, IpamState}
use cluster_api_provider_vsp.Vm.Power.{get_power_state}
use cluster_api_provider_vsp.Vm.Services.{Services}
use cluster_api_provider_vsp.Vm.Update.{
  not_yet_provisioned, reconcile_uuid, reconcile_network_status, with_ipam_state,
  reconcile_ip_addresses, set_metadata, reconcile_metadata, powered_on_task, by_power_state,
  reconcile_power_state, apply_policy, change_storage_policy, reconcile_storage_policy,
  reconcile_hardware_version, devices_attached, add_devices, reconcile_pci_devices,
  reconcile_host_info,
}
use cluster_api_provider_vsp.Vm.Membership.{
  find_vm_group, join_group, by_hosts, by_failure_domain, reconcile_vm_group_info, reconcile_tags,
  join_module, reconcile_cluster_module_membership,
}
use cluster_api_provider_vsp.Vm.Service.{
  set_vm_ref, or_tags_failed, finish_update, configure, update_vm,
}
use cluster_api_provider_vsp.Vm.Calls.{Since, calls_rules}
use cluster_api_provider_vsp.Vm.Calls.Reading.{
  is_reading, get_power_state-Since, set_module_uuid-Since,
}

abbrev pub updates_vm : Call → Bool
updates_vm (Call.clone _ _) = false
updates_vm (Call.destroy _) = false
updates_vm (Call.power_off _) = false
updates_vm (Call.shutdown_guest _) = false
updates_vm (Call.remove_from_module _ _) = false
updates_vm (Call.remove_claim_finalizer _) = false
updates_vm (Call.delete_node _) = false
updates_vm _ = true

pub reading-updates_vm : (c : Call) → is_reading c ≡ true → updates_vm c ≡ true
reading-updates_vm (Call.clone _ _) h = h
reading-updates_vm (Call.destroy _) h = h
reading-updates_vm (Call.power_off _) h = h
reading-updates_vm (Call.shutdown_guest _) h = h
reading-updates_vm (Call.remove_from_module _ _) h = h
reading-updates_vm (Call.remove_claim_finalizer _) h = h
reading-updates_vm (Call.delete_node _) h = h
reading-updates_vm _ h = refl

module _ (allowed : Call → Bool) (updates : (c : Call) → updates_vm c ≡ true → allowed c ≡ true)
    (w : World) (v : Services) (old : Context) where
  abbrev pub Spares : Context → Type 0
  Spares = Since allowed old

  pub report-Since :
      (o : V1Beta1Reason) (s : Severity) (r : Reason) (m : Message)
      → Keeps Spares (not_yet_provisioned o s r m)
  unfolding not_yet_provisioned
  report-Since o s r m = search (calls_rules, updates)

  uuid-Since : (ref : MoRef) → Keeps Spares (reconcile_uuid w v ref)
  unfolding reconcile_uuid
  uuid-Since ref = search (calls_rules, updates) depth 8

  network-Since : (ref : MoRef) → Keeps Spares (reconcile_network_status w v ref)
  unfolding reconcile_network_status
  network-Since ref = search (calls_rules, updates)

  with_ipam_state-Since : (r : Outcome IpamState) → Keeps Spares (with_ipam_state w v r)
  with_ipam_state-Since (ok x) = search calls_rules
  with_ipam_state-Since (err e) = search (calls_rules, report-Since)

  ip_addresses-Since : Keeps Spares (reconcile_ip_addresses w v)
  unfolding reconcile_ip_addresses
  ip_addresses-Since = search (calls_rules, updates, with_ipam_state-Since)

  set_metadata-Since : (ref : MoRef) (m : String) → Keeps Spares (set_metadata w v ref m)
  unfolding set_metadata
  set_metadata-Since ref m = search (calls_rules, updates)

  metadata-Since : (ref : MoRef) → Keeps Spares (reconcile_metadata w v ref)
  unfolding reconcile_metadata
  metadata-Since ref = search (calls_rules, updates, set_metadata-Since) depth 9

  powered_on_task-Since :
      (ref : MoRef) (r : Outcome String) → Keeps Spares (powered_on_task w v ref r)
  powered_on_task-Since ref (ok t) = search (calls_rules, updates, report-Since) depth 8
  powered_on_task-Since ref (err e) = search (calls_rules, report-Since)

  by_power_state-Since : (ref : MoRef) (p : PowerState) → Keeps Spares (by_power_state w v ref p)
  by_power_state-Since ref powered_off = search (calls_rules, updates, powered_on_task-Since)
  by_power_state-Since ref powered_on = search calls_rules
  by_power_state-Since ref suspended = search calls_rules
  by_power_state-Since ref (unknown_state _) = search calls_rules

  get_power_state-Updates : (ref : MoRef) → Keeps Spares (get_power_state w ref)
  get_power_state-Updates =
      get_power_state-Since allowed (λ c h. updates c (reading-updates_vm c h)) w old

  power_state-Since : (ref : MoRef) → Keeps Spares (reconcile_power_state w v ref)
  unfolding reconcile_power_state
  power_state-Since ref = search (calls_rules, get_power_state-Updates, by_power_state-Since)

  apply_policy-Since :
      (ref : MoRef) (id : String) (ds : List String) → Keeps Spares (apply_policy w v ref id ds)
  apply_policy-Since ref id [] = search calls_rules
  apply_policy-Since ref id (d ∷ ds) = search (calls_rules, updates)

  change_storage_policy-Since :
      (ref : MoRef) (p : String) → Keeps Spares (change_storage_policy w v ref p)
  unfolding change_storage_policy
  change_storage_policy-Since ref p = search (calls_rules, updates, apply_policy-Since) depth 12

  storage_policy-Since : (ref : MoRef) → Keeps Spares (reconcile_storage_policy w v ref)
  unfolding reconcile_storage_policy
  storage_policy-Since ref =
      search (calls_rules, get_power_state-Updates, change_storage_policy-Since) depth 8

  hardware_version-Since : (ref : MoRef) → Keeps Spares (reconcile_hardware_version w v ref)
  unfolding reconcile_hardware_version
  hardware_version-Since ref = search (calls_rules, updates) depth 14

  devices_attached-Since : Keeps Spares (devices_attached w v)
  unfolding devices_attached
  devices_attached-Since = search (calls_rules, updates) depth 8

  add_devices-Since :
      (ref : MoRef) (ds : List PciDeviceSpec) → Keeps Spares (add_devices w v ref ds)
  unfolding add_devices
  add_devices-Since ref [] = devices_attached-Since
  add_devices-Since ref (d ∷ ds) = search (calls_rules, updates) depth 9

  pci_devices-Since : (ref : MoRef) → Keeps Spares (reconcile_pci_devices w v ref)
  unfolding reconcile_pci_devices
  pci_devices-Since ref = search (calls_rules, updates, add_devices-Since) depth 9

  host_info-Since : (ref : MoRef) → Keeps Spares (reconcile_host_info w v ref)
  unfolding reconcile_host_info
  host_info-Since ref = search (calls_rules, updates)

  find_vm_group-Since : (c g : String) → Keeps Spares (find_vm_group w c g)
  unfolding find_vm_group
  find_vm_group-Since c g = search (calls_rules, updates) depth 8

  join_group-Since : (ref : MoRef) (c g : String) → Keeps Spares (join_group w ref c g)
  unfolding join_group
  join_group-Since ref c g = search (calls_rules, updates, find_vm_group-Since) depth 9

  by_hosts-Since :
      (ref : MoRef) (c : String) (g : Option String) → Keeps Spares (by_hosts w ref c g)
  by_hosts-Since ref c none = search calls_rules
  by_hosts-Since ref c (some g) = join_group-Since ref c g

  by_failure_domain-Since :
      (ref : MoRef) (t : Option FailureDomainTopology) → Keeps Spares (by_failure_domain w ref t)
  by_failure_domain-Since ref none = search calls_rules
  by_failure_domain-Since ref (some t) = by_hosts-Since ref t.compute_cluster t.vm_group_name

  vm_group-Since : (ref : MoRef) → Keeps Spares (reconcile_vm_group_info w ref)
  unfolding reconcile_vm_group_info
  vm_group-Since ref = search (calls_rules, by_failure_domain-Since)

  tags-Since : (ref : MoRef) → Keeps Spares (reconcile_tags w ref)
  unfolding reconcile_tags
  tags-Since ref = search (calls_rules, updates) depth 8

  join_module-Since : (ref : MoRef) (m : Option String) → Keeps Spares (join_module w ref m)
  join_module-Since ref none = search calls_rules
  join_module-Since ref (some m) = search (calls_rules, updates, set_module_uuid-Since allowed old)

  membership-Since : (ref : MoRef) → Keeps Spares (reconcile_cluster_module_membership w ref)
  unfolding reconcile_cluster_module_membership
  membership-Since ref = search (calls_rules, join_module-Since)

  or_tags_failed-Since : (r : Outcome (Unit {0})) → Keeps Spares (or_tags_failed w v r)
  or_tags_failed-Since (ok u) = search calls_rules
  or_tags_failed-Since (err e) = search (calls_rules, report-Since)

  finish-Since : (ref : MoRef) → Keeps Spares (finish_update w v ref)
  unfolding finish_update
  finish-Since ref =
      search (calls_rules, power_state-Since, host_info-Since, tags-Since, or_tags_failed-Since)
        depth 9

  configure-Since : (ref : MoRef) → Keeps Spares (configure w v ref)
  unfolding configure
  configure-Since ref =
      search
        (
          calls_rules, ip_addresses-Since, metadata-Since, storage_policy-Since, vm_group-Since,
          membership-Since, finish-Since,
        )
        depth 14

  pub update_vm-Since : (ref : MoRef) → Keeps Spares (update_vm w v ref)
  unfolding update_vm set_vm_ref
  update_vm-Since ref =
      search
        (
          calls_rules, uuid-Since, hardware_version-Since, pci_devices-Since, network-Since,
          configure-Since,
        )
        depth 12
