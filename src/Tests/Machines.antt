-- ===== src/Tests/Machines.antt =====
-- The theorems on the VM service at concrete inputs.
use cluster_api_provider_vsp.Prelude.{true, false, ◌≡◌, refl, [], ◌≢◌, ◌↔◌}
use cluster_api_provider_vsp.Errors.{ok}
use cluster_api_provider_vsp.Exec.{◌>>=◌}
use cluster_api_provider_vsp.Vm.Context.{
  Context, set_task_ref, ask, try, perform, set_state, set_condition,
}
use cluster_api_provider_vsp.Vm.Task.{
  reconcile_in_flight_task, reconcile_vsphere_vm_on_task_completion,
}
use cluster_api_provider_vsp.Vm.Service.{
  start, reconcile_vm, update_vm, set_vm_ref, configure, finish_update,
}
use cluster_api_provider_vsp.Vm.Destroy.{destroy_vm}
use cluster_api_provider_vsp.Vm.Calls.{Extends}
use cluster_api_provider_vsp.Vm.Calls.Steps.{updates_vm}
use cluster_api_provider_vsp.Vm.Calls.Reconcile.{spares_vm, reconcile_vm-spares}
use cluster_api_provider_vsp.Vm.Destroy.Safety.{DestroysOff, destroy_vm-DestroysOff}
use cluster_api_provider_vsp.Vm.Service.Outcomes.{IsForeign, reconcile_vm-known}
use cluster_api_provider_vsp.Vm.Find.{find_vm}
use cluster_api_provider_vsp.Vm.Power.{get_power_state}
use cluster_api_provider_vsp.Vm.Update.{
  reconcile_uuid, reconcile_hardware_version, reconcile_pci_devices, reconcile_network_status,
  reconcile_ip_addresses, reconcile_metadata, reconcile_storage_policy, reconcile_power_state,
  reconcile_host_info,
}
use cluster_api_provider_vsp.Vm.Membership.{
  reconcile_vm_group_info, reconcile_cluster_module_membership, reconcile_tags,
}
use cluster_api_provider_vsp.Api.{powered_on, ready_state, not_found}
use cluster_api_provider_vsp.Vm.Destroy.Gone.{is_gone, tracked, destroy_vm-not_found}
use cluster_api_provider_vsp.Vm.Service.Ready.{finish_update-ready}
use cluster_api_provider_vsp.Vm.Service.Seen.{SeenOn, reconcile_vm-SeenOn}
use cluster_api_provider_vsp.Tests.{running_vm, networked, vcenter, services, machine, context}

-- a machine that knows its VM
abbrev known : Context
known = record context {
  vsphere_vm = record machine { spec = record machine.spec { bios_uuid = "4210" } };
}

-- a machine whose task failed, before its next try
abbrev too_early : Context
too_early = record context {
  vsphere_vm = record machine {
    status = record machine.status { task_ref = "task-1"; retry_after = 5000 };
  };
}

vcenter-IsForeign : IsForeign vcenter
vcenter-IsForeign tr u e h = absurd (cc h)

reconcile_vm-known_example : Extends updates_vm [] (reconcile_vm vcenter services known).1.trace
reconcile_vm-known_example = reconcile_vm-known vcenter services known vcenter-IsForeign refl

reconcile_vm-spares_example : Extends spares_vm [] (reconcile_vm vcenter services context).1.trace
reconcile_vm-spares_example = reconcile_vm-spares vcenter services context

destroy_vm-DestroysOff_example : DestroysOff vcenter (destroy_vm vcenter context).1.trace
destroy_vm-DestroysOff_example = destroy_vm-DestroysOff vcenter context tt

seen_ready : (reconcile_vm running_vm networked context).1.vm.state ≡ ready_state
unfolding reconcile_vm start reconcile_in_flight_task find_vm update_vm set_vm_ref configure
    finish_update reconcile_uuid reconcile_hardware_version reconcile_pci_devices
    reconcile_network_status reconcile_ip_addresses reconcile_metadata reconcile_storage_policy
    reconcile_vm_group_info reconcile_cluster_module_membership reconcile_power_state
    get_power_state reconcile_host_info reconcile_tags reconcile_vsphere_vm_on_task_completion ◌>>=◌
    ask try perform set_condition set_state set_task_ref
seen_ready = refl

reconcile_vm-SeenOn_example : SeenOn running_vm (reconcile_vm running_vm networked context).1.trace
reconcile_vm-SeenOn_example = reconcile_vm-SeenOn running_vm networked context seen_ready

pending-ne-ready : context.vm.state ≢ ready_state
pending-ne-ready h = absurd (cc h)

finish_update-ready_example :
    ((finish_update running_vm networked "vm-1" context).1.vm.state ≡ ready_state)
    ↔ (ok powered_on ≡ ok powered_on) × (true ≡ true) × (true ≡ true)
finish_update-ready_example =
    finish_update-ready running_vm networked "vm-1" context pending-ne-ready

destroy_vm-not_found_example :
    ((destroy_vm vcenter context).1.vm.state ≡ not_found)
    ↔ ((reconcile_in_flight_task vcenter (start context)).0 ≡ ok false)
      × (is_gone (find_vm vcenter (tracked vcenter context)).0 ≡ true)
destroy_vm-not_found_example = destroy_vm-not_found vcenter context
