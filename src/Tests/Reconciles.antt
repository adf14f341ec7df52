-- ===== src/Tests/Reconciles.antt =====
-- The theorems on the controller at concrete inputs.
use cluster_api_provider_vsp.Prelude.{
  String, true, false, ◌≡◌, ◌≢◌, ◌↔◌, refl, none, some, List, [], ◌∷◌, is_empty, is_nil, arith,
  length,
}
use cluster_api_provider_vsp.Errors.{
  ok, err, errorf, library, find_not_found, is_not_found, is_virtual_machine_not_found,
}
use cluster_api_provider_vsp.Exec.{◌>>=◌}
use cluster_api_provider_vsp.Api.{IpPoolReference, not_found, ready_state}
use cluster_api_provider_vsp.World.{World}
use cluster_api_provider_vsp.Vm.Context.{
  Context, ask, try, perform, write, set_condition, set_state, set_task_ref,
}
use cluster_api_provider_vsp.Controller.Claims.{
  Tally, no_claims, all_claims, create_claims, delete_ip_address_claims,
  reconcile_ip_address_claims, release_claims, aggregate_claims, count_claim,
}
use cluster_api_provider_vsp.Controller.Claims.Counts.{IsCounted, create_claims-IsCounted}
use cluster_api_provider_vsp.Controller.Service.{VmService, govmomi_service}
use cluster_api_provider_vsp.Controller.Reconcile.{
  ReconcileInput, all_addresses, take_over, reconcile_normal, reconcile_delete, reconcile,
  fetch_cluster_module_info, delete_node, finish_delete, is_waiting_for_static_ip_allocation,
  reconcile_network, keep_vm_ref, finish_normal, provisioned_true,
}
use cluster_api_provider_vsp.Controller.Reconcile.Outcomes.{
  finalizer, ready, entered, destroyed, without_node, served, informed, reconcile_delete-finalizer,
  reconcile_normal-ready, reconcile-finalizer,
}
use cluster_api_provider_vsp.InventoryPath.{path_join}
use cluster_api_provider_vsp.Vm.Task.{
  reconcile_in_flight_task, reconcile_vsphere_vm_on_task_completion,
}
use cluster_api_provider_vsp.Vm.Find.{find_vm, find_by_path}
use cluster_api_provider_vsp.Vm.Destroy.{destroy_vm}
use cluster_api_provider_vsp.Vm.Power.{get_power_state}
use cluster_api_provider_vsp.Vm.Service.{
  start, reconcile_vm, update_vm, set_vm_ref, configure, finish_update,
}
use cluster_api_provider_vsp.Vm.Update.{
  not_yet_provisioned, reconcile_uuid, reconcile_hardware_version, reconcile_pci_devices,
  reconcile_network_status, reconcile_ip_addresses, reconcile_metadata, reconcile_storage_policy,
  reconcile_power_state, reconcile_host_info,
}
use cluster_api_provider_vsp.Vm.Membership.{
  reconcile_vm_group_info, reconcile_cluster_module_membership, reconcile_tags,
}
use cluster_api_provider_vsp.Tests.{running_vm, networked, vcenter, services, machine, context}

-- no VM is left
abbrev emptied : World
emptied = record vcenter {
  find_by_instance_uuid = λ tr uuid. ok none;
  find_virtual_machine = λ tr path. err (library find_not_found "vm");
}

abbrev emptied_service : VmService
emptied_service = govmomi_service emptied services

abbrev deleted : Context
deleted = record context { vsphere_vm = record machine { is_deleted = true } }

abbrev input : ReconcileInput
input = record {
  node_anti_affinity = true;
  disable_cluster_module = none;
  cluster_modules =
      record { control_plane = some false; target_object_name = "md-0"; module_uuid = "module-1" }
      ∷ [];
  is_control_plane = false;
}

finalizer_gone : finalizer (reconcile emptied emptied_service input deleted).1 ≡ false
unfolding reconcile reconcile_delete fetch_cluster_module_info finish_delete delete_node
    not_yet_provisioned delete_ip_address_claims release_claims all_claims destroy_vm start
    reconcile_in_flight_task find_vm find_by_path is_not_found is_virtual_machine_not_found
    path_join ◌>>=◌ ask try perform write set_condition set_state set_task_ref
    reconcile_vsphere_vm_on_task_completion
finalizer_gone = refl

-- the Machine cannot be read
abbrev ownerless : World
ownerless = record vcenter { owner_name = λ tr is_control_plane. err (errorf "timeout") }

becomes_ready :
    ready (reconcile_normal running_vm (govmomi_service running_vm networked) context).1 ≡ some true
unfolding reconcile_normal reconcile_ip_address_claims is_waiting_for_static_ip_allocation
    all_claims create_claims aggregate_claims reconcile_vm start reconcile_in_flight_task find_vm
    update_vm set_vm_ref configure finish_update reconcile_uuid reconcile_hardware_version
    reconcile_pci_devices reconcile_network_status reconcile_ip_addresses reconcile_metadata
    reconcile_storage_policy reconcile_vm_group_info reconcile_cluster_module_membership
    reconcile_power_state get_power_state reconcile_host_info reconcile_tags
    reconcile_vsphere_vm_on_task_completion reconcile_network all_addresses keep_vm_ref take_over
    finish_normal provisioned_true ◌>>=◌ ask try perform write set_condition set_state set_task_ref
becomes_ready = refl

abbrev taken : Context
taken = record context { vm = record context.vm { bios_uuid = "4210"; state = ready_state } }

abbrev pool : IpPoolReference
pool = record { api_group = "ipam.cluster.x-k8s.io"; kind = "InClusterIPPool"; name = "pool-1" }

abbrev two_claims : List (String × IpPoolReference)
two_claims = ("md-0-abc-0-0", pool) ∷ ("md-0-abc-0-1", pool) ∷ []

-- both claims have an address
abbrev both : Tally
both = record no_claims { total = 2; claims_fulfilled = 2 }

both_returned : (create_claims vcenter two_claims no_claims context).0 ≡ ok both
unfolding create_claims count_claim ◌>>=◌ try
both_returned = refl

-- one of two claims was created and has no address yet
abbrev one_created : Tally
one_created = record both { claims_created = 1; claims_fulfilled = 1 }

one_created-IsCounted : IsCounted one_created
one_created-IsCounted = record {
  created = omega arith;
  fulfilled = omega arith;
  ready = omega arith;
}

reconcile-finalizer_example :
    (true ≡ true)
    × ((emptied_service.destroy_vm
          (entered emptied emptied_service (informed emptied emptied_service input deleted))).0
        ≡ ok 0)
    × ((emptied_service.destroy_vm (
          entered emptied emptied_service
            (informed emptied emptied_service input deleted))).1.vm.state
        ≡ not_found)
reconcile-finalizer_example =
    reconcile-finalizer emptied emptied_service input deleted refl finalizer_gone

reconcile_delete-finalizer_example :
    (finalizer (reconcile_delete emptied emptied_service deleted).1 ≡ false)
    ↔ ((emptied_service.destroy_vm (entered emptied emptied_service deleted)).0 ≡ ok 0)
      × ((destroyed emptied emptied_service deleted).vm.state ≡ not_found)
      × ((delete_ip_address_claims emptied (without_node emptied emptied_service deleted)).0
          ≡ ok tt)
reconcile_delete-finalizer_example = reconcile_delete-finalizer emptied emptied_service deleted refl

none-ne-some : ready context ≢ some true
none-ne-some h = absurd (cc h)

reconcile_normal-ready_example :
    ((served running_vm (govmomi_service running_vm networked) context).vm.state ≡ ready_state)
    × (is_empty (served running_vm (govmomi_service running_vm networked) context).vm.bios_uuid
        ≡ false)
    × (is_nil (
          all_addresses
            (served running_vm (govmomi_service running_vm networked) context).vm.network)
        ≡ false)
reconcile_normal-ready_example =
    reconcile_normal-ready running_vm (govmomi_service running_vm networked) context none-ne-some
      becomes_ready

-- the error of the lookup ends the reconcile of a VM that is not being deleted
create_claims-IsCounted_example : IsCounted both × (both.total ≡ length two_claims)
create_claims-IsCounted_example =
    create_claims-IsCounted vcenter two_claims context both both_returned
