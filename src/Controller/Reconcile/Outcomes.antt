-- ===== src/Controller/Reconcile/Outcomes.antt =====
-- The outcomes of a reconcile (controllers/vspherevm_controller.go) for the finalizer and for
-- `Status.Ready`.
use cluster_api_provider_vsp.Prelude.{
  ◌&&◌, not, deref, Bool, true, false, ◌≡◌, ◌≢◌, ◌↔◌, refl, Option, none, some, arith, is_empty,
  is_nil, if◌then◌else◌,
}
use cluster_api_provider_vsp.Errors.{Error, ok, err}
use cluster_api_provider_vsp.Exec.{attempt, ◌>>=◌}
use cluster_api_provider_vsp.Exec.Keeps.{Keeps-attempt}
use cluster_api_provider_vsp.Api.{not_found, ready_state}
use cluster_api_provider_vsp.Api.Conditions.{deleting_v1beta1, deleting, info, no_message}
use cluster_api_provider_vsp.World.{World}
use cluster_api_provider_vsp.Vm.Context.{Context, ask, set_condition}
use cluster_api_provider_vsp.Vm.Calls.{held, same}
use cluster_api_provider_vsp.Vm.Update.{not_yet_provisioned}
use cluster_api_provider_vsp.Controller.Claims.{
  delete_ip_address_claims, reconcile_ip_address_claims,
}
use cluster_api_provider_vsp.Controller.Reconcile.Held.{
  info-Since, with_info-Since, reconcile_ip_address_claims-held, delete_node-held,
  delete_claims-held,
}
use cluster_api_provider_vsp.Controller.Service.{VmService}
use cluster_api_provider_vsp.Controller.Reconcile.{
  keep_vm_ref, delete_node, all_addresses, ReconcileInput, fetch_cluster_module_info,
  with_module_info, take_over, reconcile_network, reconcile_normal, reconcile_delete, reconcile,
}

abbrev pub finalizer : Context → Bool
finalizer s = s.vsphere_vm.has_finalizer

abbrev pub ready : Context → Option Bool
ready s = s.vsphere_vm.status.ready

module _ (w : World) (s : Context) where
  -- If Status.Ready is not true and the VM service calls the VM ready, then Status.Ready becomes
  -- true exactly where the VM has a BIOS UUID and its networks have an address.
  pub take_over-ready :
      ready s ≢ some true
      → (ready (take_over w s).1 ≡ some true)
        ↔ ((is_empty s.vm.bios_uuid ≡ false) × (is_nil (all_addresses s.vm.network) ≡ false))
  unfolding take_over ◌>>=◌ not_yet_provisioned set_condition reconcile_network keep_vm_ref
  take_over-ready h = ground arith

module _ (w : World) (service : VmService) (s : Context) where
  -- the state in which the VM service is asked to destroy the VM
  abbrev pub entered : Context
  entered = (not_yet_provisioned deleting_v1beta1 info deleting no_message s).1

  -- the VM service has answered, and the node of the VM was to be deleted
  abbrev pub destroyed : Context
  destroyed = (service.destroy_vm entered).1

  abbrev pub without_node : Context
  without_node = (delete_node w destroyed.vm.name destroyed).1

  -- For a VSphereVM that has its finalizer, reconcileDelete takes the finalizer away exactly where
  -- DestroyVM answers no requeue time and no error, the VM is not found, and the claims are
  -- released without an error once the node was to be deleted; what the deletion of the node
  -- answers does not matter.
  pub reconcile_delete-finalizer :
      finalizer s ≡ true
      → (finalizer (reconcile_delete w service s).1 ≡ false)
        ↔ ((service.destroy_vm entered).0 ≡ ok 0)
          × (destroyed.vm.state ≡ not_found)
          × ((delete_ip_address_claims w without_node).0 ≡ ok tt)
  unfolding reconcile_delete ◌>>=◌ not_yet_provisioned set_condition
  reconcile_delete-finalizer h = ground (
    arith,
    service.destroy_vm-held entered,
    delete_node-held w destroyed destroyed.vm.name,
    delete_claims-held w without_node,
  )

  -- a VM that the service answers as ready, or not
  abbrev pub served : Context
  served = (service.reconcile_vm (reconcile_ip_address_claims w s).1).1

  reconcile_normal-finalizer : finalizer (reconcile_normal w service s).1 ≡ finalizer s
  unfolding reconcile_normal ◌>>=◌ not_yet_provisioned set_condition reconcile_network keep_vm_ref
      ask
  reconcile_normal-finalizer = ground (
    arith,
    service.reconcile_vm-held (reconcile_ip_address_claims w s).1,
    reconcile_ip_address_claims-held w s,
  )

  -- For any VM service: if Status.Ready is not true before reconcileNormal and true after, then
  -- ReconcileVM, called after the claims are reconciled, left a VM in the state ready, with a BIOS
  -- UUID and at least one address.
  pub reconcile_normal-ready :
      ready s ≢ some true
      → ready (reconcile_normal w service s).1 ≡ some true
      → (served.vm.state ≡ ready_state)
        × (is_empty served.vm.bios_uuid ≡ false)
        × (is_nil (all_addresses served.vm.network) ≡ false)
  unfolding reconcile_normal ◌>>=◌ not_yet_provisioned set_condition reconcile_network keep_vm_ref
      ask
  reconcile_normal-ready h g = ground (
    arith,
    service.reconcile_vm-held (reconcile_ip_address_claims w s).1,
    reconcile_ip_address_claims-held w s,
  )

module _ (w : World) (service : VmService) (input : ReconcileInput) (s : Context) where
  -- the modules are looked up
  abbrev pub looks_up : Bool
  looks_up = input.node_anti_affinity && not (deref input.disable_cluster_module false)

  -- the state once the cluster module of the VM is looked up
  abbrev pub fetched : Context
  fetched = (fetch_cluster_module_info w input s).1

  abbrev pub informed : Context
  informed =
      if looks_up then (attempt (fetch_cluster_module_info w input) with_module_info s).1 else s

  informed-held : held informed ≡ held s
  informed-held = by_gate looks_up
    where
      by_gate :
          (b : Bool)
          → held
              (if b then (attempt (fetch_cluster_module_info w input) with_module_info s).1 else s)
            ≡ held s
      by_gate true =
          ((Keeps-attempt _ _ (info-Since w s input) (with_info-Since s)).at s
            (record { added = same; kept = refl })).kept
      by_gate false = refl

  -- For any VM service: if a VSphereVM has its finalizer before a reconcile and lacks it after,
  -- then it is being deleted, and DestroyVM, called in the state that the lookup of the cluster
  -- module leaves, answered no requeue time and no error with a VM that is not found.
  pub reconcile-finalizer :
      finalizer s ≡ true
      → finalizer (reconcile w service input s).1 ≡ false
      → (s.vsphere_vm.is_deleted ≡ true)
        × ((service.destroy_vm (entered w service informed)).0 ≡ ok 0)
        × ((service.destroy_vm (entered w service informed)).1.vm.state ≡ not_found)
  unfolding reconcile ◌>>=◌
  reconcile-finalizer h g = ground (
    arith,
    informed-held,
    reconcile_delete-finalizer w service informed,
    reconcile_normal-finalizer w service informed,
  )

  -- If cluster modules are looked up and the lookup answers an error, then the reconcile of a
  -- VSphereVM that is being deleted goes on to reconcileDelete without a module, and any other
  -- reconcile returns that error at once.
  pub reconcile-module_error :
      (e : Error)
      → looks_up ≡ true
      → (fetch_cluster_module_info w input s).0 ≡ err e
      → reconcile w service input s ≡ (
          if fetched.vsphere_vm.is_deleted
          then reconcile_delete w service (record fetched { cluster_module_info = none })
          else (err e, fetched))
  unfolding reconcile ◌>>=◌
  reconcile-module_error e h g = ground arith
