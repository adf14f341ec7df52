-- ===== src/VimMachine/Deletion.antt =====
-- When a VSphereMachine that is being deleted loses its finalizer (pkg/services/vimmachine.go:
-- ReconcileDelete, controllers/vspheremachine_controller.go: reconcileDelete).
use cluster_api_provider_vsp.Prelude.{
  String, Bool, true, false, ◌≡◌, ◌↔◌, Option, none, some, ◌∷◌, arith, if◌then◌else◌,
}
use cluster_api_provider_vsp.Errors.{Error, Outcome, ok, err, is_api_not_found}
use cluster_api_provider_vsp.Exec.{◌>>=◌}
use cluster_api_provider_vsp.VimMachine.{MachineVm, CapiMachine}
use cluster_api_provider_vsp.VimMachine.Names.{generate_vm_object_name}
use cluster_api_provider_vsp.VimMachine.World.{
  get_vm, Calls, MachineWorld, MachineState, call, run, change, mark,
}
use cluster_api_provider_vsp.VimMachine.Service.{find_vsphere_vm, mirror, reconcile_delete}
use cluster_api_provider_vsp.VimMachine.Controller.{delete_machine}

abbrev pub says_gone : Option Error → Bool
says_gone none = false
says_gone (some e) = is_api_not_found e

module _ (w : MachineWorld) where
  -- the VSphereVM is not found, when it is looked for or when its deletion is asked for
  abbrev pub gone_on_read : Calls → Outcome MachineVm → Bool
  gone_on_read calls (err e) = is_api_not_found e
  gone_on_read calls (ok vm) =
      if vm.is_deleted then false else says_gone (w.delete_vm calls vm.name)

  abbrev pub gone_under : Calls → Outcome String → Bool
  gone_under calls (err e) = is_api_not_found e
  gone_under calls (ok name) = gone_on_read (get_vm name ∷ calls) (w.get_vm calls name)

  -- For a VSphereMachine that has its finalizer, reconcileDelete takes the finalizer away exactly
  -- where the VSphereVM is not found, when it is read or when its deletion is asked for.
  pub delete_machine-finalizer :
      (owner : CapiMachine) (s : MachineState)
      → s.machine.has_finalizer ≡ true
      → ((delete_machine w owner s).1.machine.has_finalizer ≡ false)
        ↔ (gone_under s.calls (generate_vm_object_name w.templates s.machine owner.name) ≡ true)
  unfolding delete_machine reconcile_delete find_vsphere_vm call run mirror mark change ◌>>=◌
  delete_machine-finalizer owner s h = ground (arith, h)
