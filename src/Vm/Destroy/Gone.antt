-- ===== src/Vm/Destroy/Gone.antt =====
-- When `DestroyVM` (pkg/services/govmomi/service.go) says that there is no VM.
use cluster_api_provider_vsp.Prelude.{Bool, true, false, ◌≡◌, ◌↔◌, ◌||◌, arith}
use cluster_api_provider_vsp.Errors.{Outcome, ok, err, is_not_found, is_folder_not_found}
use cluster_api_provider_vsp.Exec.{◌>>=◌}
use cluster_api_provider_vsp.Api.{VirtualMachineState, not_found}
use cluster_api_provider_vsp.World.{World, MoRef}
use cluster_api_provider_vsp.Vm.Context.{
  Context, ask, try, perform, emit, write, set_condition, set_state, set_task_ref, set_retry_after,
}
use cluster_api_provider_vsp.Vm.Task.{
  get_task, reconcile_in_flight_task, reconcile_vsphere_vm_on_task_completion,
}
use cluster_api_provider_vsp.Vm.Find.{find_vm, find_by_uid, find_by_path}
use cluster_api_provider_vsp.Vm.Power.{
  get_power_state, trigger_soft_power_off, soft_power_off, is_soft_power_off_timeout_exceeded,
  shut_down_guest, cannot_shut_down, report_soft_power_off,
}
use cluster_api_provider_vsp.Vm.Membership.{set_module_uuid}
use cluster_api_provider_vsp.Vm.Service.{start}
use cluster_api_provider_vsp.Vm.Destroy.{
  power_off_vm, destroy_powered_off, destroy_found, on_return, destroy_vm,
}

-- the search ended with an error that says that there is no VM, or no folder for it
abbrev pub is_gone : Outcome MoRef → Bool
is_gone (ok ref) = false
is_gone (err e) = is_not_found e || is_folder_not_found e

module _ (w : World) (s : Context) where
  trigger-state : (ref : MoRef) → (trigger_soft_power_off w ref s).1.vm.state ≡ s.vm.state
  unfolding trigger_soft_power_off soft_power_off is_soft_power_off_timeout_exceeded shut_down_guest
      cannot_shut_down report_soft_power_off ◌>>=◌ ask try perform write emit set_condition
  trigger-state ref = ground arith

  powered_off-state : (ref : MoRef) → (destroy_powered_off w ref s).1.vm.state ≡ s.vm.state
  unfolding destroy_powered_off ◌>>=◌ try perform write emit set_condition set_task_ref
      set_module_uuid
  powered_off-state ref = ground arith

  find_vm-state : (find_vm w s).1.vm.state ≡ s.vm.state
  unfolding find_vm find_by_uid find_by_path ◌>>=◌ try
  find_vm-state = ground arith

  in_flight-state : (reconcile_in_flight_task w s).1.vm.state ≡ s.vm.state
  unfolding reconcile_in_flight_task ◌>>=◌ ask try write emit set_condition set_task_ref
      set_retry_after
  in_flight-state = ground arith

  on_return-state : (on_return w s).vm.state ≡ s.vm.state
  unfolding reconcile_vsphere_vm_on_task_completion get_task ◌>>=◌ try emit
  on_return-state = ground arith

module _ (w : World) where
  power_off-state : (ref : MoRef) (s : Context) → (power_off_vm w ref s).1.vm.state ≡ s.vm.state
  unfolding power_off_vm ◌>>=◌ try perform set_task_ref
  power_off-state ref s = ground (arith, trigger-state w s ref)

  found-state : (ref : MoRef) (s : Context) → (destroy_found w (ok ref) s).1.vm.state ≡ s.vm.state
  unfolding get_power_state ◌>>=◌ try
  found-state ref s = ground (
    arith,
    power_off-state ref (get_power_state w ref s).1,
    powered_off-state w (get_power_state w ref s).1 ref,
  )

  found-not_found :
      (r : Outcome MoRef) (s : Context)
      → s.vm.state ≡ VirtualMachineState.pending
      → ((destroy_found w r s).1.vm.state ≡ not_found) ↔ (is_gone r ≡ true)
  unfolding ◌>>=◌ set_state
  found-not_found (ok ref) s h = ground (arith, h, found-state ref s)
  found-not_found (err e) s h = ground (arith, h)

  -- the state once the task in flight is tracked
  abbrev pub tracked : Context → Context
  tracked s = (reconcile_in_flight_task w (start s)).1

  -- DestroyVM answers a VM that is not found exactly where no task is in flight and the search for
  -- the VM ends in an error that says that there is no VM, or in a not-found error of the finder.
  pub destroy_vm-not_found :
      (s : Context)
      → ((destroy_vm w s).1.vm.state ≡ not_found)
        ↔ ((reconcile_in_flight_task w (start s)).0 ≡ ok false)
          × (is_gone (find_vm w (tracked s)).0 ≡ true)
  unfolding destroy_vm ◌>>=◌ start
  destroy_vm-not_found s = ground (
    arith,
    in_flight-state w (start s),
    find_vm-state w (tracked s),
    found-not_found (find_vm w (tracked s)).0 (find_vm w (tracked s)).1,
    on_return-state w (destroy_found w (find_vm w (tracked s)).0 (find_vm w (tracked s)).1).1,
  )
