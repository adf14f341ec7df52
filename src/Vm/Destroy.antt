-- ===== src/Vm/Destroy.antt =====
-- `DestroyVM` (pkg/services/govmomi/service.go). The VirtualMachine that it returns is the `vm` of the
-- context; the reconcile result is the time after which to come back, 0 for none.
pub mod Steps
pub mod Safety
pub mod Gone
use cluster_api_provider_vsp.Prelude.{ℕ, ◌*◌, String, ◌||◌, Option, none, some, if◌then◌else◌}
use cluster_api_provider_vsp.Errors.{
  Outcome, ok, err, is_not_found, is_folder_not_found, is_rest_not_found,
}
use cluster_api_provider_vsp.Exec.{pure, fail, gets, modify, attempt, deferred, ◌>>=◌, ◌>>◌}
use cluster_api_provider_vsp.Api.{not_found}
use cluster_api_provider_vsp.Api.Conditions.{
  ConditionType, status_true, soft_power_off_succeeded, no_message, mark_true,
  guest_soft_power_off_succeeded_v1beta1,
}
use cluster_api_provider_vsp.World.{World, MoRef, Call}
use cluster_api_provider_vsp.Vm.Context.{
  Context, Action, try, perform, write, set_condition, set_task_ref, set_state,
}
use cluster_api_provider_vsp.Vm.Task.{
  reconcile_in_flight_task, reconcile_vsphere_vm_on_task_completion,
}
use cluster_api_provider_vsp.Vm.Find.{find_vm}
use cluster_api_provider_vsp.Vm.Power.{
  second, is_powered_on, get_power_state, trigger_soft_power_off,
}
use cluster_api_provider_vsp.Vm.Membership.{set_module_uuid}
use cluster_api_provider_vsp.Vm.Service.{start}

module _ (w : World) where
  -- a wait of 20 seconds for the soft power off, or a hard power off
  unfoldable pub power_off_vm : MoRef → Action ℕ
  power_off_vm ref = do
    waiting ← trigger_soft_power_off w ref
    if waiting then pure (20 * second) else do
      task ← try (Call.power_off ref) (λ tr. w.power_off tr ref)
      set_task_ref task
      perform Call.patch w.patch
      pure 0

  abbrev pub left_module : Outcome (Unit {0}) → Action Unit
  left_module (ok u) = set_module_uuid none
  left_module (err e) = if is_rest_not_found e then set_module_uuid none else fail e

  abbrev pub leave_module : MoRef → Option String → Action Unit
  leave_module ref none = pure tt
  leave_module ref (some m) =
      attempt (perform (Call.remove_from_module m ref) (λ tr. w.remove_from_module tr m ref))
        left_module

  unfoldable pub destroy_powered_off : MoRef → Action ℕ
  destroy_powered_off ref = do
    soft ← gets (λ s. w.has_condition s.trace ConditionType.guest_soft_power_off_succeeded)
    if soft
        then (do
          write (mark_true guest_soft_power_off_succeeded_v1beta1)
          set_condition ConditionType.guest_soft_power_off_succeeded status_true
              soft_power_off_succeeded no_message)
        else pure tt
    module_info ← gets (λ s. s.cluster_module_info)
    leave_module ref module_info
    task ← try (Call.destroy ref) (λ tr. w.destroy tr ref)
    set_task_ref task
    pure 0

  abbrev pub destroy_found : Outcome MoRef → Action ℕ
  destroy_found (err e) =
      if is_not_found e || is_folder_not_found e then (do set_state not_found; pure 0) else fail e
  destroy_found (ok ref) = do
    p ← get_power_state w ref
    if is_powered_on p then power_off_vm ref else destroy_powered_off ref

  abbrev pub on_return : Context → Context
  on_return s = (reconcile_vsphere_vm_on_task_completion w s).1

  -- answers the time after which to come back, 0 for none
  unfoldable pub destroy_vm : Action ℕ
  destroy_vm = do
    modify start
    in_flight ← reconcile_in_flight_task w
    if in_flight then pure 0 else deferred on_return (attempt (find_vm w) destroy_found)
