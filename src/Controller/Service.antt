-- ===== src/Controller/Service.antt =====
-- `services.VirtualMachineService` (pkg/services/interfaces.go): what the controller needs of the
-- VM service. The result's VirtualMachine is the `vm` of the context.
use cluster_api_provider_vsp.Prelude.{ℕ, ◌≡◌}
use cluster_api_provider_vsp.World.{World}
use cluster_api_provider_vsp.Vm.Context.{Context, Action}
use cluster_api_provider_vsp.Vm.Services.{Services}
use cluster_api_provider_vsp.Vm.Service.{reconcile_vm}
use cluster_api_provider_vsp.Vm.Destroy.{destroy_vm}
use cluster_api_provider_vsp.Vm.Calls.{held}
use cluster_api_provider_vsp.Vm.Calls.Reconcile
use cluster_api_provider_vsp.Vm.Destroy.Steps

pub record VmService : Type 0 where
  pub reconcile_vm : Action Unit
  -- answers the time after which to come back, 0 for none
  pub destroy_vm : Action ℕ
  -- the finalizer, the deletion and `Status.Ready` are the controller's
  pub reconcile_vm-held : (s : Context) → held (reconcile_vm s).1 ≡ held s
  pub destroy_vm-held : (s : Context) → held (destroy_vm s).1 ≡ held s

-- the implementation on govmomi
abbrev pub govmomi_service : World → Services → VmService
govmomi_service w v = record {
  reconcile_vm = reconcile_vm w v;
  destroy_vm = destroy_vm w;
  reconcile_vm-held = Reconcile.reconcile_vm-held w v;
  destroy_vm-held = Steps.destroy_vm-held w;
}
