-- ===== src/Vm/Context.antt =====
-- `capvcontext.VMContext` and `virtualMachineContext` (pkg/context/vm_context.go,
-- pkg/services/govmomi/context.go): what one reconcile of a VSphereVM works on, with the calls that
-- it has made. `VirtualMachine` is the result that the service fills in through `State`.
use cluster_api_provider_vsp.Prelude.{ℕ, String, Option, List, ◌∷◌}
use cluster_api_provider_vsp.Errors.{Error, Outcome, ok}
use cluster_api_provider_vsp.Exec.{Exec, of_error}
use cluster_api_provider_vsp.Api.{
  NetworkDeviceSpec, FailureDomainTopology, VsphereVm, VirtualMachine, VirtualMachineState,
}
use cluster_api_provider_vsp.Api.Conditions.{
  ConditionType, ConditionStatus, Reason, Message, ConditionWrite, set,
}
use cluster_api_provider_vsp.World.{Trace, Call, write_condition}

-- `map[string]infrav1.NetworkDeviceSpec`, by MAC address
abbrev pub IpamState : Type 0
IpamState = List (String × NetworkDeviceSpec)

pub record Context : Type 0 where
  pub vsphere_vm : VsphereVm
  pub vm : VirtualMachine
  pub cluster_module_info : Option String
  pub failure_domain : Option FailureDomainTopology
  pub ipam_state : IpamState
  pub trace : Trace

abbrev pub Action : Type 0 → Type 0
Action A = Exec Context A

-- Every way to call the world records the call; the answer depends on the calls before it.
module _ {A : Type 0} where
  unfoldable pub ask : Call → (Trace → A) → Action A
  ask c answer s = (ok (answer s.trace), record s { trace = c ∷ s.trace })

  unfoldable pub try : Call → (Trace → Outcome A) → Action A
  try c answer s = (answer s.trace, record s { trace = c ∷ s.trace })

unfoldable pub perform : Call → (Trace → Option Error) → Action Unit
perform c answer s = (of_error (answer s.trace), record s { trace = c ∷ s.trace })

-- a goroutine is started, or a condition is written: nothing is answered
unfoldable pub emit : Call → Action Unit
emit c s = (ok tt, record s { trace = c ∷ s.trace })

unfoldable pub write : ConditionWrite → Action Unit
unfolding emit
write w = emit (write_condition w)

-- `conditions.Set(vm, metav1.Condition{…})`
unfoldable pub set_condition : ConditionType → ConditionStatus → Reason → Message → Action Unit
unfolding write
set_condition t s r m = write (set (record { type = t; status = s; reason = r; message = m }))

abbrev pub with_task_ref : String → VsphereVm → VsphereVm
with_task_ref ref vm = record vm { status = record vm.status { task_ref = ref } }

abbrev pub with_retry_after : ℕ → VsphereVm → VsphereVm
with_retry_after t vm = record vm { status = record vm.status { retry_after = t } }

-- `vmCtx.VSphereVM.Status.TaskRef = ref`
unfoldable pub set_task_ref : String → Action Unit
set_task_ref ref s = (ok tt, record s { vsphere_vm = with_task_ref ref s.vsphere_vm })

unfoldable pub set_retry_after : ℕ → Action Unit
set_retry_after t s = (ok tt, record s { vsphere_vm = with_retry_after t s.vsphere_vm })

unfoldable pub set_state : VirtualMachineState → Action Unit
set_state v s = (ok tt, record s { vm = record s.vm { state = v } })
