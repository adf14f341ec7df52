-- ===== src/Vm/Task.antt =====
-- The tracking of vCenter tasks (pkg/services/govmomi/util.go: getTask, reconcileInFlightTask,
-- checkAndRetryTask, isInvalidPowerStateAndExpectedPowerState, reconcileVSphereVMOnTaskCompletion).
pub mod Retry
use cluster_api_provider_vsp.Prelude.{
  ℕ, ◌+◌, String, Bool, true, false, Option, none, some, is_empty, str_eq, ltb, ◌==◌, if◌then◌else◌,
}
use cluster_api_provider_vsp.Errors.{Outcome, ok, err, errorf}
use cluster_api_provider_vsp.Exec.{pure, fail, gets, attempt, ◌>>=◌, ◌>>◌}
use cluster_api_provider_vsp.Api.{PowerState, powered_on, powered_off, suspended, unknown_state}
use cluster_api_provider_vsp.Api.Conditions.{
  ConditionType, status_false, task_failed, no_message, text, vm_provisioned_v1beta1, task_failure,
  info, mark_false,
}
use cluster_api_provider_vsp.World.{
  World, TaskState, queued, running, success, error_state, unknown_task_state, MethodFault,
  invalid_power_state, other_fault, TaskError, TaskInfo, Call, read_clock, watch_task,
}
use cluster_api_provider_vsp.Vm.Context.{
  Context, Action, ask, try, emit, write, set_condition, set_task_ref, set_retry_after,
}

-- equality of `types.VirtualMachinePowerState`
unfoldable pub same_power_state : PowerState → PowerState → Bool
same_power_state powered_on powered_on = true
same_power_state powered_off powered_off = true
same_power_state suspended suspended = true
same_power_state (unknown_state a) (unknown_state b) = str_eq a b
same_power_state _ _ = false

unfoldable pub is_invalid_power_state_and_expected_power_state : MethodFault → Bool
unfolding same_power_state
is_invalid_power_state_and_expected_power_state (invalid_power_state existing requested) =
    same_power_state existing requested
is_invalid_power_state_and_expected_power_state other_fault = false

abbrev pub to_option {ℓ} : {A : Type ℓ} → Outcome A → Option A
to_option (ok a) = some a
to_option (err e) = none

-- one minute, in nanoseconds
abbrev pub task_retry_delay : ℕ
task_retry_delay = 60000000000

abbrev pub watch_task_of : String → Option TaskInfo → Action Unit
watch_task_of ref none = pure tt
watch_task_of ref (some t) = emit (watch_task ref)

module _ (w : World) where
  -- no task is recorded, or it cannot be retrieved: none
  unfoldable pub get_task : Action (Option TaskInfo)
  get_task = do
    ref ← gets (λ s. s.vsphere_vm.status.task_ref)
    if is_empty ref
        then pure none
        else attempt (try (Call.retrieve_task ref) (λ tr. w.retrieve_task tr ref))
            (λ r. pure (to_option r))

  -- `!RetryAfter.IsZero() && time.Now().Before(RetryAfter)`
  unfoldable pub is_before_retry : Action Bool
  is_before_retry = do
    retry_after ← gets (λ s. s.vsphere_vm.status.retry_after)
    if retry_after == 0
        then pure false
        else do now ← ask read_clock w.now; pure (ltb now retry_after)

  -- the task has failed: wait for a minute, and forget the task at the second look
  unfoldable pub report_failure : String → Action Bool
  report_failure error_message = do
    write (mark_false vm_provisioned_v1beta1 task_failure info (text error_message))
    set_condition ConditionType.virtual_machine_provisioned status_false task_failed no_message
    retry_after ← gets (λ s. s.vsphere_vm.status.retry_after)
    if retry_after == 0
        then (do now ← ask read_clock w.now; set_retry_after (now + task_retry_delay); pure true)
        else (do set_task_ref ""; set_retry_after 0; pure true)

  unfoldable pub failed_task : Option TaskError → Action Bool
  unfolding report_failure is_invalid_power_state_and_expected_power_state
  failed_task none = report_failure ""
  failed_task (some e) =
      if is_invalid_power_state_and_expected_power_state e.fault
      then (do set_task_ref ""; pure false)
      else report_failure e.localized_message

  unfoldable pub by_task_state : TaskState → Option TaskError → Action Bool
  unfolding failed_task
  by_task_state queued e = pure true
  by_task_state running e = pure true
  by_task_state success e = do set_task_ref ""; pure false
  by_task_state error_state e = failed_task e
  by_task_state (unknown_task_state _) e = fail (errorf "unknown task state %q for %q")

  unfoldable pub check_and_retry_task : Option TaskInfo → Action Bool
  unfolding by_task_state is_before_retry
  check_and_retry_task none = do set_task_ref ""; pure false
  check_and_retry_task (some task) = do
    wait ← is_before_retry
    if wait
        then fail (errorf "last task failed retry after %v")
        else by_task_state task.state task.error

  unfoldable pub reconcile_in_flight_task : Action Bool
  unfolding get_task check_and_retry_task
  reconcile_in_flight_task = do task ← get_task; check_and_retry_task task

  -- If there is a task, a goroutine waits for its end; it sends an event for the VSphereVM where
  -- the wait answers, and the task is not in the error state.
  unfoldable pub reconcile_vsphere_vm_on_task_completion : Action Unit
  unfolding get_task
  reconcile_vsphere_vm_on_task_completion = do
    task ← get_task
    ref ← gets (λ s. s.vsphere_vm.status.task_ref)
    watch_task_of ref task

-- What the goroutine does with the answer of its wait: true where it sends the event.
unfoldable pub sends_event : Outcome (Option TaskInfo) → Bool
sends_event (err e) = false
sends_event (ok none) = true
sends_event (ok (some t)) = elim t.state [ error_state ↦ false | _ ↦ true ]
