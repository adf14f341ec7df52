-- ===== src/Vm/Task/Retry.antt =====
-- What the task tracking (pkg/services/govmomi/util.go) answers, and the task reference that it
-- leaves.
use cluster_api_provider_vsp.Prelude.{
  ℕ, ◌+◌, ◌≤◌, ◌<◌, String, Bool, true, false, ◌≡◌, Option, none, some, ◌∷◌, is_empty, ltb, ◌==◌,
  if◌then◌else◌, arith,
}
use cluster_api_provider_vsp.Errors.{Outcome, ok, err, errorf}
use cluster_api_provider_vsp.Exec.{◌>>=◌}
use cluster_api_provider_vsp.Api.Conditions.{
  ConditionType, status_false, task_failed, no_message, text, vm_provisioned_v1beta1, task_failure,
  info, mark_false, set,
}
use cluster_api_provider_vsp.World.{
  World, Trace, TaskState, error_state, queued, running, TaskError, TaskInfo, Call, write_condition,
}
use cluster_api_provider_vsp.Vm.Context.{
  Context, ask, try, set_condition, set_task_ref, set_retry_after,
}
use cluster_api_provider_vsp.Vm.Task.{
  is_invalid_power_state_and_expected_power_state, task_retry_delay, check_and_retry_task,
  reconcile_in_flight_task,
}

-- the error of a task that failed for another reason than that nothing was to be done
abbrev pub is_failure : Option TaskError → Bool
is_failure none = true
is_failure (some e) =
    if is_invalid_power_state_and_expected_power_state e.fault then false else true

abbrev pub failure_message : Option TaskError → String
failure_message none = ""
failure_message (some e) = e.localized_message

-- the calls before the clock is read for the first time for a failed task
abbrev pub after_report : Option TaskError → Trace → Trace
after_report e tr =
    write_condition (
      set (record {
        type = ConditionType.virtual_machine_provisioned;
        status = status_false;
        reason = task_failed;
        message = no_message;
      }))
    ∷ write_condition
        (mark_false vm_provisioned_v1beta1 task_failure info (text (failure_message e)))
    ∷ tr

-- A failed task, as a table over the time of the next try: nothing is noted, the time has not come,
-- or it has. What comes out is the answer, the task reference and the time of the next try.
abbrev pub retry_table :
    (ref : String) → (retry_after : ℕ) → (first : ℕ) → (later : ℕ) → Outcome Bool × String × ℕ
retry_table ref retry_after first later =
    if retry_after == 0
    then (ok true, ref, first + task_retry_delay)
    else (if ltb later retry_after
        then (err (errorf "last task failed retry after %v"), ref, retry_after)
        else (ok true, "", 0))

module _ (w : World) (s : Context) where
  -- For a task in the error state, unless its fault says that the power state is the requested one,
  -- the answer of checkAndRetryTask, the task reference and the time of the next try are those of
  -- the table retry_table: the first look notes a time one minute ahead, a look before that time is
  -- an error that changes neither, and a later look clears both.
  pub check-failed_task :
      (e : Option TaskError)
      → is_failure e ≡ true
      → (let (r, s') =
            check_and_retry_task w (some (record { state = error_state; error = e })) s in
          (r, s'.vsphere_vm.status.task_ref, s'.vsphere_vm.status.retry_after))
        ≡ retry_table s.vsphere_vm.status.task_ref s.vsphere_vm.status.retry_after
            (w.now (after_report e s.trace))
            (w.now s.trace)
  unfolding check_and_retry_task ◌>>=◌ ask set_task_ref set_retry_after set_condition
  check-failed_task e h = ground arith

  -- If reconcileInFlightTask answers that no task is in flight, then the task reference is cleared.
  pub in_flight-false :
      (reconcile_in_flight_task w s).0 ≡ ok false
      → (reconcile_in_flight_task w s).1.vsphere_vm.status.task_ref ≡ ""
  unfolding reconcile_in_flight_task ◌>>=◌ ask try set_task_ref set_retry_after set_condition
  in_flight-false h = ground arith

-- a task is waiting or at work
abbrev pub is_pending : TaskState → Bool
is_pending queued = true
is_pending running = true
is_pending _ = false

module _ (w : World) (s : Context) where
  -- If a task is recorded, no time of a next try is noted, and the task is queued or running, then
  -- reconcileInFlightTask answers that a task is in flight, and changes nothing but the record of
  -- its one call.
  pub in_flight-pending :
      (t : TaskInfo)
      → is_empty s.vsphere_vm.status.task_ref ≡ false
      → s.vsphere_vm.status.retry_after ≡ 0
      → w.retrieve_task s.trace s.vsphere_vm.status.task_ref ≡ ok t
      → is_pending t.state ≡ true
      → reconcile_in_flight_task w s
        ≡ (ok true, record s { trace = Call.retrieve_task s.vsphere_vm.status.task_ref ∷ s.trace })
  unfolding reconcile_in_flight_task ◌>>=◌ ask try set_task_ref set_retry_after set_condition
  in_flight-pending t h r e p = ground arith

-- Two looks at a failed task, in two worlds.
module _ (e : Option TaskError) (failed : is_failure e ≡ true) where
  abbrev look : World → Context → Outcome Bool × Context
  look w s = check_and_retry_task w (some (record { state = error_state; error = e })) s

  -- A failed task is forgotten: with no time of a next try noted, if a second look at it comes at
  -- least one minute after the first, both looks answer that a task is in flight, the first keeps
  -- the task reference, and the second clears it and the time.
  pub failed_task-forgotten :
      (w v : World) (s : Context)
      → s.vsphere_vm.status.retry_after ≡ 0
      → w.now (after_report e s.trace) + task_retry_delay ≤ v.now (look w s).1.trace
      → ((look w s).0 ≡ ok true)
        × ((look w s).1.vsphere_vm.status.task_ref ≡ s.vsphere_vm.status.task_ref)
        × ((look v (look w s).1).0 ≡ ok true)
        × ((look v (look w s).1).1.vsphere_vm.status.task_ref ≡ "")
        × ((look v (look w s).1).1.vsphere_vm.status.retry_after ≡ 0)
  failed_task-forgotten w v s h later =
      grind (arith, check-failed_task w s e failed, check-failed_task v (look w s).1 e failed)

  -- A failed task is kept for a minute: with no time of a next try noted, if a second look at it
  -- comes less than one minute after the first, it answers an error and keeps the task reference.
  pub failed_task-kept_until :
      (w v : World) (s : Context)
      → s.vsphere_vm.status.retry_after ≡ 0
      → v.now (look w s).1.trace < w.now (after_report e s.trace) + task_retry_delay
      → ((look v (look w s).1).0 ≡ err (errorf "last task failed retry after %v"))
        × ((look v (look w s).1).1.vsphere_vm.status.task_ref ≡ s.vsphere_vm.status.task_ref)
  failed_task-kept_until w v s h early =
      grind (arith, check-failed_task w s e failed, check-failed_task v (look w s).1 e failed)
