-- ===== src/Vm/Calls/Reading.antt =====
-- The calls that only read, and those of the task tracking and of the search for the VM
-- (pkg/services/govmomi/util.go).
use cluster_api_provider_vsp.Prelude.{String, Bool, true, false, ◌≡◌, Option, none, some}
use cluster_api_provider_vsp.Errors.{Outcome, ok, err}
use cluster_api_provider_vsp.Exec.Keeps.{Keeps}
use cluster_api_provider_vsp.World.{
  World, MoRef, TaskState, TaskError, TaskInfo, Call, queued, running, success, error_state,
  unknown_task_state,
}
use cluster_api_provider_vsp.Vm.Context.{Context}
use cluster_api_provider_vsp.Vm.Task.{
  get_task, is_before_retry, report_failure, failed_task, by_task_state, check_and_retry_task,
  reconcile_in_flight_task, watch_task_of, reconcile_vsphere_vm_on_task_completion,
}
use cluster_api_provider_vsp.Vm.Find.{
  find_by_path, find_by_uid, find_vm, or_by_path, found_by_path, found_by_bios_uuid,
}
use cluster_api_provider_vsp.Vm.Power.{known_power_state, get_power_state}
use cluster_api_provider_vsp.Vm.Membership.{set_module_uuid}
use cluster_api_provider_vsp.Api.{PowerState, unknown_state}
use cluster_api_provider_vsp.Vm.Calls.{Since, calls_rules}

-- The calls that change nothing in vCenter, in the VM or in the objects of the API server.
abbrev pub is_reading : Call → Bool
is_reading (Call.clone _ _) = false
is_reading (Call.power_on _) = false
is_reading (Call.power_off _) = false
is_reading (Call.destroy _) = false
is_reading (Call.shutdown_guest _) = false
is_reading (Call.upgrade_vm _ _) = false
is_reading (Call.reconfigure _ _) = false
is_reading (Call.add_pci_devices _ _) = false
is_reading (Call.add_to_vm_group _ _ _) = false
is_reading (Call.attach_tags _ _) = false
is_reading (Call.add_to_module _ _) = false
is_reading (Call.remove_from_module _ _) = false
is_reading Call.patch = false
is_reading (Call.create_or_patch_claim _ _) = false
is_reading (Call.remove_claim_finalizer _) = false
is_reading (Call.delete_node _) = false
is_reading _ = true

pub set_module_uuid-Since :
    (allowed : Call → Bool) (old : Context) (m : Option String)
    → Keeps (Since allowed old) (set_module_uuid m)
unfolding set_module_uuid
set_module_uuid-Since allowed old m = record {
  at = λ s k. record { added = k.added; kept = k.kept };
}

module _ (allowed : Call → Bool) (reads : (c : Call) → is_reading c ≡ true → allowed c ≡ true)
    (w : World) (old : Context) where
  get_task-Since : Keeps (Since allowed old) (get_task w)
  unfolding get_task
  get_task-Since = search (calls_rules, reads) depth 8

  is_before_retry-Since : Keeps (Since allowed old) (is_before_retry w)
  unfolding is_before_retry
  is_before_retry-Since = search (calls_rules, reads) depth 8

  report_failure-Since : (m : String) → Keeps (Since allowed old) (report_failure w m)
  unfolding report_failure
  report_failure-Since m = search (calls_rules, reads) depth 9

  failed_task-Since : (e : Option TaskError) → Keeps (Since allowed old) (failed_task w e)
  unfolding failed_task
  failed_task-Since none = report_failure-Since ""
  failed_task-Since (some e) = search (calls_rules, report_failure-Since) depth 8

  by_task_state-Since :
      (t : TaskState) (e : Option TaskError) → Keeps (Since allowed old) (by_task_state w t e)
  unfolding by_task_state
  by_task_state-Since queued e = search calls_rules
  by_task_state-Since running e = search calls_rules
  by_task_state-Since success e = search calls_rules
  by_task_state-Since error_state e = failed_task-Since e
  by_task_state-Since (unknown_task_state _) e = search calls_rules

  check_and_retry_task-Since :
      (t : Option TaskInfo) → Keeps (Since allowed old) (check_and_retry_task w t)
  unfolding check_and_retry_task
  check_and_retry_task-Since none = search calls_rules
  check_and_retry_task-Since (some t) =
      search (calls_rules, is_before_retry-Since, by_task_state-Since)

  pub reconcile_in_flight_task-Since : Keeps (Since allowed old) (reconcile_in_flight_task w)
  unfolding reconcile_in_flight_task
  reconcile_in_flight_task-Since = search (calls_rules, get_task-Since, check_and_retry_task-Since)

  watch-Since :
      (ref : String) (t : Option TaskInfo) → Keeps (Since allowed old) (watch_task_of ref t)
  watch-Since ref none = search calls_rules
  watch-Since ref (some t) = search (calls_rules, reads)

  pub on_task_completion-Since :
      Keeps (Since allowed old) (reconcile_vsphere_vm_on_task_completion w)
  unfolding reconcile_vsphere_vm_on_task_completion
  on_task_completion-Since = search (calls_rules, get_task-Since, watch-Since)

  found_by_path-Since :
      (p : String) (r : Outcome MoRef) → Keeps (Since allowed old) (found_by_path p r)
  found_by_path-Since p (ok ref) = search calls_rules
  found_by_path-Since p (err e) = search calls_rules

  find_by_path-Since : Keeps (Since allowed old) (find_by_path w)
  unfolding find_by_path
  find_by_path-Since = search (calls_rules, reads, found_by_path-Since) depth 9

  or_by_path-Since : (r : Option MoRef) → Keeps (Since allowed old) (or_by_path w r)
  or_by_path-Since none = find_by_path-Since
  or_by_path-Since (some ref) = search calls_rules

  find_by_uid-Since : Keeps (Since allowed old) (find_by_uid w)
  unfolding find_by_uid
  find_by_uid-Since = search (calls_rules, reads, or_by_path-Since) depth 8

  found_by_bios_uuid-Since :
      (u : String) (r : Option MoRef) → Keeps (Since allowed old) (found_by_bios_uuid u r)
  found_by_bios_uuid-Since u none = search calls_rules
  found_by_bios_uuid-Since u (some ref) = search calls_rules

  pub find_vm-Since : Keeps (Since allowed old) (find_vm w)
  unfolding find_vm
  find_vm-Since = search (calls_rules, reads, find_by_uid-Since, found_by_bios_uuid-Since) depth 9

  known_power_state-Since : (p : PowerState) → Keeps (Since allowed old) (known_power_state p)
  known_power_state-Since (unknown_state _) = search calls_rules
  known_power_state-Since _ = search calls_rules

  pub get_power_state-Since : (ref : MoRef) → Keeps (Since allowed old) (get_power_state w ref)
  unfolding get_power_state
  get_power_state-Since ref = search (calls_rules, reads, known_power_state-Since)
