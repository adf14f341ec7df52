-- ===== src/Tests/Tasks.antt =====
-- The theorems on tasks, on the soft power off and on PCI devices, at concrete inputs.
use cluster_api_provider_vsp.Prelude.{
  ℕ, ◌+◌, ◌-◌, String, true, false, ◌≡◌, refl, Option, none, some, [], ◌∷◌, arith, lookup, insert,
}
use cluster_api_provider_vsp.Errors.{Outcome, ok, err, errorf}
use cluster_api_provider_vsp.Api.{PciDeviceSpec, soft}
use cluster_api_provider_vsp.World.{World, TaskInfo, TaskError, other_fault, error_state}
use cluster_api_provider_vsp.Vm.Context.{Context}
use cluster_api_provider_vsp.Vm.Task.{
  is_invalid_power_state_and_expected_power_state, check_and_retry_task, task_retry_delay,
}
use cluster_api_provider_vsp.Vm.Task.Retry.{
  is_failure, retry_table, check-failed_task, failed_task-forgotten,
}
use cluster_api_provider_vsp.Vm.Power.{trigger_soft_power_off}
use cluster_api_provider_vsp.Vm.Power.Soft.{try_soft-default_timeout}
use cluster_api_provider_vsp.Vm.Pci.{
  construct_key, with_keys, count_keys, pick_specs, calculate_devices_to_be_added,
}
use cluster_api_provider_vsp.Vm.Pci.Missing.{count_specs, calculate-missing}
use cluster_api_provider_vsp.Decimal.{decimal, digits_above, digit}
use cluster_api_provider_vsp.Tests.{vcenter, machine, context, with_task}

abbrev failure : Option TaskError
failure = some (record { fault = other_fault; localized_message = "out of space" })

failure-is_failure : is_failure failure ≡ true
unfolding is_invalid_power_state_and_expected_power_state
failure-is_failure = refl

abbrev failed : Option TaskInfo
failed = some (record { state = error_state; error = failure })

-- the clock of a later look
abbrev later_world : ℕ → World
later_world t = record vcenter { now = λ tr. t }

abbrev lost_world : World
lost_world = record vcenter { retrieve_task = λ tr ref. err (errorf "not authenticated") }

abbrev in_soft_mode : Context
in_soft_mode = record context {
  vsphere_vm = record machine { spec = record machine.spec { power_off_mode = soft } };
}

abbrev gpu : PciDeviceSpec
gpu = record { device_id = some 78; vendor_id = some 43; vgpu_profile = ""; custom_label = "" }

abbrev vgpu : PciDeviceSpec
vgpu = record { device_id = none; vendor_id = none; vgpu_profile = "grid"; custom_label = "" }

-- one device of each key is there
abbrev one_of_each : Outcome String → ℕ
one_of_each key = 1

check-failed_task_example :
    (let (r, s') = check_and_retry_task vcenter failed with_task in
      (r, s'.vsphere_vm.status.task_ref, s'.vsphere_vm.status.retry_after))
    ≡ retry_table "task-1" 0 1000 1000
check-failed_task_example = check-failed_task vcenter with_task failure failure-is_failure

failed_task-forgotten_example :
    ((check_and_retry_task vcenter failed with_task).0 ≡ ok true)
    × ((check_and_retry_task vcenter failed with_task).1.vsphere_vm.status.task_ref ≡ "task-1")
    × ((check_and_retry_task
          (later_world (1000 + task_retry_delay))
          failed
          (check_and_retry_task vcenter failed with_task).1).0
        ≡ ok true)
    × ((check_and_retry_task
          (later_world (1000 + task_retry_delay))
          failed
          (check_and_retry_task vcenter failed with_task).1).1.vsphere_vm.status.task_ref
        ≡ "")
    × ((check_and_retry_task
          (later_world (1000 + task_retry_delay))
          failed
          (check_and_retry_task vcenter failed with_task).1).1.vsphere_vm.status.retry_after
        ≡ 0)
failed_task-forgotten_example =
    failed_task-forgotten failure failure-is_failure vcenter (later_world (1000 + task_retry_delay))
      with_task refl (omega arith)

-- 500 nanoseconds after the shutdown was asked for, the default timeout is over
try_soft-default_timeout_example : (trigger_soft_power_off vcenter "vm-1" context).0 ≡ ok false
try_soft-default_timeout_example =
    try_soft-default_timeout vcenter "vm-1" context refl refl refl (omega arith)

one_gpu :
    calculate_devices_to_be_added (gpu ∷ vgpu ∷ gpu ∷ []) (λ s. one_of_each (construct_key s))
    ≡ ok (gpu ∷ [])
unfolding calculate_devices_to_be_added with_keys construct_key count_keys pick_specs decimal
    digits_above digit lookup insert
one_gpu = refl

calculate-missing_example :
    count_specs "78-43" (gpu ∷ []) ≡ count_specs "78-43" (gpu ∷ vgpu ∷ gpu ∷ []) - 1
calculate-missing_example =
    calculate-missing (gpu ∷ vgpu ∷ gpu ∷ []) (gpu ∷ []) one_of_each "78-43" one_gpu
