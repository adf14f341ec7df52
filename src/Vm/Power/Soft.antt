-- ===== src/Vm/Power/Soft.antt =====
-- What the soft power off (pkg/services/govmomi/power.go) answers in each mode.
use cluster_api_provider_vsp.Prelude.{◌+◌, ◌-◌, ◌≤◌, Bool, true, false, ◌≡◌, ◌≢◌, ◌∷◌, arith, ltb}
use cluster_api_provider_vsp.Errors.{ok}
use cluster_api_provider_vsp.Exec.{◌>>=◌}
use cluster_api_provider_vsp.Api.{soft, try_soft}
use cluster_api_provider_vsp.Api.Conditions.{ConditionType}
use cluster_api_provider_vsp.World.{World, MoRef, read_clock}
use cluster_api_provider_vsp.Vm.Context.{Context, ask, try, perform, set_condition}
use cluster_api_provider_vsp.Vm.Power.{soft_power_off_timeout, trigger_soft_power_off}

module _ (w : World) (ref : MoRef) (s : Context) where
  abbrev triggered : Bool
  triggered = w.has_condition s.trace ConditionType.guest_soft_power_off_succeeded

  -- If the power off mode is soft, then triggerSoftPowerOff does not answer that a hard power off
  -- may follow.
  pub soft-ne-false :
      s.vsphere_vm.spec.power_off_mode ≡ soft → (trigger_soft_power_off w ref s).0 ≢ ok false
  unfolding trigger_soft_power_off ◌>>=◌ ask try perform set_condition
  soft-ne-false m = ground arith

  -- If the power off mode is trySoft and a soft power off was triggered, then triggerSoftPowerOff
  -- answers that it is pending exactly while less than the timeout has passed since the condition
  -- on it last changed.
  pub try_soft-triggered :
      s.vsphere_vm.spec.power_off_mode ≡ try_soft
      → triggered ≡ true
      → (trigger_soft_power_off w ref s).0
        ≡ ok (
            ltb
              (w.now s.trace
                - w.last_transition_time
                    (read_clock ∷ s.trace)
                    ConditionType.guest_soft_power_off_succeeded)
              (soft_power_off_timeout s.vsphere_vm.spec.guest_soft_power_off_timeout_seconds))
  unfolding trigger_soft_power_off ◌>>=◌ ask try perform set_condition soft_power_off_timeout
  try_soft-triggered m t = ground arith

  -- If the power off mode is trySoft, no timeout is set, a soft power off was triggered, and at
  -- least 300 nanoseconds have passed since the condition on it last changed, then
  -- triggerSoftPowerOff answers that a hard power off may follow.
  pub try_soft-default_timeout :
      s.vsphere_vm.spec.power_off_mode ≡ try_soft
      → s.vsphere_vm.spec.guest_soft_power_off_timeout_seconds ≡ 0
      → triggered ≡ true
      → w.last_transition_time (read_clock ∷ s.trace) ConditionType.guest_soft_power_off_succeeded
          + 300
        ≤ w.now s.trace
      → (trigger_soft_power_off w ref s).0 ≡ ok false
  unfolding soft_power_off_timeout
  try_soft-default_timeout m z t late = ground (arith, try_soft-triggered m t)
