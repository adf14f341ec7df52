-- ===== src/Vm/Power.antt =====
-- The power state and the soft power off of a VM (pkg/services/govmomi/power.go).
pub mod Soft
use cluster_api_provider_vsp.Prelude.{
  ℕ, ◌-◌, ◌*◌, String, Bool, true, false, not, ◌&&◌, deref, ltb, leb, ◌==◌, if◌then◌else◌,
}
use cluster_api_provider_vsp.Errors.{errorf}
use cluster_api_provider_vsp.Exec.{pure, fail, gets, ◌>>=◌, ◌>>◌}
use cluster_api_provider_vsp.Api.{
  PowerOpMode, unset, hard, soft, try_soft, PowerState, powered_on, unknown_state,
}
use cluster_api_provider_vsp.Api.Conditions.{
  ConditionType, V1Beta1Reason, Severity, Reason, status_false, soft_power_off_in_progress,
  soft_power_off_failed, text, guest_soft_power_off_succeeded_v1beta1,
  guest_soft_power_off_in_progress_v1beta1, guest_soft_power_off_failed_v1beta1, info, warning,
  mark_false,
}
use cluster_api_provider_vsp.World.{
  World, MoRef, Call, read_clock, query_power_state, query_tools_running, query_guest_state_change,
}
use cluster_api_provider_vsp.Vm.Context.{Context, Action, ask, try, perform, write, set_condition}

abbrev pub known_power_state : PowerState → Action PowerState
known_power_state (unknown_state _) = fail (errorf "unexpected power state %q for vm %s")
known_power_state p = pure p

abbrev pub is_powered_on : PowerState → Bool
is_powered_on powered_on = true
is_powered_on _ = false

-- one second, in nanoseconds
abbrev pub second : ℕ
second = 1000000000

-- `GuestSoftPowerOffDefaultTimeoutSeconds`, an untyped constant
abbrev pub guest_soft_power_off_default_timeout_seconds : ℕ
guest_soft_power_off_default_timeout_seconds = 5 * 60

-- The timeout as a `time.Duration`, in nanoseconds: a value of the spec is multiplied by
-- `time.Second`, and the constant is assigned as it is.
unfoldable pub soft_power_off_timeout : ℕ → ℕ
soft_power_off_timeout seconds =
    if seconds == 0 then guest_soft_power_off_default_timeout_seconds else seconds * second

abbrev pub is_soft : PowerOpMode → Bool
is_soft soft = true
is_soft _ = false

abbrev pub is_try_soft : PowerOpMode → Bool
is_try_soft try_soft = true
is_try_soft _ = false

abbrev no_tools : String
no_tools = "VMware Tools not installed on VM %s"

abbrev initiated : String
initiated = "guest soft power off initiated on VM %s"

module _ (w : World) where
  unfoldable pub get_power_state : MoRef → Action PowerState
  get_power_state ref = do
    p ← try (query_power_state ref) (λ tr. w.power_state tr ref)
    known_power_state p

  abbrev pub soft_power_off_triggered : Context → Bool
  soft_power_off_triggered s = w.has_condition s.trace ConditionType.guest_soft_power_off_succeeded

  -- `now.Sub(t)` is taken at 0 where the clock stands before `t`: it is compared with a timeout
  -- that is over 0.
  unfoldable pub is_soft_power_off_timeout_exceeded : Action Bool
  unfolding soft_power_off_timeout
  is_soft_power_off_timeout_exceeded = do
    triggered ← gets soft_power_off_triggered
    mode ← gets (λ s. s.vsphere_vm.spec.power_off_mode)
    if not triggered
        then pure false
        else (if is_soft mode then pure false else do
          now ← ask read_clock w.now
          since ←
              gets
                (λ s. w.last_transition_time s.trace ConditionType.guest_soft_power_off_succeeded)
          seconds ← gets (λ s. s.vsphere_vm.spec.guest_soft_power_off_timeout_seconds)
          let timeout = soft_power_off_timeout seconds
          pure (ltb 0 timeout && leb timeout (now - since)))

  -- the v1beta1 and the v1beta2 condition of a soft power off
  unfoldable pub report_soft_power_off :
      V1Beta1Reason → Severity → String → Reason → String → Action Unit
  report_soft_power_off old severity old_message reason message = do
    write (mark_false guest_soft_power_off_succeeded_v1beta1 old severity (text old_message))
    set_condition ConditionType.guest_soft_power_off_succeeded status_false reason (text message)

  -- the guest cannot be asked: trySoft falls back to a hard power off, soft waits for ever
  unfoldable pub cannot_shut_down : (old_message : String) → (message : String) → Action Bool
  unfolding report_soft_power_off
  cannot_shut_down old_message message = do
    mode ← gets (λ s. s.vsphere_vm.spec.power_off_mode)
    if is_try_soft mode then pure false else do
      report_soft_power_off guest_soft_power_off_failed_v1beta1 warning old_message
          soft_power_off_failed message
      pure true

  unfoldable pub shut_down_guest : MoRef → Action Bool
  unfolding cannot_shut_down report_soft_power_off
  shut_down_guest ref = do
    tools ← try (query_tools_running ref) (λ tr. w.tools_running tr ref)
    if not tools then cannot_shut_down no_tools no_tools else do
      supported ← try (query_guest_state_change ref) (λ tr. w.guest_state_change_supported tr ref)
      if not (deref supported false)
          then cannot_shut_down
              "unable to trigger soft power off because guest state change is not supported on VM %s."
              "Unable to trigger soft power off because guest state change is not supported on VM %s."
          else do
            perform (Call.shutdown_guest ref) (λ tr. w.shutdown_guest tr ref)
            report_soft_power_off guest_soft_power_off_in_progress_v1beta1 info initiated
                soft_power_off_in_progress initiated
            pure true

  -- The mode is not hard: look whether the soft power off is under way, or start it.
  unfoldable pub soft_power_off : MoRef → Action Bool
  unfolding is_soft_power_off_timeout_exceeded shut_down_guest
  soft_power_off ref = do
    triggered ← gets soft_power_off_triggered
    mode ← gets (λ s. s.vsphere_vm.spec.power_off_mode)
    if triggered
        then (if is_soft mode
            then pure true
            else (do exceeded ← is_soft_power_off_timeout_exceeded; pure (not exceeded)))
        else shut_down_guest ref

  abbrev pub by_mode : MoRef → PowerOpMode → Action Bool
  by_mode ref unset = pure false
  by_mode ref hard = pure false
  by_mode ref soft = soft_power_off ref
  by_mode ref try_soft = soft_power_off ref

  -- true where a soft power off is pending
  unfoldable pub trigger_soft_power_off : MoRef → Action Bool
  unfolding soft_power_off
  trigger_soft_power_off ref = do
    mode ← gets (λ s. s.vsphere_vm.spec.power_off_mode)
    by_mode ref mode
