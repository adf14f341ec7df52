-- ===== src/Vm/Destroy/Steps.antt =====
-- The calls of the steps of `DestroyVM` (pkg/services/govmomi/service.go), whichever set they are
-- read in.
use cluster_api_provider_vsp.Prelude.{
  String, Bool, true, false, if◌then◌else◌, ◌≡◌, refl, Option, none, some,
}
use cluster_api_provider_vsp.Errors.{Outcome, ok, err}
use cluster_api_provider_vsp.Exec.Keeps.{
  Keeps, Preserves, Keeps-bind, Keeps-attempt, Keeps-if, Keeps-deferred,
}
use cluster_api_provider_vsp.Api.{PowerState, PowerOpMode, unset, hard, soft, try_soft}
use cluster_api_provider_vsp.Api.Conditions.{V1Beta1Reason, Severity, Reason}
use cluster_api_provider_vsp.World.{World, MoRef, Call}
use cluster_api_provider_vsp.Vm.Context.{Context}
use cluster_api_provider_vsp.Vm.Power.{
  is_powered_on, is_soft_power_off_timeout_exceeded, report_soft_power_off, cannot_shut_down,
  shut_down_guest, soft_power_off, by_mode, trigger_soft_power_off,
}
use cluster_api_provider_vsp.Vm.Service.{start}
use cluster_api_provider_vsp.Vm.Destroy.{
  power_off_vm, left_module, leave_module, destroy_powered_off, destroy_found, on_return,
  destroy_vm,
}
use cluster_api_provider_vsp.Vm.Calls.{held, same, Since, calls_rules}
use cluster_api_provider_vsp.Vm.Calls.Reading.{
  is_reading, reconcile_in_flight_task-Since, on_task_completion-Since, find_vm-Since,
  get_power_state-Since, set_module_uuid-Since,
}

abbrev pub no_destroy : Call → Bool
no_destroy (Call.destroy _) = false
no_destroy _ = true

pub reading-no_destroy : (c : Call) → is_reading c ≡ true → no_destroy c ≡ true
reading-no_destroy (Call.destroy _) h = h
reading-no_destroy _ h = refl

module _ (allowed : Call → Bool) (covers : (c : Call) → no_destroy c ≡ true → allowed c ≡ true)
    (w : World) (old : Context) where
  abbrev Spares : Context → Type 0
  Spares = Since allowed old

  timeout-Since : Keeps Spares (is_soft_power_off_timeout_exceeded w)
  unfolding is_soft_power_off_timeout_exceeded
  timeout-Since = search (calls_rules, covers) depth 12

  report-Since :
      (o : V1Beta1Reason) (v : Severity) (m : String) (r : Reason) (n : String)
      → Keeps Spares (report_soft_power_off w o v m r n)
  unfolding report_soft_power_off
  report-Since o v m r n = search (calls_rules, covers)

  cannot-Since : (m n : String) → Keeps Spares (cannot_shut_down w m n)
  unfolding cannot_shut_down
  cannot-Since m n = search (calls_rules, report-Since) depth 8

  shut_down-Since : (ref : MoRef) → Keeps Spares (shut_down_guest w ref)
  unfolding shut_down_guest
  shut_down-Since ref = search (calls_rules, covers, report-Since, cannot-Since) depth 12

  soft-Since : (ref : MoRef) → Keeps Spares (soft_power_off w ref)
  unfolding soft_power_off
  soft-Since ref = search (calls_rules, timeout-Since, shut_down-Since) depth 9

  by_mode-Since : (ref : MoRef) (m : PowerOpMode) → Keeps Spares (by_mode w ref m)
  by_mode-Since ref unset = search calls_rules
  by_mode-Since ref hard = search calls_rules
  by_mode-Since ref soft = soft-Since ref
  by_mode-Since ref try_soft = soft-Since ref

  trigger-Since : (ref : MoRef) → Keeps Spares (trigger_soft_power_off w ref)
  unfolding trigger_soft_power_off
  trigger-Since ref = search (calls_rules, by_mode-Since)

  pub power_off-Since : (ref : MoRef) → Keeps Spares (power_off_vm w ref)
  unfolding power_off_vm
  power_off-Since ref = search (calls_rules, covers, trigger-Since) depth 9

  reads : (c : Call) → is_reading c ≡ true → allowed c ≡ true
  reads c h = covers c (reading-no_destroy c h)

  module _ (destroys : (ref : MoRef) → allowed (Call.destroy ref) ≡ true) where
    left_module-Since : (r : Outcome (Unit {0})) → Keeps Spares (left_module w r)
    left_module-Since (ok u) = set_module_uuid-Since allowed old none
    left_module-Since (err e) = search (calls_rules, set_module_uuid-Since allowed old)

    leave_module-Since : (ref : MoRef) (m : Option String) → Keeps Spares (leave_module w ref m)
    leave_module-Since ref none = search calls_rules
    leave_module-Since ref (some m) = search (calls_rules, covers, left_module-Since)

    powered_off-Since : (ref : MoRef) → Keeps Spares (destroy_powered_off w ref)
    unfolding destroy_powered_off
    powered_off-Since ref = search (calls_rules, covers, destroys, leave_module-Since) depth 12

    by_power-Since :
        (ref : MoRef) (p : PowerState)
        → Keeps Spares (if is_powered_on p then power_off_vm w ref else destroy_powered_off w ref)
    by_power-Since ref p = search (calls_rules, power_off-Since, powered_off-Since)

    found-Since : (r : Outcome MoRef) → Keeps Spares (destroy_found w r)
    found-Since (ok ref) =
        search (calls_rules, get_power_state-Since allowed reads w old, by_power-Since)
    found-Since (err e) = search calls_rules depth 8

    on_return-Since : Preserves Spares (on_return w)
    on_return-Since = record { at = λ s k. (on_task_completion-Since allowed reads w old).at s k }

    pub destroy_vm-Since : Keeps Spares (destroy_vm w)
    unfolding destroy_vm start
    destroy_vm-Since = Keeps-bind _ _ (search calls_rules) λ u.
        Keeps-bind _ _ (reconcile_in_flight_task-Since allowed reads w old) λ b.
          Keeps-if b _ _ (search calls_rules) (
            Keeps-deferred _ _ on_return-Since
              (Keeps-attempt _ _ (find_vm-Since allowed reads w old) found-Since))

-- DestroyVM leaves the finalizer of the VSphereVM, whether it is being deleted, and its
-- Status.Ready as they are.
pub destroy_vm-held : (w : World) (s : Context) → held (destroy_vm w s).1 ≡ held s
destroy_vm-held w s =
    ((destroy_vm-Since (λ c. true) (λ c h. refl) w s (λ ref. refl)).at s
      (record { added = same; kept = refl })).kept
