-- ===== src/Vm/Destroy/Safety.antt =====
-- The order of the calls of `DestroyVM` (pkg/services/govmomi/service.go): power states and
-- destructions.
use cluster_api_provider_vsp.Prelude.{true, ◌≡◌, refl, [], ◌∷◌, arith}
use cluster_api_provider_vsp.Errors.{Outcome, ok, err}
use cluster_api_provider_vsp.Exec.{◌>>=◌}
use cluster_api_provider_vsp.Exec.Keeps.{
  Keeps, Preserves, Keeps-bind, Keeps-attempt, Keeps-if, Keeps-modify, Keeps-deferred,
}
use cluster_api_provider_vsp.Api.{PowerState, powered_on, powered_off, suspended, unknown_state}
use cluster_api_provider_vsp.World.{World, Trace, MoRef, Call}
use cluster_api_provider_vsp.Vm.Context.{Context, try, perform, set_condition, set_task_ref}
use cluster_api_provider_vsp.Vm.Power.{get_power_state}
use cluster_api_provider_vsp.Vm.Task.{reconcile_vsphere_vm_on_task_completion}
use cluster_api_provider_vsp.Vm.Membership.{set_module_uuid}
use cluster_api_provider_vsp.Vm.Service.{start}
use cluster_api_provider_vsp.Vm.Destroy.{
  power_off_vm, destroy_powered_off, destroy_found, on_return, destroy_vm,
}
use cluster_api_provider_vsp.Vm.Calls.{Extends, same, more, Since, calls_rules}
use cluster_api_provider_vsp.Vm.Destroy.Steps.{no_destroy, reading-no_destroy, power_off-Since}
use cluster_api_provider_vsp.Vm.Calls.Reading.{
  reconcile_in_flight_task-Since, on_task_completion-Since, find_vm-Since,
}

-- the answer is a power state that is known and is not on
abbrev pub IsOff : Outcome PowerState → Type 0
IsOff (ok powered_on) = ⊥
IsOff (ok powered_off) = Unit
IsOff (ok suspended) = Unit
IsOff (ok (unknown_state _)) = ⊥
IsOff (err e) = ⊥

-- the latest question for a power state was for this VM, and the answer was a known state but on
abbrev pub SeenOff : World → MoRef → Trace → Type 0
SeenOff w ref [] = ⊥
SeenOff w ref (Call.query_power_state asked ∷ tr) = (asked ≡ ref) × IsOff (w.power_state tr ref)
SeenOff w ref (_ ∷ tr) = SeenOff w ref tr

-- each call that destroys a VM comes after it was seen not powered on
abbrev pub DestroysOff : World → Trace → Type 0
DestroysOff w [] = Unit
DestroysOff w (Call.destroy ref ∷ tr) = SeenOff w ref tr × DestroysOff w tr
DestroysOff w (_ ∷ tr) = DestroysOff w tr

more-DestroysOff :
    (w : World) (c : Call) (tr : Trace)
    → no_destroy c ≡ true
    → DestroysOff w tr
    → DestroysOff w (c ∷ tr)
more-DestroysOff w (Call.destroy _) tr h k = absurd (cc h)
more-DestroysOff w _ tr h k = k

Extends-DestroysOff :
    (w : World) {old tr : Trace} → Extends no_destroy old tr → DestroysOff w old → DestroysOff w tr
Extends-DestroysOff w same h = h
Extends-DestroysOff w (more {c = c} {tr = tr} a e) h =
    more-DestroysOff w c tr a (Extends-DestroysOff w e h)

record IsSafe (w : World) (s : Context) : Type 0 where
  safe : DestroysOff w s.trace

module _ {A : Type 0} (w : World) where
  Since-IsSafe :
      (m : Context → Outcome A × Context)
      → ((old : Context) → Keeps (Since no_destroy old) m)
      → Keeps (IsSafe w) m
  Since-IsSafe m k = record {
    at = λ s h. record {
      safe = Extends-DestroysOff w ((k s).at s (record { added = same; kept = refl })).added h.safe;
    };
  }

module _ (w : World) where
  -- from a VM that is seen off, the destroying part is safe
  destroy_powered_off-safe :
      (ref : MoRef) (s : Context)
      → SeenOff w ref s.trace
      → DestroysOff w s.trace
      → DestroysOff w (destroy_powered_off w ref s).1.trace
  unfolding destroy_powered_off ◌>>=◌ try perform set_condition set_task_ref set_module_uuid
  destroy_powered_off-safe ref s off h = ground arith

  found-IsSafe : (ref : MoRef) → Keeps (IsSafe w) (destroy_found w (ok ref))
  unfolding get_power_state ◌>>=◌ try
  found-IsSafe ref = record {
    at = λ s h. record {
      safe = ground (
        arith,
        h.safe,
        destroy_powered_off-safe ref (record s { trace = Call.query_power_state ref ∷ s.trace }),
        (Since-IsSafe w (power_off_vm w ref)
              (λ old. power_off-Since no_destroy (λ c k. k) w old ref)).at
            (record s { trace = Call.query_power_state ref ∷ s.trace }),
      );
    };
  }

  destroy_found-IsSafe : (r : Outcome MoRef) → Keeps (IsSafe w) (destroy_found w r)
  destroy_found-IsSafe (ok ref) = found-IsSafe ref
  destroy_found-IsSafe (err e) = Since-IsSafe w _ (λ old. search calls_rules depth 8)

  on_return-IsSafe : Preserves (IsSafe w) (on_return w)
  on_return-IsSafe = record {
    at = λ s h.
        (Since-IsSafe w (reconcile_vsphere_vm_on_task_completion w)
            (on_task_completion-Since no_destroy reading-no_destroy w)).at
          s h;
  }

  start-IsSafe : Preserves (IsSafe w) start
  unfolding start
  start-IsSafe = record { at = λ s h. record { safe = h.safe } }

  destroy_vm-IsSafe : Keeps (IsSafe w) (destroy_vm w)
  unfolding destroy_vm
  destroy_vm-IsSafe = Keeps-bind _ _ (Keeps-modify start start-IsSafe) λ u.
      Keeps-bind _ _
        (Since-IsSafe w _ (reconcile_in_flight_task-Since no_destroy reading-no_destroy w))
        λ b. Keeps-if b _ _ (search calls_rules) (
          Keeps-deferred _ _ on_return-IsSafe (
            Keeps-attempt _ _ (Since-IsSafe w _ (find_vm-Since no_destroy reading-no_destroy w))
              destroy_found-IsSafe))

-- Whatever the world answers: if before DestroyVM each destruction among the recorded calls follows
-- a power state of the same VM that is known and not powered on, with no other power state asked
-- for in between, then this holds after DestroyVM.
pub destroy_vm-DestroysOff :
    (w : World) (s : Context) → DestroysOff w s.trace → DestroysOff w (destroy_vm w s).1.trace
destroy_vm-DestroysOff w s h = ((destroy_vm-IsSafe w).at s (record { safe = h })).safe
