-- ===== src/Vm/Calls.antt =====
-- Which calls an action may make: a set of calls, given by a test, and the traces that grow by
-- calls of the set alone. One rule for each way to call the world.
pub mod Reading
pub mod Steps
pub mod Reconcile
use cluster_api_provider_vsp.Prelude.{
  ℕ, String, Bool, true, false, ◌≡◌, refl, Option, none, some, List, [], ◌∷◌,
}
use cluster_api_provider_vsp.Errors.{Error, Outcome, ok, err}
use cluster_api_provider_vsp.Exec.{modify}
use cluster_api_provider_vsp.Exec.Keeps.{Keeps, keeps_rules}
use cluster_api_provider_vsp.Api.{VirtualMachineState}
use cluster_api_provider_vsp.Api.Conditions.{
  ConditionWrite, ConditionType, ConditionStatus, Reason, Message,
}
use cluster_api_provider_vsp.World.{Trace, Call, write_condition}
use cluster_api_provider_vsp.Vm.Context.{
  Context, ask, try, perform, emit, write, set_condition, set_task_ref, set_retry_after, set_state,
}

pub data Extends (allowed : Call → Bool) (old : Trace) : Trace → Type 0 where
  same : Extends allowed old old
  more :
      {c : Call} {tr : Trace}
      → allowed c ≡ true
      → Extends allowed old tr
      → Extends allowed old (c ∷ tr)

-- the part of the object that the VM service leaves to its caller: the finalizer, the deletion
-- and `Status.Ready`
abbrev pub held : Context → Bool × Bool × Option Bool
held s = (s.vsphere_vm.has_finalizer, s.vsphere_vm.is_deleted, s.vsphere_vm.status.ready)

pub record Since (allowed : Call → Bool) (old : Context) (s : Context) : Type 0 where
  pub added : Extends allowed old.trace s.trace
  pub kept : held s ≡ held old

module _ (allowed : Call → Bool) (old : Context) where
  pub Since-ask :
      {A : Type 0} (c : Call) (f : Trace → A)
      → allowed c ≡ true
      → Keeps (Since allowed old) (ask c f)
  unfolding ask
  Since-ask c f h = record { at = λ s k. record { added = more h k.added; kept = k.kept } }

  pub Since-try :
      {A : Type 0} (c : Call) (f : Trace → Outcome A)
      → allowed c ≡ true
      → Keeps (Since allowed old) (try c f)
  unfolding try
  Since-try c f h = record { at = λ s k. record { added = more h k.added; kept = k.kept } }

  pub Since-perform :
      (c : Call) (f : Trace → Option Error)
      → allowed c ≡ true
      → Keeps (Since allowed old) (perform c f)
  unfolding perform
  Since-perform c f h = record { at = λ s k. record { added = more h k.added; kept = k.kept } }

  pub Since-emit : (c : Call) → allowed c ≡ true → Keeps (Since allowed old) (emit c)
  unfolding emit
  Since-emit c h = record { at = λ s k. record { added = more h k.added; kept = k.kept } }

  pub Since-write :
      (x : ConditionWrite)
      → allowed (write_condition x) ≡ true
      → Keeps (Since allowed old) (write x)
  unfolding write
  Since-write x h = record { at = λ s k. record { added = more h k.added; kept = k.kept } }

  pub Since-set_task_ref : (ref : String) → Keeps (Since allowed old) (set_task_ref ref)
  unfolding set_task_ref
  Since-set_task_ref ref = record { at = λ s k. record { added = k.added; kept = k.kept } }

  pub Since-set_retry_after : (t : ℕ) → Keeps (Since allowed old) (set_retry_after t)
  unfolding set_retry_after
  Since-set_retry_after t = record { at = λ s k. record { added = k.added; kept = k.kept } }

  pub Since-set_state : (x : VirtualMachineState) → Keeps (Since allowed old) (set_state x)
  unfolding set_state
  Since-set_state x = record { at = λ s k. record { added = k.added; kept = k.kept } }

  pub Since-set_condition :
      (t : ConditionType) (x : ConditionStatus) (r : Reason) (m : Message)
      → ((y : ConditionWrite) → allowed (write_condition y) ≡ true)
      → Keeps (Since allowed old) (set_condition t x r m)
  unfolding set_condition
  Since-set_condition t x r m h = Since-write _ (h _)

  pub Since-modify :
      (f : Context → Context)
      → ((s : Context) → (f s).trace ≡ s.trace)
      → ((s : Context) → held (f s) ≡ held s)
      → Keeps (Since allowed old) (modify f)
  unfolding modify
  Since-modify f h g = record {
    at = λ s k. record { added = rw (h s) k.added; kept = rw (g s) k.kept };
  }

pub ruleset calls_rules = (
  keeps_rules, Since-ask, Since-try, Since-perform, Since-emit, Since-write, Since-set_task_ref,
  Since-set_retry_after, Since-set_state, Since-set_condition, Since-modify, refl,
)
