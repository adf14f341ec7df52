-- ===== src/VimMachine/Spares.antt =====
-- The parts of a reconcile of a VSphereMachine that keep its finalizer and delete no VSphereVM
-- (pkg/services/vimmachine.go).
use cluster_api_provider_vsp.Prelude.{
  ℕ, String, Bool, true, false, not, ◌≡◌, refl, sym, ◌∙◌, Option, none, some, List, [], ◌∷◌,
  if◌then◌else◌,
}
use mathlib.Core.Path.{subst}
use cluster_api_provider_vsp.Errors.{Error, Outcome}
use cluster_api_provider_vsp.Exec.Keeps.{Keeps, Keeps-bind, Keeps-attempt, keeps_rules}
use cluster_api_provider_vsp.VimMachine.{
  MachineVm, MachineCondition, MachineConditionV1Beta1, VimMachine,
}
use cluster_api_provider_vsp.VimMachine.World.{
  MachineCall, delete_vm, Calls, MachineState, call, run, change, mark,
}
use cluster_api_provider_vsp.VimMachine.Service.{
  waiting, reconcile_network, reconcile_provider_id, finish_network, finish_provider_id, finish_vm,
}

abbrev pub is_deletion : MachineCall → Bool
is_deletion (delete_vm name) = true
is_deletion _ = false

-- no VSphereVM is deleted by any of the calls
abbrev pub HasNoDeletion : Calls → Type 0
HasNoDeletion [] = Unit
HasNoDeletion (c ∷ cs) = (is_deletion c ≡ false) × HasNoDeletion cs

-- the machine keeps its finalizer, stays, and no VSphereVM is deleted
pub record Spares (s : MachineState) : Type 0 where
  pub finalizer : s.machine.has_finalizer ≡ true
  pub stays : s.machine.is_deleted ≡ false
  pub calls : HasNoDeletion s.calls

module _ {A : Type 0} where
  pub Keeps-call :
      (c : MachineCall) (answer : Calls → Outcome A)
      → is_deletion c ≡ false
      → Keeps Spares (call c answer)
  unfolding call
  Keeps-call c answer h = record {
    at = λ s b. record { finalizer = b.finalizer; stays = b.stays; calls = (h, b.calls) };
  }

pub Keeps-run :
    (c : MachineCall) (answer : Calls → Option Error)
    → is_deletion c ≡ false
    → Keeps Spares (run c answer)
unfolding run
Keeps-run c answer h = record {
  at = λ s b. record { finalizer = b.finalizer; stays = b.stays; calls = (h, b.calls) };
}

pub Keeps-change :
    (f : VimMachine → VimMachine)
    → ((m : VimMachine) → (f m).has_finalizer ≡ m.has_finalizer)
    → ((m : VimMachine) → (f m).is_deleted ≡ m.is_deleted)
    → Keeps Spares (change f)
unfolding change
Keeps-change f h k = record {
  at = λ s b. record {
    finalizer = h s.machine ∙ b.finalizer;
    stays = k s.machine ∙ b.stays;
    calls = b.calls;
  };
}

pub Keeps-mark : (old : MachineConditionV1Beta1) (c : MachineCondition) → Keeps Spares (mark old c)
unfolding mark
Keeps-mark old c = Keeps-change _ (λ m. refl) (λ m. refl)

pub ruleset machine_rules = (keeps_rules, Keeps-call, Keeps-run, Keeps-change, Keeps-mark, refl)

provider_id-Spares : (vm : MachineVm) → Keeps Spares (reconcile_provider_id vm)
unfolding reconcile_provider_id
provider_id-Spares vm = search machine_rules depth 12

waiting-Spares : (es : List Error) → Keeps Spares (waiting es)
waiting-Spares [] = search machine_rules
waiting-Spares (e ∷ es) = search machine_rules

pub network-Spares : (vm : MachineVm) → Keeps Spares (reconcile_network vm)
unfolding reconcile_network
network-Spares vm = search (machine_rules, waiting-Spares) depth 10

pub finish_network-Spares : (done : Bool) → Keeps Spares (finish_network done)
finish_network-Spares true = search machine_rules depth 8
finish_network-Spares false = search machine_rules depth 8

finish_provider_id-Spares :
    (vm : MachineVm) (done : Bool) → Keeps Spares (finish_provider_id vm done)
finish_provider_id-Spares vm false = search machine_rules
finish_provider_id-Spares vm true =
    search (machine_rules, network-Spares, finish_network-Spares) depth 8

pub finish_vm-Spares : (vm : MachineVm) → Keeps Spares (finish_vm vm)
unfolding finish_vm
finish_vm-Spares vm = search (machine_rules, provider_id-Spares, finish_provider_id-Spares) depth 8
