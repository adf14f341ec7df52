-- ===== src/VimMachine/World.antt =====
-- What a reconcile of a VSphereMachine asks of others, and its state. Each call is recorded, and an
-- answer may depend on all the calls before it.
use cluster_api_provider_vsp.Prelude.{String, Bool, Option, some, List, ◌∷◌}
use cluster_api_provider_vsp.Errors.{Error, Outcome, ok}
use cluster_api_provider_vsp.Exec.{Exec, of_error}
use cluster_api_provider_vsp.Group.Names.{Templates}
use cluster_api_provider_vsp.VimMachine.{
  DeploymentZone, FailureDomain, MachineOwner, MachineVm, MachineCondition, MachineConditionV1Beta1,
  VimMachine, CapiMachine, CapiCluster, VsphereCluster,
}

pub data MachineCall : Type 0 where
  get_machine get_owner_machine add_owners get_cluster ensure_finalizer : MachineCall
  new_patch_helper ensure_paused get_vsphere_cluster set_summary patch_machine : MachineCall
  get_vm delete_vm get_zone get_failure_domain : String → MachineCall
  write_vm : MachineVm → MachineCall
  -- a patch of the CAPI Machine's label with the host
  patch_host_label : String → MachineCall

abbrev pub Calls : Type 0
Calls = List MachineCall

pub record MachineWorld : Type 0 where
  pub templates : Templates
  pub ensure_owner_ref : List MachineOwner → MachineOwner → List MachineOwner
  pub remove_owner_ref : List MachineOwner → MachineOwner → List MachineOwner
  pub get_machine : Calls → Outcome VimMachine
  -- the CAPI Machine that owns the VSphereMachine, where there is one
  pub get_owner_machine : Calls → Outcome (Option CapiMachine)
  pub add_owners : Calls → Option Error
  pub get_cluster : Calls → Outcome CapiCluster
  -- whether the finalizer was added
  pub ensure_finalizer : Calls → Outcome Bool
  pub new_patch_helper : Calls → Option Error
  -- whether it is paused, and whether to come back
  pub ensure_paused : Calls → Outcome (Bool × Bool)
  pub get_vsphere_cluster : Calls → Outcome VsphereCluster
  pub set_summary : Calls → Option Error
  pub patch_machine : Calls → Option Error
  pub get_vm : Calls → String → Outcome MachineVm
  pub delete_vm : Calls → String → Option Error
  pub write_vm : Calls → MachineVm → Outcome MachineVm
  pub get_zone : Calls → String → Outcome DeploymentZone
  pub get_failure_domain : Calls → String → Outcome FailureDomain
  -- `SanitizeHostInfoLabel`, and the errors of `validation.IsValidLabelValue`
  pub sanitize_host_info : String → String
  pub is_valid_label_value : String → Bool
  pub patch_host_label : Calls → String → Option Error

pub record MachineState : Type 0 where
  pub machine : VimMachine
  -- the newest first
  pub calls : Calls

abbrev pub MachineAction : Type 0 → Type 0
MachineAction A = Exec MachineState A

module _ {A : Type 0} where
  unfoldable pub call : MachineCall → (Calls → Outcome A) → MachineAction A
  call c answer s = (answer s.calls, record s { calls = c ∷ s.calls })

unfoldable pub run : MachineCall → (Calls → Option Error) → MachineAction Unit
run c answer s = (of_error (answer s.calls), record s { calls = c ∷ s.calls })

unfoldable pub change : (VimMachine → VimMachine) → MachineAction Unit
change f s = (ok tt, record s { machine = f s.machine })

-- the two conditions that go together
unfoldable pub mark : MachineConditionV1Beta1 → MachineCondition → MachineAction Unit
unfolding change
mark old condition =
    change (λ m. record m { condition = some condition; condition_v1beta1 = some old })
