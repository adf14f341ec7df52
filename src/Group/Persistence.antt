-- ===== src/Group/Persistence.antt =====
-- How long the failure domains noted on the group stay there (controllers/vmware/
-- virtualmachinegroup_reconciler.go: computeVirtualMachineGroup).
use cluster_api_provider_vsp.Prelude.{
  String, true, false, ◌≡◌, ◌∙◌, Option, some, List, arith, is_empty, lookup,
}
use cluster_api_provider_vsp.Errors.{Outcome, ok, err}
use cluster_api_provider_vsp.Group.{
  MachineDeployment, VsphereMachine, OwnerReference, VirtualMachineGroup, GroupCluster,
}
use cluster_api_provider_vsp.Group.Names.{
  Templates, get_virtual_machine_name_to_machine_deployment_mapping,
}
use cluster_api_provider_vsp.Group.Placement.{
  zone_annotation, get_machine_deployment_to_failure_domain_mapping,
}
use cluster_api_provider_vsp.Group.Decisions.{HaveDistinctNames, zone_of, mapping-zone_of}
use cluster_api_provider_vsp.Group.Noted.{
  desired_group-lookup, compute-noted, leaves_choice, noted-zone_of, zone_of-non_empty,
}
use cluster_api_provider_vsp.Group.Members.{group_from, compute_virtual_machine_group}

module _ (t : Templates) (ensure : List OwnerReference → OwnerReference → List OwnerReference) where
  -- What happens to the group: a reconcile writes it, with any machines and MachineDeployments,
  -- as long as that MachineDeployment is there and the user chose no domain for it; or others
  -- change it, but not the annotation of that MachineDeployment.
  pub data GroupStep (key : String) (before after : VirtualMachineGroup) : Type 0 where
    reconciled :
        (c : GroupCluster) (mds : List MachineDeployment) (machines : List VsphereMachine)
        (single : String)
        → HaveDistinctNames mds
        → leaves_choice key mds ≡ true
        → compute_virtual_machine_group t ensure c mds machines single (some before) ≡ ok after
        → GroupStep key before after
    changed :
        lookup (zone_annotation key) after.annotations
          ≡ lookup (zone_annotation key) before.annotations
        → GroupStep key before after

  pub data GroupHistory (key : String) (first : VirtualMachineGroup)
      : VirtualMachineGroup → Type 0 where
    start : GroupHistory key first first
    next :
        {before after : VirtualMachineGroup}
        → GroupHistory key first before
        → GroupStep key before after
        → GroupHistory key first after

  group_from-noted :
      (c : GroupCluster) (mds : List MachineDeployment) (single : String)
      (names : Outcome (List (String × String))) (before after : VirtualMachineGroup)
      (key zone : String)
      → HaveDistinctNames mds
      → leaves_choice key mds ≡ true
      → group_from t ensure c mds single (some before) names ≡ ok after
      → is_empty zone ≡ false
      → lookup (zone_annotation key) before.annotations ≡ some zone
      → lookup (zone_annotation key) after.annotations ≡ some zone
  group_from-noted c mds single (err e) before after key zone d l h k n = absurd (cc h)
  group_from-noted c mds single (ok names) before after key zone d l h k n = ground (
    arith,
    h,
    desired_group-lookup t ensure c (some before) names
        (get_machine_deployment_to_failure_domain_mapping mds single (some before) names) key,
    mapping-zone_of single names (some before) mds key d,
    noted-zone_of single names before mds key zone l n k,
  )

  step-noted :
      (key zone : String) (before after : VirtualMachineGroup)
      → GroupStep key before after
      → is_empty zone ≡ false
      → lookup (zone_annotation key) before.annotations ≡ some zone
      → lookup (zone_annotation key) after.annotations ≡ some zone
  unfolding compute_virtual_machine_group
  step-noted key zone before after (changed e) k n = e ∙ n
  step-noted key zone before after (reconciled c mds machines single d l h) k n =
      group_from-noted c mds single
        (get_virtual_machine_name_to_machine_deployment_mapping t machines) before after key zone d
        l h k n

  pub history-noted :
      (key zone : String) (first : VirtualMachineGroup) {last : VirtualMachineGroup}
      → GroupHistory key first last
      → is_empty zone ≡ false
      → lookup (zone_annotation key) first.annotations ≡ some zone
      → lookup (zone_annotation key) last.annotations ≡ some zone
  history-noted key zone first start k n = n
  history-noted key zone first (next h s) k n =
      step-noted key zone _ _ s k (history-noted key zone first h k n)

  -- A placement decision persists: if no two MachineDeployments have one name, the names of the
  -- VirtualMachines are found, and the mapping that a computed VirtualMachineGroup rests on places
  -- a MachineDeployment in a zone, then the group's annotation says that zone after any history of
  -- changes that leave this annotation alone and of computations, with any machines, in which the
  -- MachineDeployment is there, is not deleted, and has no failure domain of the user's choice.
  pub placement-persists :
      (c : GroupCluster) (mds : List MachineDeployment) (machines : List VsphereMachine)
      (single : String) (existing : Option VirtualMachineGroup) (names : List (String × String))
      (after : VirtualMachineGroup) (key zone : String) {last : VirtualMachineGroup}
      → HaveDistinctNames mds
      → get_virtual_machine_name_to_machine_deployment_mapping t machines ≡ ok names
      → compute_virtual_machine_group t ensure c mds machines single existing ≡ ok after
      → zone_of single names existing mds key ≡ some zone
      → GroupHistory key after last
      → lookup (zone_annotation key) last.annotations ≡ some zone
  placement-persists c mds machines single existing names after key zone d h k z history =
      history-noted key zone after history (zone_of-non_empty single names existing mds key zone z)
        (compute-noted t ensure c mds machines single existing names after key d h k ∙ z)
