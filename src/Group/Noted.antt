-- ===== src/Group/Noted.antt =====
-- The failure domains noted on the group (controllers/vmware/
-- virtualmachinegroup_reconciler.go: computeVirtualMachineGroup).
use Prim.Native.String.{◌++◌}
use text.Mathlib.TextPositions.{starts_with-append}
use text.Mathlib.TextLemmas.{append_cancel_left}
use cluster_api_provider_vsp.Prelude.{
  String, Bool, true, false, not, ◌&&◌, ◌≡◌, refl, Option, none, some, List, [], ◌∷◌, arith, str_eq,
  is_empty, if◌then◌else◌, lookup, lookup-insert, eq_iff,
}
use cluster_api_provider_vsp.Errors.{Outcome, ok, err}
use cluster_api_provider_vsp.Group.{
  MachineDeployment, VsphereMachine, MemberStatus, OwnerReference, VirtualMachineGroup,
  GroupCluster,
}
use cluster_api_provider_vsp.Group.Names.{
  Templates, get_virtual_machine_name_to_machine_deployment_mapping,
}
use cluster_api_provider_vsp.Group.Placement.{
  zone_prefix, zone_annotation, placed_zone, status_zone,
  get_machine_deployment_to_failure_domain_mapping,
}
use cluster_api_provider_vsp.Group.Rules.{status_zone-first_said}
use cluster_api_provider_vsp.Group.Decisions.{
  HaveDistinctNames, zone_of, failure_domain_of, mapping-zone_of,
}
use cluster_api_provider_vsp.Group.Members.{
  other_annotations, annotate, start_from, desired_group, compute_virtual_machine_group,
}

zone_annotation-eq : (a b : String) → str_eq (zone_annotation a) (zone_annotation b) ≡ str_eq a b
unfolding zone_annotation
zone_annotation-eq a b = ground (
  arith,
  eq_iff a b,
  eq_iff (zone_prefix ++ a) (zone_prefix ++ b),
  append_cancel_left zone_prefix a b,
)

other_annotations-lookup :
    (md : String) (m : List (String × String))
    → lookup (zone_annotation md) (other_annotations m) ≡ none
unfolding other_annotations lookup zone_annotation
other_annotations-lookup md [] = refl
other_annotations-lookup md ((k, v) ∷ m) = ground (
  arith,
  eq_iff k (zone_prefix ++ md),
  starts_with-append zone_prefix md,
  other_annotations-lookup md m,
)

annotate-lookup :
    (md : String) (mapping m : List (String × String))
    → lookup (zone_annotation md) m ≡ none
    → lookup (zone_annotation md) (annotate mapping m) ≡ lookup md mapping
unfolding annotate lookup
annotate-lookup md [] m h = h
annotate-lookup md ((k, z) ∷ rest) m h = ground (
  arith,
  zone_annotation-eq k md,
  lookup-insert (zone_annotation k) (zone_annotation md) z (annotate rest m),
  annotate-lookup md rest m h,
)

abbrev annotations_in : Outcome VirtualMachineGroup → List (String × String)
annotations_in (ok vmg) = vmg.annotations
annotations_in (err e) = []

module _ (t : Templates) (ensure : List OwnerReference → OwnerReference → List OwnerReference) where
  pub desired_group-lookup :
      (c : GroupCluster) (existing : Option VirtualMachineGroup)
      (names mapping : List (String × String)) (md : String)
      → lookup (zone_annotation md) (desired_group t ensure c existing names mapping).annotations
        ≡ lookup md mapping
  unfolding desired_group start_from lookup
  desired_group-lookup c none names mapping md = annotate-lookup md mapping [] refl
  desired_group-lookup c (some vmg) names mapping md =
      annotate-lookup md mapping (other_annotations vmg.annotations)
        (other_annotations-lookup md vmg.annotations)

  -- The annotations of a computed VirtualMachineGroup implement the decisions: if no two
  -- MachineDeployments have one name and the names of the VirtualMachines are found, then the
  -- annotation of each name is exactly what the rules say of that MachineDeployment, whatever
  -- annotations were there before.
  pub compute-noted :
      (c : GroupCluster) (mds : List MachineDeployment) (machines : List VsphereMachine)
      (single : String) (existing : Option VirtualMachineGroup) (names : List (String × String))
      (after : VirtualMachineGroup) (md : String)
      → HaveDistinctNames mds
      → get_virtual_machine_name_to_machine_deployment_mapping t machines ≡ ok names
      → compute_virtual_machine_group t ensure c mds machines single existing ≡ ok after
      → lookup (zone_annotation md) after.annotations ≡ zone_of single names existing mds md
  unfolding compute_virtual_machine_group
  compute-noted c mds machines single existing names after md d h k = ground (
    arith,
    h,
    k,
    desired_group-lookup c existing names
        (get_machine_deployment_to_failure_domain_mapping mds single existing names) md,
    mapping-zone_of single names existing mds md d,
  )

-- the MachineDeployment of that name is not being deleted, and the user chose no failure domain
unfoldable pub leaves_choice : String → List MachineDeployment → Bool
leaves_choice key [] = false
leaves_choice key (md ∷ mds) =
    let rest = leaves_choice key mds in
    if str_eq md.name key then not md.is_deleted && is_empty md.failure_domain else rest

pub noted-zone_of :
    (single : String) (names : List (String × String)) (vmg : VirtualMachineGroup)
    (mds : List MachineDeployment) (key zone : String)
    → leaves_choice key mds ≡ true
    → lookup (zone_annotation key) vmg.annotations ≡ some zone
    → is_empty zone ≡ false
    → zone_of single names (some vmg) mds key ≡ some zone
unfolding leaves_choice zone_of failure_domain_of
noted-zone_of single names vmg [] key zone h k e = absurd (cc h)
noted-zone_of single names vmg (md ∷ mds) key zone h k e =
    ground (arith, h, k, e, eq_iff md.name key, noted-zone_of single names vmg mds key zone)

status_zone-non_empty :
    (names : List (String × String)) (md : String) (ms : List MemberStatus) (zone : String)
    → status_zone names md ms ≡ some zone
    → is_empty zone ≡ false
unfolding status_zone placed_zone
status_zone-non_empty names md [] zone h = absurd (cc h)
status_zone-non_empty names md (m ∷ ms) zone h =
    ground (arith, h, status_zone-non_empty names md ms zone)

pub zone_of-non_empty :
    (single : String) (names : List (String × String)) (existing : Option VirtualMachineGroup)
    (mds : List MachineDeployment) (key zone : String)
    → zone_of single names existing mds key ≡ some zone
    → is_empty zone ≡ false
unfolding zone_of failure_domain_of
zone_of-non_empty single names existing [] key zone h = absurd (cc h)
zone_of-non_empty single names none (md ∷ mds) key zone h =
    ground (arith, h, zone_of-non_empty single names none mds key zone)
zone_of-non_empty single names (some vmg) (md ∷ mds) key zone h = ground (
  arith,
  h,
  status_zone-first_said names md.name vmg.status_members,
  status_zone-non_empty names md.name vmg.status_members zone,
  zone_of-non_empty single names (some vmg) mds key zone,
)
