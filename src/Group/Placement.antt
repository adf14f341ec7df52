-- ===== src/Group/Placement.antt =====
-- The failure domain of each MachineDeployment (controllers/vmware/
-- virtualmachinegroup_reconciler.go: getMachineDeploymentToFailureDomainMapping).
use Prim.Native.String.{◌++◌}
use cluster_api_provider_vsp.Prelude.{
  String, Bool, true, false, not, ◌&&◌, Option, none, some, List, [], ◌∷◌, is_empty, str_eq, deref,
  if◌then◌else◌, lookup, insert,
}
use cluster_api_provider_vsp.Group.{
  MachineDeployment, GroupMember, PlacementCondition, MemberStatus, VirtualMachineGroup,
}
use cluster_api_provider_vsp.Group.Names.{label_value, first_group}

-- `vmoperator.ZoneAnnotationPrefix + "/"`
abbrev pub zone_prefix : String
zone_prefix = "zone.vmware.infrastructure.cluster.x-k8s.io/"

unfoldable pub zone_annotation : String → String
zone_annotation md = zone_prefix ++ md

-- A placed member says where: by its placement, or by the message of its condition.
abbrev pub already_placed : PlacementCondition → Option String
already_placed c =
    if str_eq c.reason "AlreadyPlaced" && not (is_empty c.message) then some c.message else none

unfoldable pub placed_zone : MemberStatus → PlacementCondition → Option String
placed_zone m c =
    if c.is_true
    then (let zone = deref m.zone "" in if is_empty zone then already_placed c else some zone)
    else none

abbrev pub ready_zone : MemberStatus → Option PlacementCondition → Option String
ready_zone m none = none
ready_zone m (some c) = placed_zone m c

-- `none` goes on to the next member
abbrev pub or_else : Option String → Option String → Option String
or_else (some zone) rest = some zone
or_else none rest = rest

-- the first member of the MachineDeployment that is placed
unfoldable pub status_zone : List (String × String) → String → List MemberStatus → Option String
unfolding placed_zone
status_zone names md [] = none
status_zone names md (m ∷ ms) =
    let rest = status_zone names md ms in
    if str_eq (label_value m.name names) md
    then or_else (ready_zone m m.placement_ready) rest
    else rest

-- `vmgHasMDVM`
unfoldable pub has_member_of : List (String × String) → String → List GroupMember → Bool
has_member_of names md [] = false
has_member_of names md (m ∷ ms) =
    let rest = has_member_of names md ms in
    if str_eq (label_value m.name names) md then true else rest

abbrev pub set_zone : String → Option String → List (String × String) → List (String × String)
set_zone md none mapping = mapping
set_zone md (some zone) mapping = insert md zone mapping

-- the single zone of the namespace, where there is one
abbrev pub single_zone : String → Option String
single_zone zone = if is_empty zone then none else some zone

-- the last step of the loop: the mapping is asked whether the MachineDeployment is in it
abbrev pub or_single_zone :
    Option String
    → List (String × String)
    → String
    → List GroupMember
    → String
    → List (String × String)
    → List (String × String)
or_single_zone (some _) names single members md mapping = mapping
or_single_zone none names single members md mapping =
    if is_empty single
    then mapping
    else (if has_member_of names md members then mapping else insert md single mapping)

module _ (single : String) (names : List (String × String)) where
  unfoldable pub from_group :
      VirtualMachineGroup → String → List (String × String) → List (String × String)
  unfolding zone_annotation status_zone has_member_of
  from_group vmg md mapping =
      let annotated = label_value (zone_annotation md) vmg.annotations in
      if is_empty annotated
      then (let after = set_zone md (status_zone names md vmg.status_members) mapping in
          or_single_zone (lookup md after) names single (first_group vmg.boot_order) md after)
      else insert md annotated mapping

  abbrev pub by_existing :
      Option VirtualMachineGroup → String → List (String × String) → List (String × String)
  by_existing none md mapping = set_zone md (single_zone single) mapping
  by_existing (some vmg) md mapping = from_group vmg md mapping

  -- one turn of the loop
  unfoldable pub place_deployment :
      Option VirtualMachineGroup
      → MachineDeployment
      → List (String × String)
      → List (String × String)
  unfolding from_group
  place_deployment existing md mapping =
      if md.is_deleted
      then mapping
      else (if is_empty md.failure_domain
          then by_existing existing md.name mapping
          else insert md.name md.failure_domain mapping)

  unfoldable pub place_deployments :
      Option VirtualMachineGroup
      → List MachineDeployment
      → List (String × String)
      → List (String × String)
  unfolding place_deployment
  place_deployments existing [] mapping = mapping
  place_deployments existing (md ∷ mds) mapping =
      place_deployments existing mds (place_deployment existing md mapping)

unfoldable pub get_machine_deployment_to_failure_domain_mapping :
    List MachineDeployment
    → String
    → Option VirtualMachineGroup
    → List (String × String)
    → List (String × String)
unfolding place_deployments
get_machine_deployment_to_failure_domain_mapping mds single existing names =
    place_deployments single names existing mds []
