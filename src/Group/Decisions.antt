-- ===== src/Group/Decisions.antt =====
-- The mapping from MachineDeployments to failure domains, against what it says of each of them
-- (controllers/vmware/virtualmachinegroup_reconciler.go:
-- getMachineDeploymentToFailureDomainMapping).
use cluster_api_provider_vsp.Prelude.{
  String, Bool, true, false, ◌≡◌, refl, Option, none, some, List, [], ◌∷◌, arith, str_eq,
  if◌then◌else◌, lookup, lookup-insert, eq_iff,
}
use cluster_api_provider_vsp.Group.{MachineDeployment, VirtualMachineGroup}
use cluster_api_provider_vsp.Group.Names.{label_value, first_group, has}
use cluster_api_provider_vsp.Group.Rules.{
  non_empty, deployments_of, placements, first_said, status_zone-first_said, has_member_of-has,
}
use cluster_api_provider_vsp.Group.Placement.{
  zone_annotation, status_zone, has_member_of, set_zone, or_single_zone, single_zone, or_else,
  from_group, place_deployment, place_deployments, get_machine_deployment_to_failure_domain_mapping,
}

-- a new MachineDeployment without VMs in the group goes to the single zone
abbrev pub zone_without_members : Bool → String → Option String
zone_without_members true single = none
zone_without_members false single = single_zone single

abbrev pub is_named : String → List MachineDeployment → Bool
is_named key [] = false
is_named key (md ∷ mds) = let rest = is_named key mds in if str_eq md.name key then true else rest

-- the API server keeps no two MachineDeployments of a namespace under one name
abbrev pub HaveDistinctNames : List MachineDeployment → Type 0
HaveDistinctNames [] = Unit
HaveDistinctNames (md ∷ mds) = (is_named md.name mds ≡ false) × HaveDistinctNames mds

module _ (single : String) (names : List (String × String)) where
  -- the rules in their order: the user's choice, the decision noted, the decision made, one zone
  abbrev pub group_zone : VirtualMachineGroup → String → Option String
  group_zone vmg md = or_else (non_empty (label_value (zone_annotation md) vmg.annotations)) (
      or_else (first_said (placements names md vmg.status_members))
        (zone_without_members (has md (deployments_of names (first_group vmg.boot_order))) single))

  abbrev pub existing_zone : Option VirtualMachineGroup → String → Option String
  existing_zone none md = single_zone single
  existing_zone (some vmg) md = group_zone vmg md

  unfoldable pub failure_domain_of : Option VirtualMachineGroup → MachineDeployment → Option String
  failure_domain_of existing md =
      if md.is_deleted
      then none
      else or_else (non_empty md.failure_domain) (existing_zone existing md.name)

  -- the decision made, or the single zone
  or_single_zone-lookup :
      (made : Option String) (vmg : VirtualMachineGroup) (md : String)
      (mapping : List (String × String)) (key : String)
      → lookup md mapping ≡ none
      → lookup key (
          or_single_zone
            (lookup md (set_zone md made mapping))
            names
            single
            (first_group vmg.boot_order)
            md
            (set_zone md made mapping))
        ≡ (if str_eq md key
            then or_else made
                (zone_without_members (has_member_of names md (first_group vmg.boot_order)) single)
            else lookup key mapping)
  or_single_zone-lookup none vmg md mapping key h =
      ground (arith, h, eq_iff md key, eq_iff md md, lookup-insert md key single mapping)
  or_single_zone-lookup (some zone) vmg md mapping key h = ground (
    arith,
    h,
    eq_iff md key,
    eq_iff md md,
    lookup-insert md key zone mapping,
    lookup-insert md md zone mapping,
  )

  place_deployment-lookup :
      (existing : Option VirtualMachineGroup) (md : MachineDeployment)
      (mapping : List (String × String)) (key : String)
      → lookup md.name mapping ≡ none
      → lookup key (place_deployment single names existing md mapping)
        ≡ (if str_eq md.name key then failure_domain_of existing md else lookup key mapping)
  unfolding place_deployment from_group failure_domain_of
  place_deployment-lookup none md mapping key h = ground (
    arith,
    h,
    eq_iff md.name key,
    lookup-insert md.name key md.failure_domain mapping,
    lookup-insert md.name key single mapping,
  )
  place_deployment-lookup (some vmg) md mapping key h = ground (
    arith,
    h,
    eq_iff md.name key,
    lookup-insert md.name key md.failure_domain mapping,
    lookup-insert md.name key (label_value (zone_annotation md.name) vmg.annotations) mapping,
    status_zone-first_said names md.name vmg.status_members,
    has_member_of-has names md.name (first_group vmg.boot_order),
    or_single_zone-lookup (status_zone names md.name vmg.status_members) vmg md.name mapping key h,
  )

  -- what the mapping says under a name
  unfoldable pub zone_of :
      Option VirtualMachineGroup → List MachineDeployment → String → Option String
  zone_of existing [] key = none
  zone_of existing (md ∷ mds) key =
      let rest = zone_of existing mds key in
      if str_eq md.name key then failure_domain_of existing md else rest

  abbrev AreNew : List (String × String) → List MachineDeployment → Type 0
  AreNew mapping [] = Unit
  AreNew mapping (md ∷ mds) = (lookup md.name mapping ≡ none) × AreNew mapping mds

  place_deployment-AreNew :
      (existing : Option VirtualMachineGroup) (md : MachineDeployment)
      (mds : List MachineDeployment) (mapping : List (String × String))
      → lookup md.name mapping ≡ none
      → is_named md.name mds ≡ false
      → AreNew mapping mds
      → AreNew (place_deployment single names existing md mapping) mds
  place_deployment-AreNew existing md [] mapping h k a = tt
  place_deployment-AreNew existing md (n ∷ ns) mapping h k (g, a) = (
    ground (
      arith,
      h,
      k,
      g,
      eq_iff md.name n.name,
      eq_iff n.name md.name,
      place_deployment-lookup existing md mapping n.name h,
    ),
    place_deployment-AreNew existing md ns mapping h (ground (arith, k)) a,
  )

  place_deployments-lookup :
      (existing : Option VirtualMachineGroup) (mds : List MachineDeployment)
      (mapping : List (String × String)) (key : String)
      → HaveDistinctNames mds
      → AreNew mapping mds
      → lookup key (place_deployments single names existing mds mapping)
        ≡ (if is_named key mds then zone_of existing mds key else lookup key mapping)
  unfolding place_deployments zone_of
  place_deployments-lookup existing [] mapping key d a = refl
  place_deployments-lookup existing (md ∷ mds) mapping key (k, d) (h, a) = ground (
    arith,
    eq_iff md.name key,
    k,
    place_deployment-lookup existing md mapping key h,
    place_deployments-lookup existing mds (place_deployment single names existing md mapping) key d
        (place_deployment-AreNew existing md mds mapping h k a),
  )

  all_new : (mds : List MachineDeployment) → AreNew [] mds
  unfolding lookup
  all_new [] = tt
  all_new (md ∷ mds) = (refl, all_new mds)

  zone_of-is_named :
      (existing : Option VirtualMachineGroup) (mds : List MachineDeployment) (key : String)
      → is_named key mds ≡ false
      → zone_of existing mds key ≡ none
  unfolding zone_of
  zone_of-is_named existing [] key h = refl
  zone_of-is_named existing (md ∷ mds) key h = ground (arith, h, zone_of-is_named existing mds key)

  -- If no two MachineDeployments have one name, then under each name the mapping to failure domains
  -- says what the rules say of that MachineDeployment alone: the user's choice, else the noted
  -- decision, else the decision of the status, else the single zone where the group has no member
  -- of it; before there is a group, the user's choice or else the single zone; and nothing where it
  -- is being deleted.
  pub mapping-zone_of :
      (existing : Option VirtualMachineGroup) (mds : List MachineDeployment) (key : String)
      → HaveDistinctNames mds
      → lookup key (get_machine_deployment_to_failure_domain_mapping mds single existing names)
        ≡ zone_of existing mds key
  unfolding get_machine_deployment_to_failure_domain_mapping lookup
  mapping-zone_of existing mds key d = ground (
    arith,
    place_deployments-lookup existing mds [] key d (all_new mds),
    zone_of-is_named existing mds key,
  )
