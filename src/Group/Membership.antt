-- ===== src/Group/Membership.antt =====
-- The members of the group that the reconcile asks for (controllers/vmware/
-- virtualmachinegroup_reconciler.go: computeVirtualMachineGroup).
use cluster_api_provider_vsp.Prelude.{
  String, ◌&&◌, ◌||◌, ◌≡◌, ap, Option, some, List, [], ◌∷◌, arith, is_empty, if-both, if◌then◌else◌,
  lookup,
}
use mathlib.Core.Path.{subst}
use cluster_api_provider_vsp.Errors.{Outcome, ok, err}
use cluster_api_provider_vsp.Group.{
  MachineDeployment, VsphereMachine, OwnerReference, VirtualMachineGroup, GroupCluster,
}
use cluster_api_provider_vsp.Group.Names.{
  Templates, label_value, machine_deployment_name_label, map_machine, map_rest, map_machines,
  get_virtual_machine_name_to_machine_deployment_mapping, generate_virtual_machine_name, sorted,
  keys, member_names, has,
}
use cluster_api_provider_vsp.Group.Placement.{get_machine_deployment_to_failure_domain_mapping}
use cluster_api_provider_vsp.Group.Decisions.{HaveDistinctNames, zone_of, mapping-zone_of}
use cluster_api_provider_vsp.Group.Order.{
  AreOrdered, AreUnique, sorted-AreOrdered, members_of-AreOrdered, has-members_of, has-keys,
  has-sorted, keys-insert-AreUnique,
}
use cluster_api_provider_vsp.Group.Members.{
  is_some, joins, stays_or_joins, desired_group, group_from, compute_virtual_machine_group,
}

abbrev AreUniqueKeys : Outcome (List (String × String)) → Type 0
AreUniqueKeys (ok names) = AreUnique (keys names)
AreUniqueKeys (err e) = Unit

abbrev outcome_members : Outcome VirtualMachineGroup → List String
outcome_members (ok vmg) = member_names vmg
outcome_members (err e) = []

map_rest-AreUniqueKeys :
    (rest : List (String × String) → Outcome (List (String × String)))
    (names : Outcome (List (String × String)))
    → ((acc : List (String × String)) → AreUnique (keys acc) → AreUniqueKeys (rest acc))
    → AreUniqueKeys names
    → AreUniqueKeys (map_rest rest names)
map_rest-AreUniqueKeys rest (ok names) h u = h names u
map_rest-AreUniqueKeys rest (err e) h u = tt

module _ (t : Templates) (ensure : List OwnerReference → OwnerReference → List OwnerReference) where
  map_machine-AreUniqueKeys :
      (m : VsphereMachine) (name : Outcome String) (names : List (String × String))
      → AreUnique (keys names)
      → AreUniqueKeys (map_machine m name names)
  map_machine-AreUniqueKeys m (err e) names u = tt
  map_machine-AreUniqueKeys m (ok vm) names u =
      let md = label_value machine_deployment_name_label m.labels in
      if-both (λ l. AreUnique (keys l)) (is_empty md) u (keys-insert-AreUnique vm md names u)

  map_machines-AreUniqueKeys :
      (ms : List VsphereMachine) (names : List (String × String))
      → AreUnique (keys names)
      → AreUniqueKeys (map_machines t ms names)
  unfolding map_machines
  map_machines-AreUniqueKeys [] names u = u
  map_machines-AreUniqueKeys (m ∷ ms) names u =
      map_rest-AreUniqueKeys (λ acc. map_machines t ms acc)
        (if m.is_deleted
          then ok names
          else map_machine m (generate_virtual_machine_name t m.name m.naming_template) names)
        (λ acc v. map_machines-AreUniqueKeys ms acc v)
        (if-both AreUniqueKeys m.is_deleted u (
          map_machine-AreUniqueKeys m (generate_virtual_machine_name t m.name m.naming_template)
            names u))

  pub compute-has :
      (c : GroupCluster) (mds : List MachineDeployment) (machines : List VsphereMachine)
      (single : String) (existing : Option VirtualMachineGroup) (names : List (String × String))
      (after : VirtualMachineGroup) (vm : String)
      → get_virtual_machine_name_to_machine_deployment_mapping t machines ≡ ok names
      → compute_virtual_machine_group t ensure c mds machines single existing ≡ ok after
      → has vm (member_names after) ≡ (
          is_some (lookup vm names)
          && joins existing names
              (get_machine_deployment_to_failure_domain_mapping mds single existing names)
              vm)
  unfolding compute_virtual_machine_group desired_group member_names
  compute-has c mds machines single existing names after vm h k = ground (
    arith,
    h,
    k,
    has-members_of
        (joins existing names
          (get_machine_deployment_to_failure_domain_mapping mds single existing names))
        vm (sorted (keys names)),
    has-sorted vm (keys names),
    has-keys vm names,
  )

  -- the members are chosen from the names in order
  group_from-AreOrdered :
      (c : GroupCluster) (mds : List MachineDeployment) (single : String)
      (existing : Option VirtualMachineGroup) (names : Outcome (List (String × String)))
      (after : VirtualMachineGroup)
      → AreUniqueKeys names
      → group_from t ensure c mds single existing names ≡ ok after
      → AreOrdered (member_names after)
  unfolding desired_group member_names
  group_from-AreOrdered c mds single existing (err e) after u h = absurd (cc h)
  group_from-AreOrdered c mds single existing (ok names) after u h =
      subst AreOrdered (ap outcome_members h) (
        members_of-AreOrdered
          (joins existing names
            (get_machine_deployment_to_failure_domain_mapping mds single existing names))
          (sorted (keys names)) (sorted-AreOrdered (keys names) u))

  -- If a VirtualMachineGroup is computed, then the names of its members are in order and none
  -- stands twice.
  pub compute-AreOrdered :
      (c : GroupCluster) (mds : List MachineDeployment) (machines : List VsphereMachine)
      (single : String) (existing : Option VirtualMachineGroup) (after : VirtualMachineGroup)
      → compute_virtual_machine_group t ensure c mds machines single existing ≡ ok after
      → AreOrdered (member_names after)
  unfolding compute_virtual_machine_group get_virtual_machine_name_to_machine_deployment_mapping
      keys
  compute-AreOrdered c mds machines single existing after h =
      group_from-AreOrdered c mds single existing (map_machines t machines []) after
        (map_machines-AreUniqueKeys machines [] tt) h

  -- If no two MachineDeployments have one name and the names of the VirtualMachines are found, then
  -- the members of an updated VirtualMachineGroup are exactly the VirtualMachines of the machines'
  -- names that were members before or whose MachineDeployment is placed.
  pub update-has :
      (c : GroupCluster) (mds : List MachineDeployment) (machines : List VsphereMachine)
      (single : String) (before after : VirtualMachineGroup) (names : List (String × String))
      (vm : String)
      → HaveDistinctNames mds
      → get_virtual_machine_name_to_machine_deployment_mapping t machines ≡ ok names
      → compute_virtual_machine_group t ensure c mds machines single (some before) ≡ ok after
      → has vm (member_names after) ≡ (
          is_some (lookup vm names)
          && (has vm (member_names before)
              || is_some (zone_of single names (some before) mds (label_value vm names))))
  unfolding stays_or_joins
  update-has c mds machines single before after names vm d h k = ground (
    arith,
    compute-has c mds machines single (some before) names after vm h k,
    mapping-zone_of single names (some before) mds (label_value vm names) d,
  )
