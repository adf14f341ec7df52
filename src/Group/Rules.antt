-- ===== src/Group/Rules.antt =====
-- What the members of a VirtualMachineGroup say of a MachineDeployment
-- (controllers/vmware/virtualmachinegroup_reconciler.go: getMachineDeploymentToFailureDomainMapping).
use cluster_api_provider_vsp.Prelude.{
  String, ◌≡◌, not, deref, refl, Option, none, some, List, [], ◌∷◌, arith, is_empty, str_eq,
  if◌then◌else◌,
}
use cluster_api_provider_vsp.Group.{GroupMember, PlacementCondition, MemberStatus}
use cluster_api_provider_vsp.Group.Names.{label_value, has}
use cluster_api_provider_vsp.Group.Placement.{
  placed_zone, ready_zone, status_zone, has_member_of, or_else,
}

-- a text that says nothing gives way
abbrev pub non_empty : String → Option String
non_empty s = if is_empty s then none else some s

-- where a member says that it is placed: in its placement, or, if it was placed before it joined, in
-- the message of its condition
abbrev pub placement_of : MemberStatus → Option PlacementCondition → Option String
placement_of m none = none
placement_of m (some c) =
    if not c.is_true
    then none
    else or_else (non_empty (deref m.zone ""))
        (if str_eq c.reason "AlreadyPlaced" then non_empty c.message else none)

-- the MachineDeployments of the members of a group
abbrev pub deployments_of : List (String × String) → List GroupMember → List String
deployments_of names [] = []
deployments_of names (m ∷ ms) = label_value m.name names ∷ deployments_of names ms

-- what the members of a MachineDeployment say, in order
abbrev pub placements : List (String × String) → String → List MemberStatus → List (Option String)
placements names md [] = []
placements names md (m ∷ ms) =
    let rest = placements names md ms in
    if str_eq (label_value m.name names) md then placement_of m m.placement_ready ∷ rest else rest

abbrev pub first_said : List (Option String) → Option String
first_said [] = none
first_said (none ∷ rest) = first_said rest
first_said (some zone ∷ rest) = some zone

ready_zone-placement_of :
    (m : MemberStatus) (c : Option PlacementCondition) → ready_zone m c ≡ placement_of m c
unfolding placed_zone
ready_zone-placement_of m none = refl
ready_zone-placement_of m (some c) = ground arith

first_said-or_else :
    (said : Option String) (rest : List (Option String))
    → first_said (said ∷ rest) ≡ or_else said (first_said rest)
first_said-or_else none rest = refl
first_said-or_else (some zone) rest = refl

pub status_zone-first_said :
    (names : List (String × String)) (md : String) (ms : List MemberStatus)
    → status_zone names md ms ≡ first_said (placements names md ms)
unfolding status_zone
status_zone-first_said names md [] = refl
status_zone-first_said names md (m ∷ ms) = ground (
  arith,
  status_zone-first_said names md ms,
  ready_zone-placement_of m m.placement_ready,
  first_said-or_else (placement_of m m.placement_ready) (placements names md ms),
)

pub has_member_of-has :
    (names : List (String × String)) (md : String) (ms : List GroupMember)
    → has_member_of names md ms ≡ has md (deployments_of names ms)
unfolding has_member_of has
has_member_of-has names md [] = refl
has_member_of-has names md (m ∷ ms) = ground (arith, has_member_of-has names md ms)
