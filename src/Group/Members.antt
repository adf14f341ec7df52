-- ===== src/Group/Members.antt =====
-- The group that the reconcile asks for (controllers/vmware/virtualmachinegroup_reconciler.go:
-- computeVirtualMachineGroup, shouldCreateVirtualMachineGroup).
use text.Mathlib.Text.{starts_with}
use cluster_api_provider_vsp.Prelude.{
  ℕ, ◌+◌, ◌%◌, ◌^◌, String, Bool, true, false, not, ◌||◌, Option, none, some, List, [], ◌∷◌, ltb,
  ◌==◌, deref, if◌then◌else◌, lookup, insert,
}
use cluster_api_provider_vsp.Errors.{Outcome, ok, err}
use cluster_api_provider_vsp.Group.{
  MachineDeployment, VsphereMachine, GroupMember, OwnerReference, VirtualMachineGroup, GroupCluster,
}
use cluster_api_provider_vsp.Group.Names.{
  Templates, machine_deployment_name_label, label_value,
  get_virtual_machine_name_to_machine_deployment_mapping, sorted, keys, member_names, has,
}
use cluster_api_provider_vsp.Group.Placement.{
  zone_prefix, zone_annotation, get_machine_deployment_to_failure_domain_mapping,
}

abbrev pub cluster_name_label : String
cluster_name_label = "cluster.x-k8s.io/cluster-name"

-- the annotations that are not a placement decision
unfoldable pub other_annotations : List (String × String) → List (String × String)
other_annotations [] = []
other_annotations ((key, value) ∷ rest) =
    let kept = other_annotations rest in
    if starts_with key zone_prefix then kept else (key, value) ∷ kept

-- the decisions are written over them; a map has no key twice, so the order does not matter
unfoldable pub annotate : List (String × String) → List (String × String) → List (String × String)
unfolding zone_annotation
annotate [] annotations = annotations
annotate ((md, zone) ∷ rest) annotations =
    insert (zone_annotation md) zone (annotate rest annotations)

abbrev pub empty_group : GroupCluster → VirtualMachineGroup
empty_group c = record {
  name = c.name;
  namespace = c.namespace;
  labels = [];
  annotations = [];
  owner_references = [];
  boot_order = [];
  status_members = [];
}

unfoldable pub start_from : GroupCluster → Option VirtualMachineGroup → VirtualMachineGroup
unfolding other_annotations
start_from c none = empty_group c
start_from c (some vmg) = record vmg { annotations = other_annotations vmg.annotations }

abbrev pub vm_member : String → GroupMember
vm_member name = record { name = name; kind = "VirtualMachine" }

abbrev pub is_some : Option String → Bool
is_some none = false
is_some (some a) = true

-- A VM stays; a new one comes in once its MachineDeployment is placed.
unfoldable pub stays_or_joins :
    List String → List (String × String) → List (String × String) → String → Bool
stays_or_joins present names mapping vm =
    has vm present || is_some (lookup (label_value vm names) mapping)

abbrev pub joins :
    Option VirtualMachineGroup → List (String × String) → List (String × String) → String → Bool
joins none names mapping vm = true
joins (some vmg) names mapping vm = stays_or_joins (member_names vmg) names mapping vm

unfoldable pub members_of : (String → Bool) → List String → List GroupMember
members_of p [] = []
members_of p (vm ∷ vms) = let rest = members_of p vms in if p vm then vm_member vm ∷ rest else rest

module _ (t : Templates)
    (ensure_owner_ref : List OwnerReference → OwnerReference → List OwnerReference) where
  unfoldable pub desired_group :
      GroupCluster
      → Option VirtualMachineGroup
      → List (String × String)
      → List (String × String)
      → VirtualMachineGroup
  unfolding start_from annotate members_of stays_or_joins member_names
  desired_group c existing names mapping =
      let start = start_from c existing in
      record start {
        labels = insert cluster_name_label c.name start.labels;
        owner_references =
            ensure_owner_ref start.owner_references
              (record { kind = "Cluster"; name = c.name; uid = c.uid });
        annotations = annotate mapping start.annotations;
        boot_order = members_of (joins existing names mapping) (sorted (keys names)) ∷ [];
      }

  abbrev pub group_from :
      GroupCluster
      → List MachineDeployment
      → String
      → Option VirtualMachineGroup
      → Outcome (List (String × String))
      → Outcome VirtualMachineGroup
  group_from c mds single existing (err e) = err e
  group_from c mds single existing (ok names) = ok (
      desired_group c existing names
        (get_machine_deployment_to_failure_domain_mapping mds single existing names))

  unfoldable pub compute_virtual_machine_group :
      GroupCluster
      → List MachineDeployment
      → List VsphereMachine
      → String
      → Option VirtualMachineGroup
      → Outcome VirtualMachineGroup
  unfolding desired_group get_machine_deployment_to_failure_domain_mapping
      get_virtual_machine_name_to_machine_deployment_mapping
  compute_virtual_machine_group c mds machines single existing =
      group_from c mds single existing
        (get_virtual_machine_name_to_machine_deployment_mapping t machines)

abbrev pub int32_mod : ℕ
int32_mod = 2 ^ 32

-- `a < b` of int32 bit patterns: the sign bit is turned round
unfoldable pub lt_int32 : ℕ → ℕ → Bool
lt_int32 a b = ltb ((a + 2 ^ 31) % int32_mod) ((b + 2 ^ 31) % int32_mod)

-- the sum of the replicas of the MachineDeployments that are not deleted, and their names
unfoldable pub expected_machines : List MachineDeployment → ℕ → ℕ
expected_machines [] count = count
expected_machines (md ∷ mds) count =
    expected_machines mds
      (if md.is_deleted then count else (count + deref md.replicas 0) % int32_mod)

unfoldable pub live_names : List MachineDeployment → List String
live_names [] = []
live_names (md ∷ mds) = let rest = live_names mds in if md.is_deleted then rest else md.name ∷ rest

-- how many machines these have; none where one of them is being deleted
unfoldable pub current_machines : List String → List VsphereMachine → ℕ → Option ℕ
current_machines names [] count = some count
current_machines names (m ∷ ms) count =
    let skipped = current_machines names ms count in
    let counted = current_machines names ms ((count + 1) % int32_mod) in
    if has (label_value machine_deployment_name_label m.labels) names
    then (if m.is_deleted then none else counted)
    else skipped

abbrev pub enough_machines : ℕ → Option ℕ → Bool
enough_machines expected none = false
enough_machines expected (some current) = not (lt_int32 current expected)

unfoldable pub should_create_virtual_machine_group :
    List MachineDeployment → List VsphereMachine → Bool
unfolding expected_machines live_names current_machines lt_int32 has
should_create_virtual_machine_group mds machines =
    let expected = expected_machines mds 0 in
    if expected == 0
    then false
    else enough_machines expected (current_machines (live_names mds) machines 0)
