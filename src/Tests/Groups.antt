-- ===== src/Tests/Groups.antt =====
-- The theorems on the VirtualMachineGroup, at concrete inputs.
use cluster_api_provider_vsp.Prelude.{
  ◌≤◌, ◌<◌, String, true, false, ◌&&◌, ◌||◌, ◌≡◌, ◌↔◌, refl, none, some, List, [], ◌∷◌, arith,
  lookup, insert,
}
use cluster_api_provider_vsp.Errors.{ok, err, library, api_not_found}
use cluster_api_provider_vsp.Group.{
  MachineDeployment, VsphereMachine, OwnerReference, VirtualMachineGroup, GroupCluster,
}
use cluster_api_provider_vsp.Group.Names.{
  Templates, machine_deployment_name_label, label_value,
  get_virtual_machine_name_to_machine_deployment_mapping, member_names, has,
}
use cluster_api_provider_vsp.Group.Placement.{
  zone_annotation, status_zone, get_machine_deployment_to_failure_domain_mapping,
}
use cluster_api_provider_vsp.Group.Members.{
  is_some, desired_group, compute_virtual_machine_group, live_names,
  should_create_virtual_machine_group,
}
use cluster_api_provider_vsp.Group.Order.{AreOrdered}
use cluster_api_provider_vsp.Group.Reconcile.{GroupWorld, reconcile_group}
use cluster_api_provider_vsp.Group.Ready.{replicas, machines_of, AreStaying, should_create-enough}
use cluster_api_provider_vsp.Group.Decisions.{zone_of, failure_domain_of, mapping-zone_of}
use cluster_api_provider_vsp.Group.Membership.{compute-AreOrdered, update-has}
use cluster_api_provider_vsp.Group.Noted.{compute-noted, leaves_choice}
use cluster_api_provider_vsp.Group.Persistence.{reconciled, start, next, placement-persists}
use cluster_api_provider_vsp.Group.Writes.{planned_writes, reconcile_group-planned_writes}

abbrev pub templates : Templates
templates = record { parse = λ t. none; execute = λ t. λ name. ok name }

abbrev ensure : List OwnerReference → OwnerReference → List OwnerReference
ensure refs ref = ref ∷ []

abbrev cluster : GroupCluster
cluster = record {
  name = "c1";
  namespace = "ns";
  uid = "u1";
  is_deleted = false;
  control_plane_initialized = true;
}

abbrev worker : String → VsphereMachine
worker name = record {
  name = name;
  is_deleted = false;
  labels = (machine_deployment_name_label, "md-a") ∷ [];
  naming_template = "";
}

abbrev deployment : MachineDeployment
deployment = record { name = "md-a"; is_deleted = false; replicas = some 2; failure_domain = "" }

abbrev machines : List VsphereMachine
machines = worker "m-2" ∷ worker "m-1" ∷ []

abbrev vm_names : List (String × String)
vm_names = ("m-2", "md-a") ∷ ("m-1", "md-a") ∷ []

-- a group whose member has just been placed
abbrev placed_group : VirtualMachineGroup
placed_group = record {
  name = "c1";
  namespace = "ns";
  labels = [];
  annotations = ("note", "kept") ∷ [];
  owner_references = [];
  boot_order = (record { name = "m-1"; kind = "VirtualMachine" } ∷ []) ∷ [];
  status_members =
      record {
        name = "m-1";
        placement_ready = some (record { is_true = true; reason = "Placed"; message = "" });
        zone = some "zone-1";
      }
      ∷ [];
}

abbrev deployments : List MachineDeployment
deployments = deployment ∷ []

abbrev asked_group : VirtualMachineGroup → VirtualMachineGroup
asked_group before =
    desired_group templates ensure cluster (some before) vm_names
      (get_machine_deployment_to_failure_domain_mapping deployments "" (some before) vm_names)

names-found :
    get_virtual_machine_name_to_machine_deployment_mapping templates machines ≡ ok vm_names
unfolding get_virtual_machine_name_to_machine_deployment_mapping insert lookup
names-found = refl

asked-group :
    (before : VirtualMachineGroup)
    → compute_virtual_machine_group templates ensure cluster deployments machines "" (some before)
      ≡ ok (asked_group before)
unfolding compute_virtual_machine_group insert lookup
asked-group before = refl

in_zone : zone_of "" vm_names (some placed_group) deployments "md-a" ≡ some "zone-1"
unfolding zone_of failure_domain_of zone_annotation status_zone lookup
in_zone = refl

chooses_none : leaves_choice "md-a" deployments ≡ true
unfolding leaves_choice
chooses_none = refl

placement-persists_example :
    lookup (zone_annotation "md-a") (asked_group (asked_group placed_group)).annotations
    ≡ some "zone-1"
placement-persists_example =
    placement-persists templates ensure cluster deployments machines "" (some placed_group) vm_names
      (asked_group placed_group) "md-a" "zone-1" (refl, tt) names-found (asked-group placed_group)
      in_zone
      (next start (
        reconciled cluster deployments machines "" (refl, tt) chooses_none
          (asked-group (asked_group placed_group))))

update-has_example : has "m-2" (member_names (asked_group placed_group)) ≡ (
    is_some (lookup "m-2" vm_names)
    && (has "m-2" (member_names placed_group)
        || is_some
            (zone_of "" vm_names (some placed_group) deployments (label_value "m-2" vm_names))))
update-has_example =
    update-has templates ensure cluster deployments machines "" placed_group
      (asked_group placed_group) vm_names "m-2" (refl, tt) names-found (asked-group placed_group)

compute-AreOrdered_example : AreOrdered (member_names (asked_group placed_group))
compute-AreOrdered_example =
    compute-AreOrdered templates ensure cluster deployments machines "" (some placed_group)
      (asked_group placed_group) (asked-group placed_group)

compute-noted_example :
    lookup (zone_annotation "md-a") (asked_group placed_group).annotations
    ≡ zone_of "" vm_names (some placed_group) deployments "md-a"
compute-noted_example =
    compute-noted templates ensure cluster deployments machines "" (some placed_group) vm_names
      (asked_group placed_group) "md-a" (refl, tt) names-found (asked-group placed_group)

mapping-zone_of_example :
    lookup "md-a"
      (get_machine_deployment_to_failure_domain_mapping deployments "" (some placed_group) vm_names)
    ≡ zone_of "" vm_names (some placed_group) deployments "md-a"
mapping-zone_of_example =
    mapping-zone_of "" vm_names (some placed_group) deployments "md-a" (refl, tt)

two_replicas : replicas deployments ≡ 2
unfolding replicas
two_replicas = refl

should_create-enough_example : (should_create_virtual_machine_group deployments machines ≡ true) ↔ (
    (0 < replicas deployments)
    × AreStaying (live_names deployments) machines
    × (replicas deployments ≤ machines_of (live_names deployments) machines))
should_create-enough_example =
    should_create-enough deployments machines (omega (arith, two_replicas)) (omega arith)

-- all that a reconcile reads is there, and there is no group yet
abbrev first_world : GroupWorld
first_world = record {
  get_cluster = ok cluster;
  get_group = err (library api_not_found "virtualmachinegroups c1 not found");
  list_machines = ok machines;
  list_deployments = ok deployments;
  list_zones = ok ("zone-1" ∷ "zone-2" ∷ []);
  merge_from = λ g. none;
  create = λ g. none;
  patch = λ g. λ h. none;
  templates = templates;
  ensure_owner_ref = ensure;
}

reconcile_group-planned_writes_example :
    (reconcile_group first_world []).1 ≡ planned_writes first_world
reconcile_group-planned_writes_example = reconcile_group-planned_writes first_world
