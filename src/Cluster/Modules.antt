-- ===== src/Cluster/Modules.antt =====
-- The cluster module reconciler (controllers/clustermodule_reconciler.go): one vCenter cluster module
-- for each KubeadmControlPlane and MachineDeployment of a cluster.
pub mod Unique
pub mod Owners
pub mod Fetch
use Prim.Native.String.{◌++◌}
use cluster_api_provider_vsp.Prelude.{
  ℕ, String, Bool, true, false, not, ◌&&◌, Option, none, some, List, [], ◌∷◌, is_empty, is_nil,
  deref, ltb, leb, ◌==◌, if◌then◌else◌, length, lookup, insert, remove,
}
use mathlib.Core.List
use cluster_api_provider_vsp.Errors.{
  Error, Outcome, ok, err, errorf, wrapped, is_incompatible_owner_error,
}
use cluster_api_provider_vsp.Api.{ClusterModule}
use cluster_api_provider_vsp.Api.Conditions.{
  ConditionType, ConditionStatus, Message, ConditionWrite, Reason, status_true, status_false,
  modules_invalid_vcenter_version, modules_not_ready, modules_ready,
  cluster_modules_available_v1beta1, vcenter_version_incompatible_v1beta1,
  cluster_module_setup_failed_v1beta1, info, warning, text, no_message, set, mark_true, mark_false,
  delete_v1beta1,
}

-- `clustermodule.Wrapper`, by its name
pub data Owner : Type 0 where
  kubeadm_control_plane machine_deployment : String → Owner

-- an object that a list of the API server has
pub record OwnerObject : Type 0 where
  pub name : String
  pub is_deleted : Bool

pub data ModuleCall : Type 0 where
  does_exist : Owner → (module_uuid : String) → ModuleCall
  create : Owner → ModuleCall
  remove_module : (module_uuid : String) → ModuleCall

-- What the reconciler calls: semver, the API server, and the cluster module service, whose answers
-- depend on the calls before. `arrange` is the order in which a map is read.
pub record ModuleWorld : Type 0 where
  pub major_version : String → Option ℕ
  pub control_planes : String → Outcome (List OwnerObject)
  pub machine_deployments : String → Outcome (List OwnerObject)
  pub arrange : List (String × Owner) → List (String × Owner)
  pub does_exist : List ModuleCall → Owner → String → Outcome Bool
  pub create : List ModuleCall → Owner → Outcome String
  pub remove : List ModuleCall → String → Option Error

unfoldable pub append_kcp_key : String → String
append_kcp_key name = "kcp" ++ name

-- the key of an owner in the map of owners
unfoldable pub owner_key : Owner → String
unfolding append_kcp_key
owner_key (kubeadm_control_plane name) = append_kcp_key name
owner_key (machine_deployment name) = name

unfoldable pub module_key : ClusterModule → String
module_key m =
    if deref m.control_plane false
    then append_kcp_key m.target_object_name
    else m.target_object_name

-- the module of an owner, as the spec has it
unfoldable pub module_of : Owner → String → ClusterModule
module_of (kubeadm_control_plane name) uuid = record {
  control_plane = some true;
  target_object_name = name;
  module_uuid = uuid;
}
module_of (machine_deployment name) uuid = record {
  control_plane = some false;
  target_object_name = name;
  module_uuid = uuid;
}

-- What the two loops work on.
pub record Progress : Type 0 where
  -- the owners that have no module yet
  pub objects : List (String × Owner)
  -- `clusterModuleSpecs`
  pub specs : List ClusterModule
  -- `modErrs`, without the names
  pub errors : List Error
  -- the calls to the cluster module service, the newest first
  pub calls : List ModuleCall

abbrev pub add_module : ClusterModule → Progress → Progress
add_module m p = record p { specs = List.◌++◌ p.specs (m ∷ []) }

abbrev pub add_error : Error → Progress → Progress
add_error e p = record p { errors = List.◌++◌ p.errors (e ∷ []) }

abbrev pub recorded : ModuleCall → Progress → Progress
recorded c p = record p { calls = c ∷ p.calls }

abbrev pub without : String → Progress → Progress
without key p = record p { objects = remove key p.objects }

-- the owners that are not being deleted, by their keys
unfoldable pub add_owners :
    (String → Owner) → List OwnerObject → List (String × Owner) → List (String × Owner)
add_owners wrap_owner [] objects = objects
add_owners wrap_owner (o ∷ os) objects =
    let added =
      add_owners wrap_owner os
        (insert (owner_key (wrap_owner o.name)) (wrap_owner o.name) objects) in
    let skipped = add_owners wrap_owner os objects in if o.is_deleted then skipped else added

abbrev pub with_machine_deployments :
    List (String × Owner) → Outcome (List OwnerObject) → Outcome (List (String × Owner))
with_machine_deployments objects (err e) =
    err (wrapped "failed to list MachineDeployment objects" e)
with_machine_deployments objects (ok mds) = ok (add_owners machine_deployment mds objects)

abbrev pub with_control_planes :
    Outcome (List OwnerObject) → Outcome (List OwnerObject) → Outcome (List (String × Owner))
with_control_planes (err e) mds = err (wrapped "failed to list KubeadmControlPlane objects" e)
with_control_planes (ok kcps) mds =
    if ltb 1 (length kcps)
    then err (errorf "multiple KubeadmControlPlane objects found, expected 1, found %d")
    else with_machine_deployments (add_owners kubeadm_control_plane kcps []) mds

-- the cluster's name is a label of the VSphereCluster
unfoldable pub fetch_machine_owner_objects :
    ModuleWorld → Option String → Outcome (List (String × Owner))
unfolding add_owners
fetch_machine_owner_objects w none =
    err (errorf "failed to get Cluster name from VSphereCluster: missing cluster name label")
fetch_machine_owner_objects w (some name) =
    with_control_planes (w.control_planes name) (w.machine_deployments name)

module _ (w : ModuleWorld) where
  -- the module of an owner that is there, by what the service says of it
  abbrev pub verified : String → Owner → String → Outcome Bool → Progress → Progress
  verified key o uuid (err e) p = without key (
      add_module (module_of o uuid)
        (add_error (wrapped "failed to check if cluster module %q exists" e) p))
  verified key o uuid (ok true) p = without key (add_module (module_of o uuid) p)
  verified key o uuid (ok false) p = p

  -- the module of no owner is removed, and an error of that is only logged
  abbrev pub by_owner : String → String → Option Owner → Progress → Progress
  by_owner key uuid none p = without key (recorded (remove_module uuid) p)
  by_owner key uuid (some o) p =
      verified key o uuid (w.does_exist p.calls o uuid) (recorded (ModuleCall.does_exist o uuid) p)

  unfoldable pub verify_module : ClusterModule → Progress → Progress
  unfolding module_key module_of
  verify_module m p = by_owner (module_key m) m.module_uuid (lookup (module_key m) p.objects) p

  unfoldable pub verify_modules : List ClusterModule → Progress → Progress
  unfolding verify_module
  verify_modules [] p = p
  verify_modules (m ∷ ms) p = verify_modules ms (verify_module m p)

  -- an empty UUID: the creation was skipped
  abbrev pub created_module : Owner → Outcome String → Progress → Progress
  created_module o (err e) p = add_error (wrapped "failed to create cluster module" e) p
  created_module o (ok uuid) p = if is_empty uuid then p else add_module (module_of o uuid) p

  unfoldable pub create_module : Owner → Progress → Progress
  unfolding module_of
  create_module o p = created_module o (w.create p.calls o) (recorded (ModuleCall.create o) p)

  unfoldable pub create_modules : List (String × Owner) → Progress → Progress
  unfolding create_module
  create_modules [] p = p
  create_modules ((key, o) ∷ rest) p = create_modules rest (create_module o p)

  -- both loops
  unfoldable pub reconcile_modules : List (String × Owner) → List ClusterModule → Progress
  unfolding verify_modules create_modules
  reconcile_modules objects modules =
      let p =
        verify_modules modules
          (record { objects = objects; specs = []; errors = []; calls = [] }) in
      create_modules (w.arrange p.objects) p
