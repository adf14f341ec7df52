-- ===== src/Group/Reconcile.antt =====
-- The reconcile of the VirtualMachineGroup (controllers/vmware/virtualmachinegroup_reconciler.go:
-- Reconcile, reconcileNormal and the reads they make), with the writes that it makes.
use cluster_api_provider_vsp.Prelude.{String, Option, none, some, List, [], ◌∷◌, if◌then◌else◌}
use cluster_api_provider_vsp.Errors.{Error, Outcome, ok, err, wrapped, is_api_not_found}
use cluster_api_provider_vsp.Exec.{Exec, pure, fail, lift, wrap, modify, of_error, ◌>>=◌, ◌>>◌}
use cluster_api_provider_vsp.Group.{
  MachineDeployment, VsphereMachine, OwnerReference, VirtualMachineGroup, GroupCluster,
}
use cluster_api_provider_vsp.Group.Names.{Templates}
use cluster_api_provider_vsp.Group.Members.{
  compute_virtual_machine_group, should_create_virtual_machine_group,
}

-- What the API server answers. The lists are those that the selectors of the code choose.
pub record GroupWorld : Type 0 where
  pub get_cluster : Outcome GroupCluster
  pub get_group : Outcome VirtualMachineGroup
  pub list_machines : Outcome (List VsphereMachine)
  pub list_deployments : Outcome (List MachineDeployment)
  -- the names of the zones of the namespace
  pub list_zones : Outcome (List String)
  pub merge_from : VirtualMachineGroup → Option Error
  pub create : VirtualMachineGroup → Option Error
  pub patch : VirtualMachineGroup → VirtualMachineGroup → Option Error
  pub templates : Templates
  pub ensure_owner_ref : List OwnerReference → OwnerReference → List OwnerReference

-- the writes to the API server; a patch carries the version of the object that was read
pub data GroupWrite : Type 0 where
  create_group : VirtualMachineGroup → GroupWrite
  patch_group : (current : VirtualMachineGroup) → (updated : VirtualMachineGroup) → GroupWrite

abbrev pub GroupAction : Type 0 → Type 0
GroupAction A = Exec (List GroupWrite) A

abbrev pub single_zone_of : List String → String
single_zone_of (zone ∷ []) = zone
single_zone_of _ = ""

abbrev pub found_group : Outcome VirtualMachineGroup → Outcome (Option VirtualMachineGroup)
found_group (ok vmg) = ok (some vmg)
found_group (err e) =
    if is_api_not_found e then ok none else err (wrapped "failed to get VirtualMachineGroup %s" e)

abbrev pub zone_name : Outcome (List String) → Outcome String
zone_name (ok zones) = ok (single_zone_of zones)
zone_name (err e) = err e

unfoldable pub write_group : GroupWrite → Option Error → GroupAction Unit
unfolding ◌>>=◌
write_group call answer = do modify (λ calls. call ∷ calls); lift (of_error answer)

module _ (w : GroupWorld) where
  unfoldable pub get_virtual_machine_group : GroupAction (Option VirtualMachineGroup)
  get_virtual_machine_group = lift (found_group w.get_group)

  unfoldable pub get_vsphere_machines : GroupAction (List VsphereMachine)
  get_vsphere_machines = wrap (wrapped "failed to get VSphereMachines") (lift w.list_machines)

  unfoldable pub get_machine_deployments : GroupAction (List MachineDeployment)
  get_machine_deployments =
      wrap (wrapped "failed to list MachineDeployments") (lift w.list_deployments)

  unfoldable pub get_single_zone_name : GroupAction String
  get_single_zone_name = lift (zone_name w.list_zones)

  unfoldable pub create_first :
      GroupCluster → List MachineDeployment → List VsphereMachine → String → GroupAction Unit
  unfolding write_group
  create_first c mds machines single =
      if should_create_virtual_machine_group mds machines
      then (do
        vmg ← lift (
            compute_virtual_machine_group w.templates w.ensure_owner_ref c mds machines single none)
        wrap (wrapped "failed to create new VMG") (write_group (create_group vmg) (w.create vmg)))
      else pure tt

  unfoldable pub update_existing :
      GroupCluster
      → List MachineDeployment
      → List VsphereMachine
      → String
      → VirtualMachineGroup
      → GroupAction Unit
  unfolding write_group
  update_existing c mds machines single vmg = do
    updated ← lift (
        compute_virtual_machine_group w.templates w.ensure_owner_ref c mds machines single
          (some vmg))
    wrap (wrapped "failed to create patch for VirtualMachineGroup object")
        (lift (of_error (w.merge_from vmg)))
    wrap (wrapped "failed to patch VirtualMachineGroup object")
        (write_group (patch_group vmg updated) (w.patch vmg updated))

  abbrev by_current :
      GroupCluster
      → List MachineDeployment
      → List VsphereMachine
      → String
      → Option VirtualMachineGroup
      → GroupAction Unit
  by_current c mds machines single none = create_first c mds machines single
  by_current c mds machines single (some vmg) = update_existing c mds machines single vmg

  unfoldable pub reconcile_normal : GroupCluster → GroupAction Unit
  unfolding get_virtual_machine_group get_vsphere_machines get_machine_deployments
      get_single_zone_name create_first update_existing
  reconcile_normal c = do
    current ← get_virtual_machine_group
    machines ← get_vsphere_machines
    mds ← get_machine_deployments
    single ← get_single_zone_name
    by_current c mds machines single current

  abbrev by_cluster : Outcome GroupCluster → GroupAction Unit
  by_cluster (err e) = if is_api_not_found e then pure tt else fail e
  by_cluster (ok c) =
      if c.is_deleted
      then pure tt
      else (if c.control_plane_initialized then reconcile_normal c else pure tt)

  unfoldable pub reconcile_group : GroupAction Unit
  unfolding reconcile_normal
  reconcile_group = by_cluster w.get_cluster
