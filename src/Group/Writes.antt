-- ===== src/Group/Writes.antt =====
-- What a reconcile of the group writes, and when (controllers/vmware/
-- virtualmachinegroup_reconciler.go: Reconcile, reconcileNormal).
use cluster_api_provider_vsp.Prelude.{
  String, ◌≡◌, Option, none, some, List, [], ◌∷◌, arith, if◌then◌else◌,
}
use cluster_api_provider_vsp.Errors.{Error, Outcome, ok, err}
use cluster_api_provider_vsp.Exec.{◌>>=◌}
use cluster_api_provider_vsp.Group.{
  MachineDeployment, VsphereMachine, VirtualMachineGroup, GroupCluster,
}
use cluster_api_provider_vsp.Group.Members.{
  compute_virtual_machine_group, should_create_virtual_machine_group,
}
use cluster_api_provider_vsp.Group.Reconcile.{
  GroupWorld, GroupWrite, create_group, patch_group, single_zone_of, found_group, write_group,
  create_first, update_existing, get_virtual_machine_group, get_vsphere_machines,
  get_machine_deployments, get_single_zone_name, reconcile_normal, reconcile_group,
}

-- the lists that a reconcile reads
pub record Inputs : Type 0 where
  pub cluster : GroupCluster
  pub machines : List VsphereMachine
  pub deployments : List MachineDeployment
  pub zones : List String

abbrev staying : GroupCluster → Option GroupCluster
staying c = if c.is_deleted then none else (if c.control_plane_initialized then some c else none)

abbrev cluster_to_serve : Outcome GroupCluster → Option GroupCluster
cluster_to_serve (ok c) = staying c
cluster_to_serve (err e) = none

abbrev created : Outcome VirtualMachineGroup → List GroupWrite
created (ok vmg) = create_group vmg ∷ []
created (err e) = []

module _ (w : GroupWorld) where
  abbrev patched :
      VirtualMachineGroup → Option Error → Outcome VirtualMachineGroup → List GroupWrite
  patched current none (ok updated) = patch_group current updated ∷ []
  patched current (some e) (ok updated) = []
  patched current refused (err e) = []

  -- the group that the lists ask for
  abbrev computed : Inputs → Option VirtualMachineGroup → Outcome VirtualMachineGroup
  computed i existing =
      compute_virtual_machine_group w.templates w.ensure_owner_ref i.cluster i.deployments
        i.machines (single_zone_of i.zones) existing

  abbrev by_group : Inputs → Outcome (Option VirtualMachineGroup) → List GroupWrite
  by_group i (err e) = []
  by_group i (ok none) =
      if should_create_virtual_machine_group i.deployments i.machines
      then created (computed i none)
      else []
  by_group i (ok (some vmg)) = patched vmg (w.merge_from vmg) (computed i (some vmg))

  -- all that a reconcile reads, where nothing stops it
  abbrev inputs :
      Option GroupCluster
      → Outcome (List VsphereMachine)
      → Outcome (List MachineDeployment)
      → Outcome (List String)
      → Option Inputs
  inputs (some c) (ok machines) (ok mds) (ok zones) =
      some (record { cluster = c; machines = machines; deployments = mds; zones = zones })
  inputs c machines mds zones = none

  abbrev by_inputs : Option Inputs → List GroupWrite
  by_inputs none = []
  by_inputs (some i) = by_group i (found_group w.get_group)

  -- the writes, as a function of what is read
  unfoldable pub planned_writes : List GroupWrite
  planned_writes =
      by_inputs
        (inputs (cluster_to_serve w.get_cluster) w.list_machines w.list_deployments w.list_zones)

  -- A reconcile of the VirtualMachineGroup writes exactly what planned_writes says of the answers
  -- that it reads: nothing unless the cluster stays, its control plane is initialized and all lists
  -- are read; the creation of the computed group where there is none and the machines are ready; a
  -- patch where there is one and the patch can be made.
  pub reconcile_group-planned_writes : (reconcile_group w []).1 ≡ planned_writes
  unfolding reconcile_group planned_writes reconcile_normal get_virtual_machine_group
      get_vsphere_machines get_machine_deployments get_single_zone_name create_first update_existing
      write_group ◌>>=◌
  reconcile_group-planned_writes = ground arith
