-- ===== src/Vm/Membership.antt =====
-- The steps of `ReconcileVM` that put a VM into a VM group, attach tags, and add it to a cluster
-- module (pkg/services/govmomi/service.go, pkg/services/govmomi/cluster/vmgroup.go).
use cluster_api_provider_vsp.Prelude.{
  String, Bool, true, false, Option, none, some, List, [], ◌∷◌, is_nil, str_eq, if◌then◌else◌,
}
use cluster_api_provider_vsp.Errors.{Outcome, ok, err, errorf, wrapped}
use cluster_api_provider_vsp.Exec.{pure, lift, wrap, gets, ◌>>=◌, ◌>>◌}
use cluster_api_provider_vsp.Api.{FailureDomainTopology}
use cluster_api_provider_vsp.World.{World, MoRef, ClusterVmGroup, Call}
use cluster_api_provider_vsp.Vm.Context.{Action, try, perform, set_task_ref}

-- the group of that name in a cluster's configuration
unfoldable pub find_group : String → List ClusterVmGroup → Outcome ClusterVmGroup
find_group name [] = err (errorf "cannot find VM group %s")
find_group name (g ∷ gs) = if str_eq g.name name then ok g else find_group name gs

unfoldable pub has_vm : MoRef → List MoRef → Bool
has_vm ref [] = false
has_vm ref (r ∷ rs) = if str_eq r ref then true else has_vm ref rs

-- `VSphereVM.Status.ModuleUUID = module`
unfoldable pub set_module_uuid : Option String → Action Unit
set_module_uuid m s = (
  ok tt,
  record s {
    vsphere_vm = record s.vsphere_vm { status = record s.vsphere_vm.status { module_uuid = m } };
  },
)

module _ (w : World) where
  unfoldable pub find_vm_group : String → String → Action ClusterVmGroup
  unfolding find_group
  find_vm_group cluster group = do
    ccr ← try (Call.find_cluster cluster) (λ tr. w.find_cluster tr cluster)
    groups ← try (Call.query_cluster_configuration ccr) (λ tr. w.cluster_groups tr ccr)
    lift (find_group group groups)

  unfoldable pub join_group : MoRef → String → String → Action Bool
  unfolding find_vm_group has_vm
  join_group ref cluster group = do
    g ← wrap (wrapped "unable to find VM Group %s") (find_vm_group cluster group)
    if has_vm ref g.vms then pure true else do
      task ← wrap (wrapped "failed to add VM %s to VM group") (
          try (Call.add_to_vm_group cluster group ref)
            (λ tr. w.add_to_vm_group tr cluster group ref))
      set_task_ref task
      pure false

  abbrev pub by_hosts : MoRef → String → Option String → Action Bool
  by_hosts ref cluster none = pure true
  by_hosts ref cluster (some group) = join_group ref cluster group

  abbrev pub by_failure_domain : MoRef → Option FailureDomainTopology → Action Bool
  by_failure_domain ref none = pure true
  by_failure_domain ref (some t) = by_hosts ref t.compute_cluster t.vm_group_name

  unfoldable pub reconcile_vm_group_info : MoRef → Action Bool
  unfolding join_group
  reconcile_vm_group_info ref = do
    domain ← gets (λ s. s.failure_domain)
    by_failure_domain ref domain

  unfoldable pub reconcile_tags : MoRef → Action Unit
  reconcile_tags ref = do
    tags ← gets (λ s. s.vsphere_vm.spec.tag_ids)
    if is_nil tags
        then pure tt
        else wrap (wrapped "failed to attach tags %v to VM %s")
            (perform (Call.attach_tags ref tags) (λ tr. w.attach_tags tr ref tags))

  abbrev pub join_module : MoRef → Option String → Action Unit
  join_module ref none = pure tt
  join_module ref (some m) = do
    perform (Call.add_to_module m ref) (λ tr. w.add_to_module tr m ref)
    set_module_uuid (some m)

  unfoldable pub reconcile_cluster_module_membership : MoRef → Action Unit
  unfolding set_module_uuid
  reconcile_cluster_module_membership ref = do
    info ← gets (λ s. s.cluster_module_info)
    join_module ref info
