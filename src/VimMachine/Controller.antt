-- ===== src/VimMachine/Controller.antt =====
-- The controller of VSphereMachines without a supervisor (controllers/vspheremachine_controller.go:
-- Reconcile, reconcileDelete, reconcileNormal, patchMachineLabelsWithHostInfo).
use cluster_api_provider_vsp.Prelude.{
  ℕ, String, Bool, true, false, not, ◌&&◌, Option, none, some, deref, if◌then◌else◌,
}
use cluster_api_provider_vsp.Errors.{Outcome, ok, err, errorf, wrapped, is_api_not_found}
use cluster_api_provider_vsp.Exec.{pure, fail, wrap, gets, attempt, ◌>>=◌, ◌>>◌}
use cluster_api_provider_vsp.VimMachine.{
  stated, machine_provisioned, machine_deleting, waiting_for_cluster_infrastructure,
  waiting_for_control_plane_initialized, waiting_for_bootstrap_data, marked_true, marked_false,
  deleting_v1beta1, deletion_failed_v1beta1, cluster_infrastructure_v1beta1, control_plane_v1beta1,
  bootstrap_data_v1beta1, MachineOwner, CapiMachine, CapiCluster, VsphereCluster,
}
use cluster_api_provider_vsp.VimMachine.World.{
  new_patch_helper, get_vsphere_cluster, patch_host_label, MachineWorld, MachineAction, call, run,
  change, mark,
}
use cluster_api_provider_vsp.VimMachine.Service.{
  reconcile_delete, sync_failure_reason, reconcile_normal, get_host_info,
}

-- `RequeueAfter: 10 * time.Second`, or no requeue
abbrev pub ten_seconds : Option ℕ
ten_seconds = some 10000000000

module _ (w : MachineWorld) (owner : CapiMachine) where
  abbrev pub by_deletion : Outcome (Unit {0}) → MachineAction (Option ℕ)
  by_deletion (ok done) = pure ten_seconds
  by_deletion (err e) =
      if is_api_not_found e
      then (do change (λ m. record m { has_finalizer = false }); pure none)
      else (do
        mark (marked_false deletion_failed_v1beta1) (stated false (machine_deleting true))
        fail e)

  unfoldable pub delete_machine : MachineAction (Option ℕ)
  unfolding reconcile_delete mark attempt ◌>>=◌
  delete_machine = do
    mark (marked_false deleting_v1beta1) (stated false (machine_deleting false))
    attempt (reconcile_delete w owner) by_deletion

  unfoldable pub patch_machine_labels_with_host_info : MachineAction Unit
  unfolding get_host_info run
  patch_machine_labels_with_host_info = do
    host ← get_host_info w owner
    let info = w.sanitize_host_info host in
        if w.is_valid_label_value info
        then (do
          run new_patch_helper w.new_patch_helper
          run (patch_host_label info) (λ tr. w.patch_host_label tr info))
        else fail (errorf "%s (hostInfo: %s): %s")

  abbrev pub by_sync : Outcome (Unit {0}) → MachineAction Unit
  by_sync (ok done) = pure tt
  by_sync (err e) = if is_api_not_found e then pure tt else fail e

  abbrev pub finish_machine : Bool → MachineAction (Option ℕ)
  finish_machine true = pure ten_seconds
  finish_machine false = do
    wrap (wrapped "failed to patch Machine with host info label")
        patch_machine_labels_with_host_info
    mark marked_true (stated true machine_provisioned)
    pure none

  -- no secret with the bootstrap data yet
  unfoldable pub await_bootstrap : CapiCluster → MachineAction (Option ℕ)
  unfolding mark
  await_bootstrap cluster = do
    control_plane ← gets (λ s. s.machine.is_control_plane)
    (if not control_plane && not cluster.control_plane_initialized
        then mark (marked_false control_plane_v1beta1)
            (stated false waiting_for_control_plane_initialized)
        else mark (marked_false bootstrap_data_v1beta1) (stated false waiting_for_bootstrap_data))
    pure none

  abbrev pub by_bootstrap : CapiCluster → VsphereCluster → Option String → MachineAction (Option ℕ)
  by_bootstrap cluster vsphere_cluster none = await_bootstrap cluster
  by_bootstrap cluster vsphere_cluster (some secret) = do
    requeue ← reconcile_normal w owner vsphere_cluster
    finish_machine requeue

  unfoldable pub provision_machine : CapiCluster → VsphereCluster → MachineAction (Option ℕ)
  unfolding sync_failure_reason reconcile_normal patch_machine_labels_with_host_info await_bootstrap
      mark attempt ◌>>=◌
  provision_machine cluster vsphere_cluster = do
    attempt (sync_failure_reason w owner) by_sync
    if deref cluster.infrastructure_provisioned false
        then by_bootstrap cluster vsphere_cluster owner.data_secret_name
        else do
          mark (marked_false cluster_infrastructure_v1beta1)
              (stated false waiting_for_cluster_infrastructure)
          pure none

  abbrev pub by_reference : CapiCluster → Option MachineOwner → MachineAction (Option ℕ)
  by_reference cluster none = pure none
  by_reference cluster (some reference) = do
    change (λ m. record m { owner_references = w.remove_owner_ref m.owner_references reference })
    vsphere_cluster ←
        wrap (wrapped "failed to get VSphereCluster")
          (call get_vsphere_cluster w.get_vsphere_cluster)
    provision_machine cluster vsphere_cluster

  abbrev pub by_capi_cluster : Option CapiCluster → MachineAction (Option ℕ)
  by_capi_cluster none = pure none
  by_capi_cluster (some cluster) = by_reference cluster cluster.infrastructure_ref

  -- after the preparation, and before the deferred function
  unfoldable pub serve_machine : Option CapiCluster → MachineAction (Option ℕ)
  unfolding delete_machine provision_machine
  serve_machine cluster = do
    deleted ← gets (λ s. s.machine.is_deleted)
    if deleted then delete_machine else by_capi_cluster cluster
