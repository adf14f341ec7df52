-- ===== src/VimMachine/Safety.antt =====
-- The calls that the reconcile of a VSphereMachine that stays makes (pkg/services/vimmachine.go,
-- controllers/vspheremachine_controller.go).
use cluster_api_provider_vsp.Prelude.{
  ℕ, String, Bool, true, false, ◌≡◌, refl, sym, Option, none, some, ◌∷◌, if◌then◌else◌,
}
use mathlib.Core.Path.{subst}
use cluster_api_provider_vsp.Errors.{Outcome, ok, err}
use cluster_api_provider_vsp.Exec.{gets, ◌>>=◌}
use cluster_api_provider_vsp.Exec.Keeps.{Keeps}
use cluster_api_provider_vsp.VimMachine.{
  MachineVm, MachineOwner, DeploymentZone, FailureDomain, VimMachine, CapiMachine, CapiCluster,
  VsphereCluster,
}
use cluster_api_provider_vsp.VimMachine.World.{
  get_machine, MachineWorld, MachineState, call, change,
}
use cluster_api_provider_vsp.VimMachine.Desired.{
  by_failure_domain, by_zone, generate_override_func, bootstrap_secret, mutate_vm, stored_or_new,
  create_or_patch, create_or_patch_vsphere_vm,
}
use cluster_api_provider_vsp.VimMachine.Service.{
  find_vsphere_vm, found_vm, sync_failure_reason, reconcile_normal, get_host_info,
}
use cluster_api_provider_vsp.VimMachine.Controller.{
  patch_machine_labels_with_host_info, by_sync, finish_machine, await_bootstrap, by_bootstrap,
  provision_machine, by_reference, by_capi_cluster, serve_machine, delete_machine,
}
use cluster_api_provider_vsp.VimMachine.Spares.{
  Spares, HasNoDeletion, machine_rules, finish_vm-Spares,
}
use cluster_api_provider_vsp.VimMachine.Reconcile.{
  by_patch, by_summary, close_machine, known_cluster, unless_paused, reconcile_owned,
  release_machine, by_owner, by_machine, reconcile_read, reconcile_machine,
}

module _ (w : MachineWorld) (owner : CapiMachine) where
  find-Spares : Keeps Spares (find_vsphere_vm w owner)
  unfolding find_vsphere_vm
  find-Spares = search machine_rules depth 8

  found-Spares : (r : Outcome MachineVm) → Keeps Spares (found_vm w owner r)
  found-Spares (ok vm) = search machine_rules
  found-Spares (err e) = search machine_rules

  sync-Spares : Keeps Spares (sync_failure_reason w owner)
  unfolding sync_failure_reason
  sync-Spares = search (machine_rules, find-Spares) depth 8

  host-Spares : Keeps Spares (get_host_info w owner)
  unfolding get_host_info
  host-Spares = search (machine_rules, find-Spares) depth 8

  label-Spares : Keeps Spares (patch_machine_labels_with_host_info w owner)
  unfolding patch_machine_labels_with_host_info
  label-Spares = search (machine_rules, host-Spares) depth 10

  await-Spares : (c : CapiCluster) → Keeps Spares (await_bootstrap w owner c)
  unfolding await_bootstrap
  await-Spares c = search machine_rules depth 10

  by_sync-Spares : (r : Outcome (Unit {0})) → Keeps Spares (by_sync w owner r)
  by_sync-Spares (ok u) = search machine_rules
  by_sync-Spares (err e) = search machine_rules

  finish_machine-Spares : (requeue : Bool) → Keeps Spares (finish_machine w owner requeue)
  finish_machine-Spares true = search machine_rules
  finish_machine-Spares false = search (machine_rules, label-Spares) depth 8

module _ (w : MachineWorld) (owner : CapiMachine) (cluster : VsphereCluster) where
  domain-Spares :
      (zone : DeploymentZone) (r : Outcome FailureDomain)
      → Keeps Spares (by_failure_domain w owner cluster zone r)
  domain-Spares zone (ok fd) = search machine_rules
  domain-Spares zone (err e) = search machine_rules

  zone-Spares : (r : Outcome DeploymentZone) → Keeps Spares (by_zone w owner cluster r)
  zone-Spares (err e) = search machine_rules
  zone-Spares (ok zone) = search (machine_rules, domain-Spares) depth 8

  override-Spares : Keeps Spares (generate_override_func w owner cluster)
  unfolding generate_override_func
  override-Spares = search (machine_rules, zone-Spares) depth 8

  secret-Spares : (o : Option String) → Keeps Spares (bootstrap_secret w owner cluster o)
  secret-Spares none = search machine_rules
  secret-Spares (some secret) = search machine_rules

  mutate-Spares :
      (found : Option MachineVm) (vm : MachineVm)
      → Keeps Spares (mutate_vm w owner cluster found vm)
  unfolding mutate_vm
  mutate-Spares found vm = search (machine_rules, secret-Spares, override-Spares) depth 10

  stored-Spares :
      (name : String) (r : Outcome MachineVm) → Keeps Spares (stored_or_new w owner cluster name r)
  stored-Spares name (ok vm) = search machine_rules
  stored-Spares name (err e) = search machine_rules

  patch-Spares :
      (name : String) (found : Option MachineVm)
      → Keeps Spares (create_or_patch w owner cluster name found)
  unfolding create_or_patch
  patch-Spares name found = search (machine_rules, stored-Spares, mutate-Spares) depth 10

  create-Spares :
      (found : Option MachineVm) → Keeps Spares (create_or_patch_vsphere_vm w owner cluster found)
  unfolding create_or_patch_vsphere_vm
  create-Spares found = search (machine_rules, patch-Spares) depth 10

  normal-Spares : Keeps Spares (reconcile_normal w owner cluster)
  unfolding reconcile_normal
  normal-Spares =
      search (machine_rules, find-Spares, found-Spares, create-Spares, finish_vm-Spares) depth 10

  bootstrap-Spares :
      (c : CapiCluster) (secret : Option String)
      → Keeps Spares (by_bootstrap w owner c cluster secret)
  bootstrap-Spares c none = await-Spares w owner c
  bootstrap-Spares c (some secret) =
      search (machine_rules, normal-Spares, finish_machine-Spares) depth 8

  provision-Spares : (c : CapiCluster) → Keeps Spares (provision_machine w owner c cluster)
  unfolding provision_machine
  provision-Spares c =
      search (machine_rules, sync-Spares, by_sync-Spares, bootstrap-Spares) depth 12

module _ (w : MachineWorld) (owner : CapiMachine) where
  reference-Spares :
      (c : CapiCluster) (reference : Option MachineOwner)
      → Keeps Spares (by_reference w owner c reference)
  reference-Spares c none = search machine_rules
  reference-Spares c (some reference) = search (machine_rules, provision-Spares) depth 10

  capi-Spares : (c : Option CapiCluster) → Keeps Spares (by_capi_cluster w owner c)
  capi-Spares none = search machine_rules
  capi-Spares (some c) = reference-Spares c c.infrastructure_ref

  serve-Spares : (c : Option CapiCluster) → Keeps Spares (serve_machine w owner c)
  unfolding serve_machine gets ◌>>=◌
  serve-Spares c = record {
    at = λ s b.
        subst
          (λ deleted.
            Spares ((if deleted then delete_machine w owner else by_capi_cluster w owner c) s).1)
          (sym b.stays) ((capi-Spares c).at s b);
  }

Keeps-add_finalizer : Keeps Spares (change (λ m. record m { has_finalizer = true }))
unfolding change
Keeps-add_finalizer = record {
  at = λ s b. record { finalizer = refl; stays = b.stays; calls = b.calls };
}

module _ (w : MachineWorld) where
  by_patch-Spares :
      (r : Outcome (Option ℕ)) (done : Outcome (Unit {0})) → Keeps Spares (by_patch w r done)
  by_patch-Spares r (ok u) = search machine_rules
  by_patch-Spares r (err e) = search machine_rules

  by_summary-Spares :
      (r : Outcome (Option ℕ)) (done : Outcome (Unit {0})) → Keeps Spares (by_summary w r done)
  by_summary-Spares r (ok u) = search (machine_rules, by_patch-Spares) depth 8
  by_summary-Spares r (err e) = search machine_rules

  close-Spares : (r : Outcome (Option ℕ)) → Keeps Spares (close_machine w r)
  unfolding close_machine
  close-Spares r = search (machine_rules, by_summary-Spares) depth 10

  known-Spares : (r : Outcome CapiCluster) → Keeps Spares (known_cluster w r)
  known-Spares (ok c) = search machine_rules
  known-Spares (err e) = search machine_rules

  unless_paused-Spares :
      (owner : CapiMachine) (c : Option CapiCluster) (answer : Bool × Bool)
      → Keeps Spares (unless_paused w owner c answer)
  unless_paused-Spares owner c (is_paused, requeue) =
      search (machine_rules, serve-Spares, close-Spares) depth 10

  owned-Spares : (owner : CapiMachine) → Keeps Spares (reconcile_owned w owner)
  unfolding reconcile_owned
  owned-Spares owner =
      search (machine_rules, known-Spares, unless_paused-Spares, Keeps-add_finalizer) depth 14

  release-Spares : Keeps Spares (release_machine w)
  unfolding release_machine gets ◌>>=◌
  release-Spares = record { at = λ s b. simp b.stays b }

  owner-Spares : (owner : Option CapiMachine) → Keeps Spares (by_owner w owner)
  owner-Spares none = release-Spares
  owner-Spares (some owner) = owned-Spares owner

  served-Spares : Keeps Spares (reconcile_read w)
  unfolding reconcile_read
  served-Spares = search (machine_rules, owner-Spares) depth 8

  -- whatever the reconcile does with the machine that it has read
  read-Spares :
      (m : VimMachine) (s : MachineState)
      → m.has_finalizer ≡ true
      → m.is_deleted ≡ false
      → HasNoDeletion s.calls
      → Spares (by_machine w (ok m) s).1
  unfolding change ◌>>=◌
  read-Spares m s h k b =
      served-Spares.at (record s { machine = m }) (record { finalizer = h; stays = k; calls = b })

  -- If the VSphereMachine that is read has its finalizer and is not being deleted, and no VSphereVM
  -- is deleted by the calls before, then after the reconcile it has its finalizer, it is not being
  -- deleted, and no call has deleted a VSphereVM, whatever the world answers.
  pub reconcile_machine-Spares :
      (m : VimMachine) (s : MachineState)
      → w.get_machine s.calls ≡ ok m
      → m.has_finalizer ≡ true
      → m.is_deleted ≡ false
      → HasNoDeletion s.calls
      → Spares (reconcile_machine w s).1
  unfolding reconcile_machine call
  reconcile_machine-Spares m s e h k b =
      subst (λ r. Spares (by_machine w r (record s { calls = get_machine ∷ s.calls })).1) (sym e)
        (read-Spares m (record s { calls = get_machine ∷ s.calls }) h k (refl, b))
