-- ===== src/VimMachine/Reconcile.antt =====
-- The reconcile of a VSphereMachine (controllers/vspheremachine_controller.go: Reconcile).
use cluster_api_provider_vsp.Prelude.{
  ℕ, Bool, true, false, ◌&&◌, ◌||◌, Option, none, some, deref, if◌then◌else◌,
}
use cluster_api_provider_vsp.Errors.{
  Error, Outcome, ok, err, wrapped, aggregate, aggregate_next, is_api_not_found,
}
use cluster_api_provider_vsp.Exec.{pure, fail, lift, wrap, gets, attempt, ◌>>=◌, ◌>>◌}
use cluster_api_provider_vsp.VimMachine.{
  MachineCondition, stated, machine_provisioned, machine_not_provisioned, VimMachine, CapiMachine,
  CapiCluster,
}
use cluster_api_provider_vsp.VimMachine.World.{
  get_machine, get_owner_machine, add_owners, get_cluster, ensure_finalizer, new_patch_helper,
  ensure_paused, set_summary, patch_machine, MachineWorld, MachineAction, call, run, change,
}
use cluster_api_provider_vsp.VimMachine.Controller.{serve_machine}

-- the condition is always set before the object is written
abbrev pub condition_or_default : VimMachine → Option MachineCondition → Option MachineCondition
condition_or_default m (some c) = some c
condition_or_default m none = some (
    if deref m.provisioned false
    then stated true machine_provisioned
    else stated false machine_not_provisioned)

-- the errors of the reconcile and of what follows it, in one
abbrev pub and_error : Outcome (Option ℕ) → Error → Error
and_error (ok requeue) e = aggregate e
and_error (err first) e = aggregate_next first (aggregate e)

module _ (w : MachineWorld) where
  abbrev pub by_patch : Outcome (Option ℕ) → Outcome (Unit {0}) → MachineAction (Option ℕ)
  by_patch r (err e) = fail (and_error r e)
  by_patch r (ok done) = lift r

  abbrev pub by_summary : Outcome (Option ℕ) → Outcome (Unit {0}) → MachineAction (Option ℕ)
  by_summary r (err e) = fail (and_error r (wrapped "failed to set %s condition" e))
  by_summary r (ok done) = attempt (run patch_machine w.patch_machine) (by_patch r)

  -- the deferred function
  unfoldable pub close_machine : Outcome (Option ℕ) → MachineAction (Option ℕ)
  unfolding run change attempt ◌>>=◌
  close_machine r = do
    change (λ m. record m { condition = condition_or_default m m.condition })
    attempt (run set_summary w.set_summary) (by_summary r)

  abbrev pub known_cluster : Outcome CapiCluster → MachineAction (Option CapiCluster)
  known_cluster (ok cluster) = pure (some cluster)
  known_cluster (err e) = pure none

  abbrev pub unless_paused :
      CapiMachine → Option CapiCluster → Bool × Bool → MachineAction (Option ℕ)
  unless_paused owner cluster (is_paused, requeue) =
      if is_paused || requeue
      then pure none
      else attempt (serve_machine w owner cluster) close_machine

  unfoldable pub reconcile_owned : CapiMachine → MachineAction (Option ℕ)
  unfolding serve_machine close_machine call
  reconcile_owned owner = do
    run add_owners w.add_owners
    cluster ← attempt (call get_cluster w.get_cluster) known_cluster
    added ← call ensure_finalizer w.ensure_finalizer
    if added then (do change (λ m. record m { has_finalizer = true }); pure none) else (do
      run new_patch_helper w.new_patch_helper
      answer ← call ensure_paused w.ensure_paused
      unless_paused owner cluster answer)

  -- without an owner there is nothing to delete
  unfoldable pub release_machine : MachineAction (Option ℕ)
  unfolding run change ◌>>=◌
  release_machine = do
    m ← gets (λ s. s.machine)
    if m.is_deleted && m.has_finalizer
        then (do
          run new_patch_helper w.new_patch_helper
          change (λ n. record n { has_finalizer = false })
          run patch_machine w.patch_machine
          pure none)
        else pure none

  abbrev pub by_owner : Option CapiMachine → MachineAction (Option ℕ)
  by_owner none = release_machine
  by_owner (some owner) = reconcile_owned owner

  -- the machine is read
  unfoldable pub reconcile_read : MachineAction (Option ℕ)
  unfolding reconcile_owned release_machine
  reconcile_read = do
    owner ←
        wrap (wrapped "failed to get Machine for VSphereMachine")
          (call get_owner_machine w.get_owner_machine)
    by_owner owner

  abbrev pub by_machine : Outcome VimMachine → MachineAction (Option ℕ)
  by_machine (err e) = if is_api_not_found e then pure none else fail e
  by_machine (ok m) = do change (λ before. m); reconcile_read

  unfoldable pub reconcile_machine : MachineAction (Option ℕ)
  unfolding reconcile_read
  reconcile_machine = attempt (call get_machine w.get_machine) by_machine
