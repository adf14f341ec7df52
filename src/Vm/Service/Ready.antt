-- ===== src/Vm/Service/Ready.antt =====
-- When the last steps of `ReconcileVM` (pkg/services/govmomi/service.go) make the VM ready.
use cluster_api_provider_vsp.Prelude.{
  Bool, true, false, ◌≡◌, ◌≢◌, ◌↔◌, Option, none, some, ◌∷◌, arith, is_nil, ◌||◌,
}
use cluster_api_provider_vsp.Errors.{Outcome, ok, err}
use cluster_api_provider_vsp.Exec.{◌>>=◌}
use cluster_api_provider_vsp.Api.{powered_on, ready_state}
use cluster_api_provider_vsp.World.{World, MoRef, Trace, query_power_state, query_host}
use cluster_api_provider_vsp.Vm.Context.{
  Context, ask, try, perform, emit, write, set_condition, set_state, set_task_ref,
}
use cluster_api_provider_vsp.Vm.Services.{Services}
use cluster_api_provider_vsp.Vm.Power.{get_power_state}
use cluster_api_provider_vsp.Vm.Update.{
  reconcile_power_state, reconcile_host_info, not_yet_provisioned,
}
use cluster_api_provider_vsp.Vm.Membership.{reconcile_tags}
use cluster_api_provider_vsp.Vm.Service.{finish_update}

abbrev pub is_ok : {A : Type 0} → Outcome A → Bool
is_ok (ok a) = true
is_ok (err e) = false

abbrev pub is_none : {A : Type 0} → Option A → Bool
is_none none = true
is_none (some a) = false

module _ (w : World) (v : Services) (ref : MoRef) (s : Context) where
  abbrev pub power_asked : Trace
  power_asked = query_power_state ref ∷ s.trace

  abbrev pub host_asked : Trace
  host_asked = query_host ref ∷ power_asked

  -- If the VM is not in the state ready, the steps of ReconcileVM from the power state on make it
  -- ready exactly where the VM is powered on, its host is answered, and there are no tags to attach
  -- or their attachment answers no error.
  pub finish_update-ready :
      s.vm.state ≢ ready_state
      → ((finish_update w v ref s).1.vm.state ≡ ready_state)
        ↔ (w.power_state s.trace ref ≡ ok powered_on)
          × (is_ok (w.host_name power_asked ref) ≡ true)
          × ((is_nil s.vsphere_vm.spec.tag_ids
                || is_none (w.attach_tags host_asked ref s.vsphere_vm.spec.tag_ids))
              ≡ true)
  unfolding finish_update ◌>>=◌ get_power_state reconcile_power_state reconcile_host_info
      reconcile_tags not_yet_provisioned ask try perform emit write set_condition set_state
      set_task_ref
  finish_update-ready h = ground arith
