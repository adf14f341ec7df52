-- ===== src/Vm/Service/Seen.antt =====
-- The power state that `ReconcileVM` (pkg/services/govmomi/service.go) has seen when it calls the VM
-- ready.
use cluster_api_provider_vsp.Prelude.{
  refl, ap, if-both, if◌then◌else◌, Bool, true, false, ◌≡◌, [], ◌∷◌, arith,
}
use cluster_api_provider_vsp.Errors.{Error, Outcome, ok, err}
use cluster_api_provider_vsp.Exec.{◌>>=◌, lift, pure, attempt, deferred, modify}
use cluster_api_provider_vsp.Api.{PowerState, VirtualMachineState, powered_on, ready_state}
use cluster_api_provider_vsp.World.{World, MoRef, Trace, query_power_state}
use cluster_api_provider_vsp.Vm.Context.{
  Context, Action, ask, try, perform, emit, write, set_condition, set_state, set_task_ref,
  set_retry_after,
}
use cluster_api_provider_vsp.Vm.Services.{Services}
use cluster_api_provider_vsp.Vm.Power.{get_power_state}
use cluster_api_provider_vsp.Vm.Update.{
  reconcile_uuid, reconcile_hardware_version, reconcile_pci_devices, devices_attached, add_devices,
  reconcile_network_status, reconcile_ip_addresses, reconcile_metadata, set_metadata,
  reconcile_storage_policy, change_storage_policy, reconcile_power_state, reconcile_host_info,
  not_yet_provisioned,
}
use cluster_api_provider_vsp.Vm.Membership.{
  reconcile_vm_group_info, find_vm_group, join_group, reconcile_cluster_module_membership,
  set_module_uuid, reconcile_tags,
}
use cluster_api_provider_vsp.Vm.Service.{
  start, set_vm_ref, if_done, configure, update_vm, by_ref, on_return, handle_missing,
  create_missing, create_vm, get_bootstrap_data, reconcile_vm, finish_update,
}
use cluster_api_provider_vsp.Vm.Find.{find_vm, find_by_uid, find_by_path}
use cluster_api_provider_vsp.Vm.Task.{
  get_task, reconcile_in_flight_task, reconcile_vsphere_vm_on_task_completion,
}

-- the answer says that the VM is powered on
abbrev pub IsOn : Outcome PowerState → Type 0
IsOn (ok powered_on) = Unit
IsOn (ok _) = ⊥
IsOn (err e) = ⊥

-- the answer to the latest question for a power state was that the VM is on
abbrev pub SeenOn : World → Trace → Type 0
SeenOn w [] = ⊥
SeenOn w (query_power_state asked ∷ tr) = IsOn (w.power_state tr asked)
SeenOn w (_ ∷ tr) = SeenOn w tr

abbrev pub is_ready : VirtualMachineState → Bool
is_ready ready_state = true
is_ready _ = false

record NotReady (s : Context) : Type 0 where
  state : is_ready s.vm.state ≡ false

record IsReadySeen (w : World) (s : Context) : Type 0 where
  seen : is_ready s.vm.state ≡ true → SeenOn w s.trace

-- from a VM that is not ready, an action makes it ready only where it is seen on
record Brings {A : Type 0} (w : World) (m : Context → Outcome A × Context) : Type 0 where
  at : (s : Context) → NotReady s → IsReadySeen w (m s).1

unready : (w : World) (s : Context) → NotReady s → IsReadySeen w s
unready w s h = record { seen = λ f. absurd (cc (f, h.state)) }

module _ {A B : Type 0} (w : World) where
  Brings-bind :
      (m : Action A) (f : A → Action B)
      → ((s : Context) → NotReady s → NotReady (m s).1)
      → ((a : A) → Brings w (f a))
      → Brings w (m >>= f)
  unfolding ◌>>=◌
  Brings-bind m f k b = record { at = λ s h. after (m s).0 (m s).1 (k s h) }
    where
      after : (r : Outcome A) (t : Context) → NotReady t → IsReadySeen w ((lift r >>= f) t).1
      after (ok a) t h = (b a).at t h
      after (err e) t h = unready w t h

module _ (w : World) (v : Services) (ref : MoRef) where
  finish-Brings : Brings w (finish_update w v ref)
  unfolding finish_update ◌>>=◌ get_power_state reconcile_power_state reconcile_host_info
      reconcile_tags not_yet_provisioned ask try perform emit write set_condition set_state
      set_task_ref
  finish-Brings = record { at = λ s h. record { seen = λ f. ground (arith, h.state, f) } }

  uuid-NotReady : (s : Context) → NotReady s → NotReady (reconcile_uuid w v ref s).1
  unfolding reconcile_uuid ◌>>=◌ ask
  uuid-NotReady s h = record { state = ground (arith, h.state) }

  hardware-NotReady : (s : Context) → NotReady s → NotReady (reconcile_hardware_version w v ref s).1
  unfolding reconcile_hardware_version ◌>>=◌ try set_task_ref
  hardware-NotReady s h = record { state = ground (arith, h.state) }

  pci-NotReady : (s : Context) → NotReady s → NotReady (reconcile_pci_devices w v ref s).1
  unfolding reconcile_pci_devices ◌>>=◌ try perform emit write set_condition set_task_ref
      devices_attached add_devices get_power_state
  pci-NotReady s h = record { state = ground (arith, h.state) }

  network-NotReady : (s : Context) → NotReady s → NotReady (reconcile_network_status w v ref s).1
  unfolding reconcile_network_status ◌>>=◌ try
  network-NotReady s h = record { state = ground (arith, h.state) }

  addresses-NotReady : (s : Context) → NotReady s → NotReady (reconcile_ip_addresses w v s).1
  unfolding reconcile_ip_addresses ◌>>=◌ try write set_condition emit not_yet_provisioned
  addresses-NotReady s h = record { state = ground (arith, h.state) }

  metadata-NotReady : (s : Context) → NotReady s → NotReady (reconcile_metadata w v ref s).1
  unfolding reconcile_metadata set_metadata ◌>>=◌ try set_task_ref
  metadata-NotReady s h = record { state = ground (arith, h.state) }

  storage-NotReady : (s : Context) → NotReady s → NotReady (reconcile_storage_policy w v ref s).1
  unfolding reconcile_storage_policy change_storage_policy ◌>>=◌ try perform set_task_ref
      get_power_state
  storage-NotReady s h = record { state = ground (arith, h.state) }

  group-NotReady : (s : Context) → NotReady s → NotReady (reconcile_vm_group_info w ref s).1
  unfolding reconcile_vm_group_info find_vm_group join_group ◌>>=◌ try set_task_ref
  group-NotReady s h = record { state = ground (arith, h.state) }

  membership-NotReady :
      (s : Context) → NotReady s → NotReady (reconcile_cluster_module_membership w ref s).1
  unfolding reconcile_cluster_module_membership ◌>>=◌ perform set_module_uuid
  membership-NotReady s h = record { state = ground (arith, h.state) }

  if_done-Brings : (b : Bool) (m : Action Unit) → Brings w m → Brings w (if_done b m)
  unfolding pure
  if_done-Brings b m h = if-both (Brings w) b h (record { at = λ s k. unready w s k })

  configure-Brings : Brings w (configure w v ref)
  unfolding configure
  configure-Brings = Brings-bind w _ _ addresses-NotReady λ a. if_done-Brings a _ (
      Brings-bind w _ _ metadata-NotReady λ d. if_done-Brings d _ (
        Brings-bind w _ _ storage-NotReady λ u.
          Brings-bind w _ _ group-NotReady
            λ g. if_done-Brings g _ (Brings-bind w _ _ membership-NotReady λ n. finish-Brings)))

  update_vm-Brings : Brings w (update_vm w v ref)
  unfolding update_vm set_vm_ref modify
  update_vm-Brings =
      Brings-bind w _ _ (λ s h. record { state = h.state })
        λ r. Brings-bind w _ _ uuid-NotReady λ u. Brings-bind w _ _ hardware-NotReady λ g.
          if_done-Brings g _ (
            Brings-bind w _ _ pci-NotReady
              λ p. Brings-bind w _ _ network-NotReady λ n. configure-Brings)

module _ (w : World) (v : Services) where
  handle_missing-NotReady :
      (e : Error) (s : Context) → NotReady s → NotReady (handle_missing w v e s).1
  unfolding handle_missing create_missing create_vm get_bootstrap_data not_yet_provisioned ◌>>=◌ try
      perform write emit set_condition set_state set_task_ref
  handle_missing-NotReady e s h = record { state = ground (arith, h.state) }

  find_vm-NotReady : (s : Context) → NotReady s → NotReady (find_vm w s).1
  unfolding find_vm find_by_uid find_by_path ◌>>=◌ try
  find_vm-NotReady s h = record { state = ground (arith, h.state) }

  in_flight-NotReady : (s : Context) → NotReady s → NotReady (reconcile_in_flight_task w s).1
  unfolding reconcile_in_flight_task ◌>>=◌ ask try write emit set_condition set_task_ref
      set_retry_after
  in_flight-NotReady s h = record { state = ground (arith, h.state) }

  by_ref-seen : (r : Outcome MoRef) (s : Context) → NotReady s → IsReadySeen w (by_ref w v r s).1
  by_ref-seen (ok ref) s h = (update_vm-Brings w v ref).at s h
  by_ref-seen (err e) s h = unready w _ (handle_missing-NotReady e s h)

  on_return-seen : (s : Context) → IsReadySeen w s → IsReadySeen w (on_return w v s)
  unfolding reconcile_vsphere_vm_on_task_completion get_task ◌>>=◌ try emit
  on_return-seen s h = record { seen = λ f. ground (arith, f, h.seen) }

  found-Brings : Brings w (deferred (on_return w v) (attempt (find_vm w) (by_ref w v)))
  unfolding deferred attempt
  found-Brings = record {
    at = λ s h.
        on_return-seen _ (by_ref-seen (find_vm w s).0 (find_vm w s).1 (find_vm-NotReady s h));
  }

  in_flight-Brings : Brings w (
      reconcile_in_flight_task w >>= λ b.
      if b then pure tt else deferred (on_return w v) (attempt (find_vm w) (by_ref w v)))
  unfolding reconcile_in_flight_task pure
  in_flight-Brings =
      Brings-bind w _ _ in_flight-NotReady
        λ b. if-both (Brings w) b (record { at = λ s h. unready w s h }) found-Brings

  -- If ReconcileVM leaves the VM in the state ready, then the answer to the latest question for a
  -- power state among the recorded calls was that the VM is powered on.
  pub reconcile_vm-SeenOn :
      (s : Context)
      → (reconcile_vm w v s).1.vm.state ≡ ready_state
      → SeenOn w (reconcile_vm w v s).1.trace
  unfolding reconcile_vm ◌>>=◌ start
  reconcile_vm-SeenOn s f =
      (in_flight-Brings.at (start s) (record { state = refl })).seen (ap is_ready f)
