-- ===== src/Vm/Service/Outcomes.antt =====
-- What `ReconcileVM` (pkg/services/govmomi/service.go) does before it comes to the VM: the tracking of
-- tasks, and the search for a VM that is known by its BIOS UUID.
use cluster_api_provider_vsp.Prelude.{
  String, Bool, true, false, ◌≡◌, refl, sym, ap, ◌∙◌, Option, none, some, ◌∷◌, arith, inl, inr,
  Bool-cases, is_empty, if◌then◌else◌,
}
use cluster_api_provider_vsp.Errors.{
  Error, Outcome, ok, err, vm_not_found, is_not_found, was_not_found_by_bios_uuid,
}
use cluster_api_provider_vsp.Exec.{pure, lift, attempt, deferred, ◌>>=◌}
use cluster_api_provider_vsp.Exec.Keeps.{Keeps}
use cluster_api_provider_vsp.World.{World, MoRef, Trace, Call}
use cluster_api_provider_vsp.Vm.Context.{
  Context, try, ask, set_condition, set_task_ref, set_retry_after,
}
use cluster_api_provider_vsp.Vm.Task.{reconcile_in_flight_task}
use cluster_api_provider_vsp.Vm.Find.{found_by_bios_uuid, find_vm}
use cluster_api_provider_vsp.Vm.Services.{Services}
use cluster_api_provider_vsp.Vm.Service.{start, handle_missing, by_ref, on_return, reconcile_vm}
use cluster_api_provider_vsp.Vm.Calls.{Extends, same, Since, calls_rules}
use cluster_api_provider_vsp.Vm.Calls.Reading.{
  reconcile_in_flight_task-Since, on_task_completion-Since, find_vm-Since,
}
use cluster_api_provider_vsp.Vm.Calls.Steps.{
  updates_vm, reading-updates_vm, report-Since, update_vm-Since,
}

module _ (w : World) (v : Services) (s : Context) where
  -- If the tracking of tasks answers that a task is in flight, then ReconcileVM returns without an
  -- error in the state that the tracking leaves, and does nothing else.
  pub reconcile_vm-in_flight :
      (reconcile_in_flight_task w (start s)).0 ≡ ok true
      → reconcile_vm w v s ≡ (ok tt, (reconcile_in_flight_task w (start s)).1)
  unfolding reconcile_vm ◌>>=◌
  reconcile_vm-in_flight h = ground arith

  -- If the tracking of tasks answers an error, then ReconcileVM returns that error in the state
  -- that the tracking leaves, and does nothing else.
  pub reconcile_vm-tracking_error :
      (e : Error)
      → (reconcile_in_flight_task w (start s)).0 ≡ err e
      → reconcile_vm w v s ≡ (err e, (reconcile_in_flight_task w (start s)).1)
  unfolding reconcile_vm ◌>>=◌
  reconcile_vm-tracking_error e h = ground arith

-- an error that does not lead to the creation of a VM
abbrev is_known_missing : Error → Bool
is_known_missing e = if is_not_found e then was_not_found_by_bios_uuid e else true

-- the search by BIOS UUID answers with no error of this package
abbrev pub IsForeign : World → Type 0
IsForeign w =
    (tr : Trace) (u : String) (e : Error)
    → w.find_by_bios_uuid tr u ≡ err e
    → is_not_found e ≡ false

-- what the search by BIOS UUID answers
abbrev bios_answer : String → Outcome (Option MoRef) → Outcome MoRef
bios_answer uuid (err e) = err e
bios_answer uuid (ok none) = err (vm_not_found uuid "")
bios_answer uuid (ok (some ref)) = ok ref

answer-lift :
    (uuid : String) (x : Outcome (Option MoRef)) (t : Context)
    → ((lift x >>= found_by_bios_uuid uuid) t).0 ≡ bios_answer uuid x
unfolding ◌>>=◌
answer-lift uuid (err e) t = refl
answer-lift uuid (ok none) t = refl
answer-lift uuid (ok (some ref)) t = refl

bios_answer-known :
    (uuid : String) (x : Outcome (Option MoRef)) (e : Error)
    → is_empty uuid ≡ false
    → (x ≡ err e → is_not_found e ≡ false)
    → bios_answer uuid x ≡ err e
    → is_known_missing e ≡ true
unfolding is_not_found was_not_found_by_bios_uuid
bios_answer-known uuid (err x) e h foreign r = rw (foreign (cc))
bios_answer-known uuid (ok none) e h foreign r = ground arith
bios_answer-known uuid (ok (some ref)) e h foreign r = cc

module _ (w : World) (v : Services) where
  handle_missing-known :
      (e : Error) (old : Context)
      → is_known_missing e ≡ true
      → Keeps (Since updates_vm old) (handle_missing w v e)
  unfolding handle_missing
  handle_missing-known e old h = elim (Bool-cases (is_not_found e)) [
    | inl missing ↦
        let known : was_not_found_by_bios_uuid e ≡ true = ground arith in
        rw (missing, known)
          (search (calls_rules, report-Since updates_vm (λ c k. k) w v old) depth 8)
    | inr other ↦ rw other (search calls_rules)
  ]

  spec-in_flight :
      (s : Context)
      → (reconcile_in_flight_task w s).1.vsphere_vm.spec.bios_uuid ≡ s.vsphere_vm.spec.bios_uuid
  unfolding reconcile_in_flight_task ◌>>=◌ try set_task_ref set_retry_after set_condition ask
  spec-in_flight s = ground arith

  find_vm-by_bios_uuid :
      (s : Context)
      → is_empty s.vsphere_vm.spec.bios_uuid ≡ false
      → find_vm w s
        ≡ (do
          found ←
              try
                (Call.find_by_bios_uuid s.vsphere_vm.spec.bios_uuid)
                (λ tr. w.find_by_bios_uuid tr s.vsphere_vm.spec.bios_uuid)
          found_by_bios_uuid s.vsphere_vm.spec.bios_uuid found)
            s
  unfolding find_vm ◌>>=◌
  find_vm-by_bios_uuid s h = rw h

  find_vm-answer :
      (s : Context)
      → is_empty s.vsphere_vm.spec.bios_uuid ≡ false
      → (find_vm w s).0
        ≡ bios_answer s.vsphere_vm.spec.bios_uuid
            (w.find_by_bios_uuid s.trace s.vsphere_vm.spec.bios_uuid)
  unfolding ◌>>=◌ try
  find_vm-answer s h =
      ap (λ (x : Outcome MoRef × Context). x.0) (find_vm-by_bios_uuid s h)
      ∙ answer-lift s.vsphere_vm.spec.bios_uuid
          (w.find_by_bios_uuid s.trace s.vsphere_vm.spec.bios_uuid)
          (record s { trace = Call.find_by_bios_uuid s.vsphere_vm.spec.bios_uuid ∷ s.trace })

  find_vm-known :
      (s : Context) (e : Error)
      → IsForeign w
      → is_empty s.vsphere_vm.spec.bios_uuid ≡ false
      → (find_vm w s).0 ≡ err e
      → is_known_missing e ≡ true
  find_vm-known s e foreign h r =
      bios_answer-known s.vsphere_vm.spec.bios_uuid _ e h
        (foreign s.trace s.vsphere_vm.spec.bios_uuid e) (sym (find_vm-answer s h) ∙ r)

  by_ref-known :
      (r : Outcome MoRef) (old : Context)
      → ((e : Error) → r ≡ err e → is_known_missing e ≡ true)
      → Keeps (Since updates_vm old) (by_ref w v r)
  by_ref-known (ok ref) old h = update_vm-Since updates_vm (λ c k. k) w v old ref
  by_ref-known (err e) old h = handle_missing-known e old (h e refl)

  module _ (foreign : IsForeign w) (old : Context) where
    found-known :
        (t : Context)
        → is_empty t.vsphere_vm.spec.bios_uuid ≡ false
        → Since updates_vm old t
        → Since updates_vm old (deferred (on_return w v) (attempt (find_vm w) (by_ref w v)) t).1
    unfolding deferred attempt
    found-known t h k = (on_task_completion-Since updates_vm reading-updates_vm w old).at _ (
        (by_ref-known (find_vm w t).0 old (λ e r. find_vm-known t e foreign h r)).at (find_vm w t).1
          ((find_vm-Since updates_vm reading-updates_vm w old).at t k))

    tracked-known :
        (r : Outcome Bool) (t : Context)
        → is_empty t.vsphere_vm.spec.bios_uuid ≡ false
        → Since updates_vm old t
        → Since updates_vm old
            ((lift r >>= λ b.
                if b then pure tt else deferred (on_return w v) (attempt (find_vm w) (by_ref w v)))
              t).1
    unfolding ◌>>=◌
    tracked-known (err e) t h k = k
    tracked-known (ok true) t h k = k
    tracked-known (ok false) t h k = found-known t h k

  -- If the search by BIOS UUID answers with no not-found error of this package, then ReconcileVM of
  -- a VSphereVM with a BIOS UUID makes no call that clones, destroys, powers off or shuts down a
  -- VM, leaves a cluster module, or removes a claim's finalizer or a node, however the search for
  -- the VM ends.
  pub reconcile_vm-known :
      (s : Context)
      → IsForeign w
      → is_empty s.vsphere_vm.spec.bios_uuid ≡ false
      → Extends updates_vm s.trace (reconcile_vm w v s).1.trace
  unfolding reconcile_vm ◌>>=◌ start
  reconcile_vm-known s foreign h =
      (tracked-known foreign s (reconcile_in_flight_task w (start s)).0
        (reconcile_in_flight_task w (start s)).1 (rw spec-in_flight h)
        ((reconcile_in_flight_task-Since updates_vm reading-updates_vm w s).at (start s)
          (record { added = same; kept = refl }))).added
