-- ===== src/Vm/Calls/Reconcile.antt =====
-- The set of calls that the whole of `ReconcileVM` (pkg/services/govmomi/service.go) is read in.
use cluster_api_provider_vsp.Prelude.{String, Bool, true, false, ◌≡◌, refl, Option, none, some}
use cluster_api_provider_vsp.Errors.{Error, Outcome, ok, err}
use cluster_api_provider_vsp.Exec.{attempt, deferred}
use cluster_api_provider_vsp.Exec.Keeps.{Keeps, Preserves, Keeps-bind, Keeps-if, Keeps-deferred}
use cluster_api_provider_vsp.World.{World, MoRef, SecretData, Call}
use cluster_api_provider_vsp.Vm.Context.{Context}
use cluster_api_provider_vsp.Vm.Find.{find_vm}
use cluster_api_provider_vsp.Vm.Services.{Services}
use cluster_api_provider_vsp.Vm.Service.{
  start, get_bootstrap_data, bootstrap_value, create_vm, or_cloning_failed, create_from,
  create_missing, handle_missing, by_ref, on_return, reconcile_vm,
}
use cluster_api_provider_vsp.Vm.Calls.{held, Extends, same, Since, calls_rules}
use cluster_api_provider_vsp.Vm.Calls.Reading.{
  is_reading, reconcile_in_flight_task-Since, on_task_completion-Since, find_vm-Since,
}
use cluster_api_provider_vsp.Vm.Calls.Steps.{updates_vm, report-Since, update_vm-Since}

abbrev pub spares_vm : Call → Bool
spares_vm (Call.destroy _) = false
spares_vm (Call.power_off _) = false
spares_vm (Call.shutdown_guest _) = false
spares_vm (Call.remove_from_module _ _) = false
spares_vm (Call.remove_claim_finalizer _) = false
spares_vm (Call.delete_node _) = false
spares_vm _ = true

reading-spares_vm : (c : Call) → is_reading c ≡ true → spares_vm c ≡ true
reading-spares_vm (Call.clone _ _) h = refl
reading-spares_vm (Call.destroy _) h = h
reading-spares_vm (Call.power_off _) h = h
reading-spares_vm (Call.shutdown_guest _) h = h
reading-spares_vm (Call.remove_from_module _ _) h = h
reading-spares_vm (Call.remove_claim_finalizer _) h = h
reading-spares_vm (Call.delete_node _) h = h
reading-spares_vm _ h = refl

updating-spares_vm : (c : Call) → updates_vm c ≡ true → spares_vm c ≡ true
updating-spares_vm (Call.clone _ _) h = refl
updating-spares_vm (Call.destroy _) h = h
updating-spares_vm (Call.power_off _) h = h
updating-spares_vm (Call.shutdown_guest _) h = h
updating-spares_vm (Call.remove_from_module _ _) h = h
updating-spares_vm (Call.remove_claim_finalizer _) h = h
updating-spares_vm (Call.delete_node _) h = h
updating-spares_vm _ h = refl

module _ (w : World) (v : Services) (old : Context) where
  abbrev Spares : Context → Type 0
  Spares = Since spares_vm old

  bootstrap_value-Since : (d : SecretData) → Keeps Spares (bootstrap_value d)
  bootstrap_value-Since d = by_value d.value
    where
      by_value :
          (x : Option String)
          → Keeps Spares (bootstrap_value (record { format = d.format; value = x }))
      by_value none = search calls_rules
      by_value (some y) = search calls_rules

  bootstrap-Since : Keeps Spares (get_bootstrap_data w v)
  unfolding get_bootstrap_data
  bootstrap-Since = search (calls_rules, bootstrap_value-Since) depth 9

  create_vm-Since : (b : Option String) (f : String) → Keeps Spares (create_vm w v b f)
  unfolding create_vm
  create_vm-Since b f = search calls_rules depth 10

  or_cloning_failed-Since : (r : Outcome (Unit {0})) → Keeps Spares (or_cloning_failed w v r)
  or_cloning_failed-Since (ok u) = search calls_rules
  or_cloning_failed-Since (err e) =
      search (calls_rules, report-Since spares_vm updating-spares_vm w v old)

  create_from-Since : (r : Outcome (Option String × String)) → Keeps Spares (create_from w v r)
  create_from-Since (ok (b, f)) = search (calls_rules, create_vm-Since, or_cloning_failed-Since)
  create_from-Since (err e) =
      search (calls_rules, report-Since spares_vm updating-spares_vm w v old)

  create_missing-Since : Keeps Spares (create_missing w v)
  unfolding create_missing
  create_missing-Since =
      search
        (
          calls_rules,
          report-Since spares_vm updating-spares_vm w v old,
          bootstrap-Since,
          create_from-Since,
        )
        depth 8

  handle_missing-Since : (e : Error) → Keeps Spares (handle_missing w v e)
  unfolding handle_missing
  handle_missing-Since e =
      search (calls_rules, report-Since spares_vm updating-spares_vm w v old, create_missing-Since)
        depth 9

  by_ref-Since : (r : Outcome MoRef) → Keeps Spares (by_ref w v r)
  by_ref-Since (ok ref) = update_vm-Since spares_vm updating-spares_vm w v old ref
  by_ref-Since (err e) = handle_missing-Since e

  on_return-Since : Preserves Spares (on_return w v)
  on_return-Since = record {
    at = λ s k. (on_task_completion-Since spares_vm reading-spares_vm w old).at s k;
  }

  found-Since : Keeps Spares (deferred (on_return w v) (attempt (find_vm w) (by_ref w v)))
  found-Since =
      Keeps-deferred _ _ on_return-Since
        (search (calls_rules, find_vm-Since spares_vm reading-spares_vm w old, by_ref-Since))

  reconcile_vm-Since : Keeps Spares (reconcile_vm w v)
  unfolding reconcile_vm start
  reconcile_vm-Since = Keeps-bind _ _ (search calls_rules) λ u.
      Keeps-bind _ _ (reconcile_in_flight_task-Since spares_vm reading-spares_vm w old)
        λ b. Keeps-if b _ _ (search calls_rules) found-Since

-- ReconcileVM leaves the finalizer of the VSphereVM, whether it is being deleted, and its
-- Status.Ready as they are.
pub reconcile_vm-held :
    (w : World) (v : Services) (s : Context) → held (reconcile_vm w v s).1 ≡ held s
reconcile_vm-held w v s =
    ((reconcile_vm-Since w v s).at s (record { added = same; kept = refl })).kept

-- ReconcileVM makes no call that destroys, powers off or shuts down a VM, leaves a cluster module,
-- or removes a claim's finalizer or a node, whatever the world and the services answer.
pub reconcile_vm-spares :
    (w : World) (v : Services) (s : Context)
    → Extends spares_vm s.trace (reconcile_vm w v s).1.trace
reconcile_vm-spares w v s =
    ((reconcile_vm-Since w v s).at s (record { added = same; kept = refl })).added
