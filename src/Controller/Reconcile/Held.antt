-- ===== src/Controller/Reconcile/Held.antt =====
-- The parts of a reconcile (controllers/vspherevm_controller.go) that leave the finalizer, the
-- deletion and `Status.Ready` alone.
use cluster_api_provider_vsp.Prelude.{ℕ, String, Bool, true, ◌≡◌, refl, Option, List, [], ◌∷◌}
use cluster_api_provider_vsp.Errors.{Error, Outcome, ok, err}
use cluster_api_provider_vsp.Exec.Keeps.{Keeps, Keeps-bind, Keeps-attempt}
use cluster_api_provider_vsp.Api.{IpPoolReference}
use cluster_api_provider_vsp.World.{World, IpAddressClaim, Call}
use cluster_api_provider_vsp.Vm.Context.{Context}
use cluster_api_provider_vsp.Vm.Calls.{held, same, Since, calls_rules}
use cluster_api_provider_vsp.Controller.Claims.{
  released_claim, release_claim, release_claims, delete_ip_address_claims, Tally, create_claims,
  checked_claim, reconcile_ip_address_claims, not_all_claimed, aggregate_claims, count_conditions,
  report_errors,
}
use cluster_api_provider_vsp.Controller.Reconcile.{
  by_connection, delete_node, ReconcileInput, fetch_cluster_module_info, with_module_info,
}

abbrev pub any : Call → Bool
any c = true

module _ (w : World) (old : Context) where
  checked_claim-Since : (r : Outcome IpAddressClaim) → Keeps (Since any old) (checked_claim w r)
  checked_claim-Since (ok c) = search calls_rules
  checked_claim-Since (err e) = search calls_rules

  create_claims-Since :
      (cs : List (String × IpPoolReference)) (t : Tally)
      → Keeps (Since any old) (create_claims w cs t)
  unfolding create_claims
  create_claims-Since [] t = search calls_rules
  create_claims-Since ((name, pool) ∷ cs) t =
      search (calls_rules, checked_claim-Since, create_claims-Since cs) depth 8

  aggregate-Since : (n : ℕ) → Keeps (Since any old) (aggregate_claims w n)
  unfolding aggregate_claims
  aggregate-Since n = search calls_rules depth 8

  count-Since : (t : Tally) → Keeps (Since any old) (count_conditions w t)
  unfolding count_conditions not_all_claimed
  count-Since t = search calls_rules depth 10

  report-Since : (t : Tally) (es : List Error) → Keeps (Since any old) (report_errors w t es)
  unfolding not_all_claimed
  report-Since t [] = search (calls_rules, aggregate-Since, count-Since)
  report-Since t (e ∷ es) = search calls_rules depth 8

  claims-Since : Keeps (Since any old) (reconcile_ip_address_claims w)
  unfolding reconcile_ip_address_claims
  claims-Since = search (calls_rules, create_claims-Since, report-Since) depth 8

  by_connection-Since :
      (name : String) (r : Outcome (Unit {0})) → Keeps (Since any old) (by_connection w name r)
  by_connection-Since name (ok u) = search calls_rules
  by_connection-Since name (err e) = search calls_rules

  delete_node-Since : (name : String) → Keeps (Since any old) (delete_node w name)
  unfolding delete_node
  delete_node-Since name = search (calls_rules, by_connection-Since) depth 8

  released_claim-Since :
      (name : String) (c : IpAddressClaim) → Keeps (Since any old) (released_claim w name c)
  released_claim-Since name c = search calls_rules

  release_claim-Since :
      (name : String) (r : Outcome IpAddressClaim) → Keeps (Since any old) (release_claim w name r)
  release_claim-Since name (ok c) = released_claim-Since name c
  release_claim-Since name (err e) = search calls_rules

  release_claims-Since :
      (cs : List (String × IpPoolReference)) → Keeps (Since any old) (release_claims w cs)
  unfolding release_claims
  release_claims-Since [] = search calls_rules
  release_claims-Since ((name, pool) ∷ cs) =
      Keeps-bind _ _ (Keeps-attempt _ _ (search calls_rules) (release_claim-Since name))
        λ u. release_claims-Since cs

  delete_claims-Since : Keeps (Since any old) (delete_ip_address_claims w)
  unfolding delete_ip_address_claims
  delete_claims-Since = search (calls_rules, release_claims-Since)

  pub info-Since :
      (input : ReconcileInput) → Keeps (Since any old) (fetch_cluster_module_info w input)
  unfolding fetch_cluster_module_info
  info-Since input = search calls_rules

module _ (w : World) (s : Context) where
  pub reconcile_ip_address_claims-held : held (reconcile_ip_address_claims w s).1 ≡ held s
  reconcile_ip_address_claims-held =
      ((claims-Since w s).at s (record { added = same; kept = refl })).kept

  pub delete_node-held : (name : String) → held (delete_node w name s).1 ≡ held s
  delete_node-held name =
      ((delete_node-Since w s name).at s (record { added = same; kept = refl })).kept

  pub delete_claims-held : held (delete_ip_address_claims w s).1 ≡ held s
  delete_claims-held = ((delete_claims-Since w s).at s (record { added = same; kept = refl })).kept

module _ (old : Context) where
  pub with_info-Since : (r : Outcome (Option String)) → Keeps (Since any old) (with_module_info r)
  with_info-Since (ok found) = search calls_rules
  with_info-Since (err e) = search calls_rules
