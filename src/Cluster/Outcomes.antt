-- ===== src/Cluster/Outcomes.antt =====
-- When a VSphereCluster loses its finalizer, and when it becomes provisioned
-- (controllers/vspherecluster_reconciler.go: reconcileDelete, reconcileNormal).
use cluster_api_provider_vsp.Prelude.{
  String, Bool, true, false, ◌&&◌, ◌≡◌, ◌↔◌, Option, none, some, List, [], ◌∷◌, ◌++◌, not, deref,
  arith, is_nil, if◌then◌else◌,
}
use cluster_api_provider_vsp.Errors.{Error, Outcome, ok, err, wrapped, is_api_not_found}
use cluster_api_provider_vsp.Exec.{lift, wrap, ◌>>=◌, ◌>>◌}
use cluster_api_provider_vsp.Cluster.Reconcile.{ModulesResult, reconcile_cluster_modules}
use cluster_api_provider_vsp.Cluster.Object.{
  SecretObject, ClusterObject, OwnerCluster, ClusterCalls, ClusterWorld, ClusterState,
  list_machines, get_secret, update_secret, ask, tell, alter, report,
}
use cluster_api_provider_vsp.Cluster.Identity.{secret_name}
use cluster_api_provider_vsp.Cluster.Writes.{deletion_writes}
use cluster_api_provider_vsp.Cluster.Controller.{
  reconcile_modules_of, release_secret, by_secret, release_identity, release_rest, delete_without,
  take_modules, modules_input, delete_cluster,
}

abbrev pub succeeds : Option Error → Bool
succeeds none = true
succeeds (some e) = false

abbrev pub is_ok : Outcome (Unit {0}) → Bool
is_ok (ok done) = true
is_ok (err e) = false

module _ (w : ClusterWorld) where
  -- the Secret, once read, is gone, or gives up its finalizer and is being deleted
  abbrev pub deletes_secret : ClusterCalls → SecretObject → Bool
  deletes_secret calls secret =
      if secret.is_deleted
      then true
      else succeeds (w.delete_secret calls (record secret { has_finalizer = false }))

  abbrev pub releases_secret : ClusterCalls → Outcome SecretObject → Bool
  releases_secret calls (err e) = is_api_not_found e
  releases_secret calls (ok secret) =
      if secret.has_finalizer
      then succeeds (w.update_secret calls (record secret { has_finalizer = false }))
        && deletes_secret (update_secret (record secret { has_finalizer = false }) ∷ calls) secret
      else deletes_secret calls secret

  abbrev pub releases_identity : ClusterCalls → Option String → Bool
  releases_identity calls none = true
  releases_identity calls (some name) =
      releases_secret (get_secret name ∷ calls) (w.get_secret calls name)

  release_secret-finalizer :
      (secret : SecretObject) (s : ClusterState)
      → s.cluster.has_finalizer ≡ true
      → ((release_secret w secret s).1.cluster.has_finalizer ≡ false)
        ↔ (releases_secret s.calls (ok secret) ≡ true)
  unfolding tell alter ◌>>=◌
  release_secret-finalizer secret s h = ground (arith, h)

  by_secret-finalizer :
      (r : Outcome SecretObject) (s : ClusterState)
      → s.cluster.has_finalizer ≡ true
      → ((by_secret w r s).1.cluster.has_finalizer ≡ false) ↔ (releases_secret s.calls r ≡ true)
  unfolding alter ◌>>=◌
  by_secret-finalizer (err e) s h = ground (arith, h)
  by_secret-finalizer (ok secret) s h = release_secret-finalizer secret s h

  release_identity-finalizer :
      (identity : Option String) (s : ClusterState)
      → s.cluster.has_finalizer ≡ true
      → ((release_identity w identity s).1.cluster.has_finalizer ≡ false)
        ↔ (releases_identity s.calls identity ≡ true)
  unfolding ask alter ◌>>=◌
  release_identity-finalizer none s h = ground (arith, h)
  release_identity-finalizer (some name) s h =
      by_secret-finalizer (w.get_secret s.calls name)
        (record s { calls = get_secret name ∷ s.calls }) h

  release_rest-finalizer :
      (s : ClusterState)
      → s.cluster.has_finalizer ≡ true
      → ((release_rest w s).1.cluster.has_finalizer ≡ false)
        ↔ (releases_identity s.calls (secret_name s.cluster.identity_ref) ≡ true)
  unfolding ◌>>=◌
  release_rest-finalizer s h = release_identity-finalizer (secret_name s.cluster.identity_ref) s h

  -- the cluster modules are off, or their reconcile returns no error
  abbrev pub settles_modules : ClusterCalls → ClusterObject → Bool
  settles_modules calls c =
      if w.node_anti_affinity && not (deref c.disable_cluster_module false)
      then is_ok (reconcile_cluster_modules (w.modules calls) (modules_input c)).outcome
      else true

  take_modules-finalizer :
      (r : ModulesResult) (s : ClusterState)
      → s.cluster.has_finalizer ≡ true
      → (((take_modules r >> release_rest w) s).1.cluster.has_finalizer ≡ false) ↔ (
          (is_ok r.outcome && releases_identity s.calls (secret_name s.cluster.identity_ref))
          ≡ true)
  unfolding alter report ◌>>=◌
  take_modules-finalizer r s h = ground (
    arith,
    h,
    release_identity-finalizer (secret_name s.cluster.identity_ref)
        (record s {
          cluster = record s.cluster { cluster_modules = r.cluster_modules };
          writes = s.writes ++ r.writes;
        })
        h,
  )

  reconcile_modules_of-finalizer :
      (s : ClusterState)
      → s.cluster.has_finalizer ≡ true
      → (((reconcile_modules_of w >> release_rest w) s).1.cluster.has_finalizer ≡ false) ↔ (
          (settles_modules s.calls s.cluster
            && releases_identity s.calls (secret_name s.cluster.identity_ref))
          ≡ true)
  unfolding reconcile_modules_of ◌>>=◌
  reconcile_modules_of-finalizer s h = ground (
    arith,
    release_rest-finalizer s h,
    take_modules-finalizer (reconcile_cluster_modules (w.modules s.calls) (modules_input s.cluster))
        s h,
  )

  abbrev pub lists_none : Outcome (List String) → Bool
  lists_none (ok machines) = is_nil machines
  lists_none (err e) = false

  -- there is no cluster that owns it, or no VSphereMachine of that cluster
  abbrev pub has_no_machines : ClusterCalls → Option OwnerCluster → Bool
  has_no_machines calls none = true
  has_no_machines calls (some owner) = lists_none (w.list_machines calls owner)

  abbrev pub calls_then : ClusterCalls → Option OwnerCluster → ClusterCalls
  calls_then calls none = calls
  calls_then calls (some owner) = list_machines owner ∷ calls

  delete_without-finalizer :
      (s : ClusterState) (machines : List String)
      → s.cluster.has_finalizer ≡ true
      → ((delete_without w machines s).1.cluster.has_finalizer ≡ false) ↔ (
          (is_nil machines
            && settles_modules s.calls s.cluster
            && releases_identity s.calls (secret_name s.cluster.identity_ref))
          ≡ true)
  unfolding ◌>>=◌
  delete_without-finalizer s [] h = reconcile_modules_of-finalizer s h
  delete_without-finalizer s (m ∷ ms) h = ground (arith, h)

  listed-finalizer :
      (r : Outcome (List String)) (f : Error → Error) (s : ClusterState)
      → s.cluster.has_finalizer ≡ true
      → (((wrap f (lift r) >>= delete_without w) s).1.cluster.has_finalizer ≡ false) ↔ (
          (lists_none r
            && settles_modules s.calls s.cluster
            && releases_identity s.calls (secret_name s.cluster.identity_ref))
          ≡ true)
  unfolding ◌>>=◌
  listed-finalizer (err e) f s h = ground (arith, h)
  listed-finalizer (ok machines) f s h = delete_without-finalizer s machines h

  -- For a VSphereCluster that has its finalizer, reconcileDelete takes the finalizer away exactly
  -- where no VSphereMachine of an owning cluster is listed, the cluster modules are off or their
  -- reconcile returns no error, and the identity is not a Secret, or its Secret is not found, or
  -- gives up its own finalizer and is being deleted.
  pub delete_cluster-finalizer :
      (owner : Option OwnerCluster) (s : ClusterState)
      → s.cluster.has_finalizer ≡ true
      → ((delete_cluster w owner s).1.cluster.has_finalizer ≡ false) ↔ (
          (has_no_machines s.calls owner
            && settles_modules (calls_then s.calls owner) s.cluster
            && releases_identity (calls_then s.calls owner) (secret_name s.cluster.identity_ref))
          ≡ true)
  unfolding delete_cluster ask report ◌>>=◌
  delete_cluster-finalizer none s h =
      delete_without-finalizer (record s { writes = s.writes ++ deletion_writes }) [] h
  delete_cluster-finalizer (some owner) s h =
      listed-finalizer (w.list_machines s.calls owner)
        (wrapped "unable to list VSphereMachines part of VSphereCluster %s/%s")
        (record s { calls = list_machines owner ∷ s.calls; writes = s.writes ++ deletion_writes }) h
