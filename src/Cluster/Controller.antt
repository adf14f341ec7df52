-- ===== src/Cluster/Controller.antt =====
-- The reconcile of a VSphereCluster (controllers/vspherecluster_reconciler.go).
use cluster_api_provider_vsp.Prelude.{
  ℕ, ◌*◌, String, Bool, true, false, not, ◌&&◌, ◌||◌, Option, none, some, List, [], ◌∷◌, is_nil,
  is_empty, leb, deref, if◌then◌else◌,
}
use cluster_api_provider_vsp.Errors.{
  Error, Outcome, ok, err, errorf, nil_pointer, wrapped, aggregate, aggregate_next,
  is_api_not_found,
}
use cluster_api_provider_vsp.Exec.{pure, fail, lift, wrap, gets, attempt, ◌>>=◌, ◌>>◌}
use cluster_api_provider_vsp.Api.Conditions.{domains_not_ready, error_text, failure_domains_ready}
use cluster_api_provider_vsp.Cluster.Writes.{
  condition_false, deletion_writes, unreachable_writes, reachable_writes, version_writes,
  no_version_writes, modules_failed_writes,
}
use cluster_api_provider_vsp.Cluster.Reconcile.{
  ClusterInput, ModulesResult, reconcile_cluster_modules,
}
use cluster_api_provider_vsp.Cluster.Object.{
  IdentityReference, ClusterObject, SecretObject, OwnerCluster, ClusterWorld, ClusterCalls,
  ClusterAction, get_object, get_owner, ensure_finalizer, new_patch_helper, ensure_paused,
  list_machines, get_secret, update_secret, delete_secret, get_credentials, read_version, connect,
  set_summary, patch_object, ask, tell, alter, report,
}
use cluster_api_provider_vsp.Cluster.Zones.{reconcile_deployment_zones}
use cluster_api_provider_vsp.Cluster.Identity.{secret_name, reconcile_identity_secret}

abbrev pub in_ten_seconds : Option ℕ
in_ten_seconds = some (10 * 1000000000)

-- the input of the cluster modules' reconcile, and what it leaves in the state
abbrev pub modules_input : ClusterObject → ClusterInput
modules_input c = record {
  vcenter_version = c.vcenter_version;
  cluster_name = c.cluster_name;
  cluster_modules = c.cluster_modules;
}

abbrev pub take_modules : ModulesResult → ClusterAction Unit
take_modules r = do
  alter (λ c. record c { cluster_modules = r.cluster_modules })
  report r.writes
  lift r.outcome

module _ (w : ClusterWorld) where
  unfoldable pub reconcile_modules_of : ClusterAction Unit
  unfolding alter report ◌>>=◌
  reconcile_modules_of = do
    s ← gets (λ s. s)
    if w.node_anti_affinity && not (deref s.cluster.disable_cluster_module false)
        then take_modules (reconcile_cluster_modules (w.modules s.calls) (modules_input s.cluster))
        else pure tt

  abbrev pub machines_of : Option OwnerCluster → ClusterAction (List String)
  machines_of none = pure []
  machines_of (some c) =
      wrap (wrapped "unable to list VSphereMachines part of VSphereCluster %s/%s")
        (ask (list_machines c) (λ calls. w.list_machines calls c))

  abbrev pub remove_finalizer : ClusterAction (Option ℕ)
  remove_finalizer = do alter (λ c. record c { has_finalizer = false }); pure none

  -- the Secret loses its finalizer, and is deleted
  abbrev pub release_secret : SecretObject → ClusterAction (Option ℕ)
  release_secret secret = do
    if secret.has_finalizer
        then wrap (wrapped "failed to update Secret %s") (
            tell (update_secret (record secret { has_finalizer = false }))
              (λ calls. w.update_secret calls (record secret { has_finalizer = false })))
        else pure tt
    if secret.is_deleted
        then pure tt
        else wrap (wrapped "failed to delete Secret %s") (
            tell (delete_secret (record secret { has_finalizer = false }))
              (λ calls. w.delete_secret calls (record secret { has_finalizer = false })))
    remove_finalizer

  abbrev pub by_secret : Outcome SecretObject → ClusterAction (Option ℕ)
  by_secret (err e) = if is_api_not_found e then remove_finalizer else fail e
  by_secret (ok secret) = release_secret secret

  abbrev pub release_identity : Option String → ClusterAction (Option ℕ)
  release_identity none = remove_finalizer
  release_identity (some name) =
      attempt (ask (get_secret name) (λ calls. w.get_secret calls name)) by_secret

  abbrev pub release_rest : ClusterAction (Option ℕ)
  release_rest = do c ← gets (λ s. s.cluster); release_identity (secret_name c.identity_ref)

  abbrev pub delete_without : List String → ClusterAction (Option ℕ)
  delete_without machines =
      if is_nil machines then (do reconcile_modules_of; release_rest) else pure in_ten_seconds

  unfoldable pub delete_cluster : Option OwnerCluster → ClusterAction (Option ℕ)
  unfolding reconcile_modules_of ask tell alter report attempt ◌>>=◌
  delete_cluster owner = do
    report deletion_writes
    machines ← machines_of owner
    delete_without machines

  abbrev pub credentials_of : Option IdentityReference → ClusterAction (String × String)
  credentials_of none = pure w.own_credentials
  credentials_of (some r) = do
    c ← gets (λ s. s.cluster)
    wrap (wrapped "failed to get credentials from IdentityRef")
        (ask get_credentials (λ calls. w.get_credentials calls c))

  unfoldable pub reconcile_vcenter_connectivity : ClusterAction Unit
  unfolding ask tell ◌>>=◌
  reconcile_vcenter_connectivity = do
    c ← gets (λ s. s.cluster)
    user ← credentials_of c.identity_ref
    tell (connect c.server) (λ calls. w.connect calls c user)

  -- a version that is parsed, and not below 6
  abbrev pub version_of : String → Option ℕ → Outcome String
  version_of text none = err (wrapped "failed to parse version %q" (errorf "semver"))
  version_of text (some major) =
      if leb 6 major then ok text else err (errorf "version %q lower than 6")

  -- `Session.GetVersion`
  unfoldable pub get_version : ClusterCalls → Outcome String
  get_version calls = version_of (w.about_version calls) (w.major_version (w.about_version calls))

  unfoldable pub reconcile_vcenter_version : ClusterAction Unit
  unfolding ask alter ◌>>=◌
  reconcile_vcenter_version = do
    version ← wrap (wrapped "invalid vCenter version") (ask read_version get_version)
    alter (λ c. record c { vcenter_version = version })

  abbrev pub by_zones : Outcome Bool → ClusterAction Bool
  by_zones (ok go_on) = pure go_on
  by_zones (err e) = do
    report (condition_false failure_domains_ready domains_not_ready (error_text e) ∷ [])
    fail e

  abbrev pub by_identity_secret : Outcome (Unit {0}) → ClusterAction Unit
  by_identity_secret (ok done) = pure tt
  by_identity_secret (err e) = do report (unreachable_writes e); fail e

  abbrev pub by_connection : Outcome (Unit {0}) → ClusterAction Unit
  by_connection (ok done) = report reachable_writes
  by_connection (err e) = do
    report (unreachable_writes e)
    fail (wrapped "unexpected error while probing vcenter for %s" e)

  -- the text of the error is asked for where the version is empty without an error, too
  abbrev pub by_version : Outcome (Unit {0}) → ClusterAction Unit
  by_version (err e) = report (version_writes e)
  by_version (ok done) = do
    c ← gets (λ s. s.cluster)
    if is_empty c.vcenter_version then (do report no_version_writes; fail nil_pointer) else pure tt

  abbrev pub by_modules : Outcome (Unit {0}) → ClusterAction (Option ℕ)
  by_modules (err e) = do report (modules_failed_writes e); fail e
  by_modules (ok done) = do alter (λ c. record c { provisioned = some true }); pure none

  -- once the zones are known
  unfoldable pub provision_cluster : ClusterAction (Option ℕ)
  unfolding reconcile_identity_secret reconcile_vcenter_connectivity reconcile_vcenter_version
      reconcile_modules_of alter report attempt ◌>>=◌
  provision_cluster = do
    attempt (reconcile_identity_secret w) by_identity_secret
    attempt reconcile_vcenter_connectivity by_connection
    attempt reconcile_vcenter_version by_version
    attempt reconcile_modules_of by_modules

  unfoldable pub reconcile_cluster_normal : ClusterAction (Option ℕ)
  unfolding reconcile_deployment_zones provision_cluster
  reconcile_cluster_normal = do
    go_on ← attempt (reconcile_deployment_zones w) by_zones
    if go_on then provision_cluster else pure in_ten_seconds

  abbrev pub by_owning : Option OwnerCluster → ClusterAction (Option ℕ)
  by_owning none = pure none
  by_owning (some o) = reconcile_cluster_normal

  unfoldable pub serve_cluster : Option OwnerCluster → ClusterAction (Option ℕ)
  unfolding delete_cluster reconcile_cluster_normal
  serve_cluster owner = do
    c ← gets (λ s. s.cluster)
    if c.is_deleted then delete_cluster owner else by_owning owner

  -- the summary of the conditions, and the patch
  unfoldable pub patch_cluster : ClusterAction Unit
  unfolding tell ◌>>=◌
  patch_cluster = do
    wrap (wrapped "failed to set %s condition") (tell set_summary w.set_summary)
    tell patch_object w.patch_object

  abbrev pub with_error : Outcome (Option ℕ) → Error → Error
  with_error (ok requeue) e = aggregate e
  with_error (err first) e = aggregate_next first (aggregate e)

  abbrev pub after_patch : Outcome (Option ℕ) → Outcome (Unit {0}) → ClusterAction (Option ℕ)
  after_patch r (ok done) = lift r
  after_patch r (err e) = fail (with_error r e)

  -- the deferred function
  abbrev pub close_cluster : Outcome (Option ℕ) → ClusterAction (Option ℕ)
  close_cluster r = attempt patch_cluster (after_patch r)

  abbrev pub where_unpaused : Option OwnerCluster → Bool × Bool → ClusterAction (Option ℕ)
  where_unpaused owner (is_paused, requeue) =
      if is_paused || requeue then pure none else attempt (serve_cluster owner) close_cluster

  abbrev pub by_object : Outcome ClusterObject → ClusterAction (Option ℕ)
  by_object (err e) = if is_api_not_found e then pure none else fail e
  by_object (ok read) = do
    alter (λ before. read)
    owner ← ask get_owner w.get_owner
    added ← ask ensure_finalizer w.ensure_finalizer
    if added then (do alter (λ c. record c { has_finalizer = true }); pure none) else (do
      tell new_patch_helper w.new_patch_helper
      answer ← ask ensure_paused w.ensure_paused
      where_unpaused owner answer)

  unfoldable pub reconcile_cluster : ClusterAction (Option ℕ)
  unfolding serve_cluster patch_cluster ask tell alter attempt ◌>>=◌
  reconcile_cluster = attempt (ask get_object w.get_object) by_object
