-- ===== src/Cluster/Provisioned.antt =====
-- When a VSphereCluster becomes provisioned (controllers/vspherecluster_reconciler.go:
-- reconcileNormal, pkg/session/session.go: GetVersion).
use mathlib.Core.Path.{subst}
use cluster_api_provider_vsp.Prelude.{
  ℕ, String, Bool, true, false, ◌&&◌, ◌≡◌, refl, ap, sym, ◌∙◌, ◌↔◌, Option, none, some, ◌∷◌, ◌++◌,
  arith, is_empty,
}
use cluster_api_provider_vsp.Errors.{Error, Outcome, ok, err, wrapped}
use cluster_api_provider_vsp.Exec.{attempt, lift, wrap, ◌>>=◌, ◌>>◌}
use cluster_api_provider_vsp.Cluster.Reconcile.{ModulesResult, reconcile_cluster_modules}
use cluster_api_provider_vsp.Cluster.Object.{
  ClusterObject, ClusterWorld, ClusterState, ClusterAction, read_version, ask, tell, alter, report,
}
use cluster_api_provider_vsp.Cluster.Identity.{
  secret_name, is_owned_by_identity_or_cluster, by_identity, reconcile_identity_secret,
}
use cluster_api_provider_vsp.Cluster.Writes.{reachable_writes}
use cluster_api_provider_vsp.Cluster.Controller.{
  modules_input, take_modules, reconcile_modules_of, reconcile_vcenter_connectivity, version_of,
  get_version, reconcile_vcenter_version, by_identity_secret, by_connection, by_version, by_modules,
  provision_cluster,
}
use cluster_api_provider_vsp.Cluster.Outcomes.{is_ok, settles_modules}

abbrev IsProvisioned : ClusterState → Type 0
IsProvisioned s = s.cluster.provisioned ≡ some true

-- an action that ends where an error was seen
module _ {B : Type 0} (g : Outcome (Unit {0}) → ClusterAction Unit) (rest : ClusterAction B) where
  by_answer :
      (r : Outcome (Unit {0})) (b : Bool) (s : ClusterState)
      → ((e : Error) → ((g (err e) >> rest) s).1.cluster.provisioned ≡ none)
      → (IsProvisioned ((g (ok tt) >> rest) s).1 ↔ (b ≡ true))
      → IsProvisioned ((g r >> rest) s).1 ↔ ((is_ok r && b) ≡ true)
  by_answer (ok done) b s h k = k
  by_answer (err e) b s h k = (λ p. absurd (cc (p, h e)), λ q. absurd (cc q))

  after_step :
      (act : ClusterAction Unit) (b : Bool) (s : ClusterState)
      → ((e : Error) → ((g (err e) >> rest) (act s).1).1.cluster.provisioned ≡ none)
      → (IsProvisioned ((g (ok tt) >> rest) (act s).1).1 ↔ (b ≡ true))
      → IsProvisioned ((attempt act g >> rest) s).1 ↔ ((is_ok (act s).0 && b) ≡ true)
  unfolding ◌>>=◌
  after_step act b s h k = by_answer (act s).0 b (act s).1 h k

bind-ok :
    {B : Type 0} (act : ClusterAction Unit) (rest : ClusterAction B) (s : ClusterState)
    → (act s).0 ≡ ok tt
    → (act >> rest) s ≡ rest (act s).1
unfolding ◌>>=◌
bind-ok act rest s h = ap (λ r. (lift r >> rest) (act s).1) h

module _ (w : ClusterWorld) where
  by_identity-cluster :
      (c : ClusterObject) (name : Option String) (s : ClusterState)
      → (by_identity w c name s).1.cluster ≡ s.cluster
  unfolding ask tell is_owned_by_identity_or_cluster ◌>>=◌
  by_identity-cluster c none s = refl
  by_identity-cluster c (some name) s = ground arith

  identity-cluster : (s : ClusterState) → (reconcile_identity_secret w s).1.cluster ≡ s.cluster
  unfolding reconcile_identity_secret
  identity-cluster s = by_identity-cluster s.cluster (secret_name s.cluster.identity_ref) s

  connectivity-cluster :
      (s : ClusterState) → (reconcile_vcenter_connectivity w s).1.cluster ≡ s.cluster
  unfolding reconcile_vcenter_connectivity
  connectivity-cluster s = ground arith

  take_modules-provisioned :
      (r : ModulesResult) (s : ClusterState)
      → s.cluster.provisioned ≡ none
      → IsProvisioned (attempt (take_modules r) (by_modules w) s).1 ↔ (is_ok r.outcome ≡ true)
  unfolding alter report attempt ◌>>=◌
  take_modules-provisioned r s h = ground (arith, h)

  modules-provisioned :
      (s : ClusterState)
      → s.cluster.provisioned ≡ none
      → IsProvisioned (attempt (reconcile_modules_of w) (by_modules w) s).1
        ↔ (settles_modules w s.calls s.cluster ≡ true)
  unfolding reconcile_modules_of alter attempt ◌>>=◌
  modules-provisioned s h = ground (
    arith,
    h,
    take_modules-provisioned
        (reconcile_cluster_modules (w.modules s.calls) (modules_input s.cluster)) s h,
  )

  -- a version that is answered is not empty, where the empty text is no version
  version_of-non_empty :
      (text version : String)
      → w.major_version "" ≡ none
      → version_of w text (w.major_version text) ≡ ok version
      → is_empty version ≡ false
  version_of-non_empty String.[] version n h = absurd (cc (h, n))
  version_of-non_empty (String.◌∷◌ c text) version n h =
      named (w.major_version (String.◌∷◌ c text)) h
    where
      named :
          (major : Option ℕ)
          → version_of w (String.◌∷◌ c text) major ≡ ok version
          → is_empty version ≡ false
      named none e = absurd (cc e)
      named (some major) e = ground (arith, e)

  -- the versions that a state may be left with
  abbrev take_version : String → ClusterAction Unit
  take_version version = alter (λ c. record c { vcenter_version = version })

  version-goes_on :
      (r : Outcome String) (s : ClusterState)
      → ((version : String) → r ≡ ok version → is_empty version ≡ false)
      → ((attempt
            (wrap (wrapped "invalid vCenter version") (lift r) >>= take_version)
            (by_version w)
            s).0
          ≡ ok tt)
        × ((attempt
              (wrap (wrapped "invalid vCenter version") (lift r) >>= take_version)
              (by_version w)
              s).1.cluster.provisioned
            ≡ s.cluster.provisioned)
  unfolding alter report ◌>>=◌
  version-goes_on (ok version) s h = rw (h version refl) (refl, refl)
  version-goes_on (err e) s h = (refl, refl)

  -- what each step leaves
  abbrev pub secured : ClusterState → ClusterState
  secured s = (reconcile_identity_secret w s).1

  abbrev pub connected : ClusterState → ClusterState
  connected s =
      let s' = (reconcile_vcenter_connectivity w (secured s)).1 in
      record s' { writes = s'.writes ++ reachable_writes }

  abbrev pub versioned : ClusterState → ClusterState
  versioned s = (attempt (reconcile_vcenter_version w) (by_version w) (connected s)).1

  abbrev after_connection : ClusterAction (Option ℕ)
  after_connection = do
    attempt (reconcile_vcenter_version w) (by_version w)
    attempt (reconcile_modules_of w) (by_modules w)

  version_step :
      (s : ClusterState)
      → w.major_version "" ≡ none
      → ((attempt (reconcile_vcenter_version w) (by_version w) s).0 ≡ ok tt)
        × ((attempt (reconcile_vcenter_version w) (by_version w) s).1.cluster.provisioned
            ≡ s.cluster.provisioned)
  unfolding reconcile_vcenter_version get_version ask ◌>>=◌
  version_step s n =
      version-goes_on (get_version w s.calls) (record s { calls = read_version ∷ s.calls })
        (λ version. version_of-non_empty (w.about_version s.calls) version n)

  after_connection-provisioned :
      (s : ClusterState)
      → w.major_version "" ≡ none
      → s.cluster.provisioned ≡ none
      → (let v = (attempt (reconcile_vcenter_version w) (by_version w) s).1 in
          IsProvisioned (after_connection s).1 ↔ (settles_modules w v.calls v.cluster ≡ true))
  after_connection-provisioned s n h =
      let step = attempt (reconcile_vcenter_version w) (by_version w) in
      let (goes_on, kept) = version_step s n in
      subst
        (λ r. IsProvisioned r.1 ↔ (settles_modules w (step s).1.calls (step s).1.cluster ≡ true))
        (sym (bind-ok step (attempt (reconcile_modules_of w) (by_modules w)) s goes_on))
        (modules-provisioned (step s).1 (kept ∙ h))

  -- If the empty text is parsed as no version, and the VSphereCluster is not provisioned before,
  -- then the reconcile of the VSphereCluster, once its zones are reconciled, provisions it exactly
  -- where the identity's Secret is reconciled and the connection to vCenter is made without an
  -- error, and then, whatever version vCenter answers, the cluster modules are off or their
  -- reconcile returns no error.
  pub provision_cluster-provisioned :
      (s : ClusterState)
      → w.major_version "" ≡ none
      → s.cluster.provisioned ≡ none
      → ((provision_cluster w s).1.cluster.provisioned ≡ some true) ↔ (
          (is_ok (reconcile_identity_secret w s).0
            && (is_ok (reconcile_vcenter_connectivity w (secured s)).0
                && settles_modules w (versioned s).calls (versioned s).cluster))
          ≡ true)
  unfolding provision_cluster report ◌>>=◌
  provision_cluster-provisioned s n h =
      let secret_kept = ap (λ c. c.provisioned) (identity-cluster s) ∙ h in
      let kept = ap (λ c. c.provisioned) (connectivity-cluster (secured s)) ∙ secret_kept in
      after_step (by_identity_secret w)
        (attempt (reconcile_vcenter_connectivity w) (by_connection w) >> after_connection)
        (reconcile_identity_secret w) _ s (λ e. secret_kept)
        (after_step (by_connection w) after_connection (reconcile_vcenter_connectivity w) _
          (secured s) (λ e. kept) (after_connection-provisioned (connected s) n kept))
