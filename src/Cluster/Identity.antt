-- ===== src/Cluster/Identity.antt =====
-- The Secret that is the identity of a VSphereCluster (pkg/identity/identity.go: IsSecretIdentity,
-- IsOwnedByIdentityOrCluster, controllers/vspherecluster_reconciler.go: reconcileIdentitySecret).
use Prim.Native.Char.{code}
use Prim.Native.String.{◌++◌}
use cluster_api_provider_vsp.Prelude.{
  String, Bool, true, false, not, ◌&&◌, ◌||◌, Option, none, some, List, [], ◌∷◌, ◌==◌, str_eq,
  if◌then◌else◌,
}
use cluster_api_provider_vsp.Errors.{errorf}
use cluster_api_provider_vsp.Exec.{pure, fail, gets, ◌>>=◌, ◌>>◌}
use cluster_api_provider_vsp.Cluster.Object.{
  IdentityReference, ClusterObject, SecretOwner, SecretObject, ClusterWorld, ClusterAction,
  get_secret, secret_patch_helper, patch_secret, ask, tell,
}

unfoldable pub has_prefix : String → String → Bool
has_prefix String.[] t = true
has_prefix (String.◌∷◌ c s) String.[] = false
has_prefix (String.◌∷◌ c s) (String.◌∷◌ d t) =
    let rest = has_prefix s t in if code c == code d then rest else false

-- `strings.Contains`
unfoldable pub contains_text : String → String → Bool
unfolding has_prefix
contains_text String.[] s = has_prefix s String.[]
contains_text (String.◌∷◌ c t) s =
    let rest = contains_text t s in if has_prefix s (String.◌∷◌ c t) then true else rest

abbrev pub secret_kind : String
secret_kind = "Secret"

abbrev pub secret_name : Option IdentityReference → Option String
secret_name none = none
secret_name (some r) = if str_eq r.kind secret_kind then some r.name else none

abbrev pub says_secret : Option String → Bool
says_secret none = false
says_secret (some name) = true

unfoldable pub is_secret_identity : ClusterObject → Bool
is_secret_identity c = says_secret (secret_name c.identity_ref)

abbrev pub group_name : String
group_name = "infrastructure.cluster.x-k8s.io"

unfoldable pub is_owned_by_identity_or_cluster : List SecretOwner → Bool
unfolding contains_text
is_owned_by_identity_or_cluster [] = false
is_owned_by_identity_or_cluster (o ∷ os) =
    let rest = is_owned_by_identity_or_cluster os in
    if contains_text o.api_version (group_name ++ "/")
      && (str_eq o.kind "VSphereCluster" || str_eq o.kind "VSphereClusterIdentity")
    then true
    else rest

abbrev pub owner_of : ClusterObject → SecretOwner
owner_of c = record {
  api_version = "infrastructure.cluster.x-k8s.io/v1beta2";
  kind = "VSphereCluster";
  name = c.name;
  uid = c.uid;
}

module _ (w : ClusterWorld) where
  -- the Secret with the owner and the finalizer that it is to have
  abbrev pub claimed : ClusterObject → SecretObject → SecretObject
  claimed c secret = record secret {
    owner_references = w.ensure_owner_ref secret.owner_references (owner_of c);
    has_finalizer = true;
  }

  abbrev pub is_taken : ClusterObject → SecretObject → Bool
  is_taken c secret =
      not (w.is_owned_by secret.owner_references c)
      && is_owned_by_identity_or_cluster secret.owner_references

  abbrev pub claim_secret : ClusterObject → String → SecretObject → ClusterAction Unit
  claim_secret c name secret =
      if is_taken c secret
      then fail (errorf "another cluster has set the OwnerRef for Secret %s/%s")
      else (do
        tell (secret_patch_helper name) (λ calls. w.secret_patch_helper calls name)
        tell (patch_secret (claimed c secret)) (λ calls. w.patch_secret calls (claimed c secret)))

  abbrev pub by_identity : ClusterObject → Option String → ClusterAction Unit
  by_identity c none = pure tt
  by_identity c (some name) = do
    secret ← ask (get_secret name) (λ calls. w.get_secret calls name)
    claim_secret c name secret

  unfoldable pub reconcile_identity_secret : ClusterAction Unit
  unfolding ask tell is_owned_by_identity_or_cluster ◌>>=◌
  reconcile_identity_secret = do
    c ← gets (λ s. s.cluster)
    by_identity c (secret_name c.identity_ref)
