-- ===== src/Cluster/Object.antt =====
-- A VSphereCluster with what its reconcile asks of others, and the state of the reconcile
-- (controllers/vspherecluster_reconciler.go). Each call is recorded, and an answer may depend on all
-- the calls before it.
use cluster_api_provider_vsp.Prelude.{ℕ, String, Bool, Option, List, ◌∷◌, ◌++◌}
use cluster_api_provider_vsp.Errors.{Error, Outcome, ok}
use cluster_api_provider_vsp.Exec.{Exec, of_error}
use cluster_api_provider_vsp.Api.{ClusterModule}
use cluster_api_provider_vsp.Api.Conditions.{ConditionWrite}
use cluster_api_provider_vsp.Cluster.Modules.{ModuleWorld}

pub record IdentityReference : Type 0 where
  pub kind : String
  pub name : String

-- an entry of `Status.FailureDomains`
pub record FailureDomainEntry : Type 0 where
  pub name : String
  pub control_plane : Option Bool

pub record ClusterObject : Type 0 where
  pub name : String
  pub uid : String
  pub is_deleted : Bool
  pub has_finalizer : Bool
  pub server : String
  pub identity_ref : Option IdentityReference
  -- the label selector, where it is not nil
  pub failure_domain_selector : Option String
  pub disable_cluster_module : Option Bool
  -- the label with the cluster's name
  pub cluster_name : Option String
  pub cluster_modules : List ClusterModule
  pub vcenter_version : String
  pub failure_domains : List FailureDomainEntry
  pub provisioned : Option Bool

-- a VSphereDeploymentZone
pub record ZoneObject : Type 0 where
  pub name : String
  pub server : String
  pub control_plane : Option Bool
  pub ready : Option Bool

pub record SecretOwner : Type 0 where
  pub api_version : String
  pub kind : String
  pub name : String
  pub uid : String

pub record SecretObject : Type 0 where
  pub is_deleted : Bool
  pub has_finalizer : Bool
  pub owner_references : List SecretOwner

-- the Cluster API cluster that owns it
pub record OwnerCluster : Type 0 where
  pub namespace : String
  pub name : String

pub data ClusterCall : Type 0 where
  get_object get_owner ensure_finalizer new_patch_helper ensure_paused : ClusterCall
  list_machines : OwnerCluster → ClusterCall
  get_secret secret_patch_helper : String → ClusterCall
  update_secret delete_secret patch_secret : SecretObject → ClusterCall
  list_zones : String → ClusterCall
  get_credentials read_version : ClusterCall
  connect : (server : String) → ClusterCall
  set_summary patch_object : ClusterCall

abbrev pub ClusterCalls : Type 0
ClusterCalls = List ClusterCall

pub record ClusterWorld : Type 0 where
  pub get_object : ClusterCalls → Outcome ClusterObject
  pub get_owner : ClusterCalls → Outcome (Option OwnerCluster)
  -- whether the finalizer was added
  pub ensure_finalizer : ClusterCalls → Outcome Bool
  pub new_patch_helper : ClusterCalls → Option Error
  -- whether it is paused, and whether to come back
  pub ensure_paused : ClusterCalls → Outcome (Bool × Bool)
  -- the names of the VSphereMachines of the cluster
  pub list_machines : ClusterCalls → OwnerCluster → Outcome (List String)
  pub get_secret : ClusterCalls → String → Outcome SecretObject
  pub update_secret : ClusterCalls → SecretObject → Option Error
  pub delete_secret : ClusterCalls → SecretObject → Option Error
  pub secret_patch_helper : ClusterCalls → String → Option Error
  pub patch_secret : ClusterCalls → SecretObject → Option Error
  -- `IsOwnedByObject`, `EnsureOwnerRef`
  pub is_owned_by : List SecretOwner → ClusterObject → Bool
  pub ensure_owner_ref : List SecretOwner → SecretOwner → List SecretOwner
  -- the error of `LabelSelectorAsSelector`
  pub selector_error : String → Option Error
  pub list_zones : ClusterCalls → String → Outcome (List ZoneObject)
  -- the user name and the password: of the identity, and of the manager
  pub get_credentials : ClusterCalls → ClusterObject → Outcome (String × String)
  pub own_credentials : String × String
  pub connect : ClusterCalls → ClusterObject → String × String → Option Error
  -- `ServiceContent.About.Version` of the session, and the major number that `semver.New` reads
  pub about_version : ClusterCalls → String
  pub major_version : String → Option ℕ
  -- the feature gate NodeAntiAffinity
  pub node_anti_affinity : Bool
  -- what the reconcile of the cluster modules asks
  pub modules : ClusterCalls → ModuleWorld
  pub set_summary : ClusterCalls → Option Error
  pub patch_object : ClusterCalls → Option Error

pub record ClusterState : Type 0 where
  pub cluster : ClusterObject
  -- the newest first
  pub calls : ClusterCalls
  -- the writes to the conditions, in order
  pub writes : List ConditionWrite

abbrev pub ClusterAction : Type 0 → Type 0
ClusterAction A = Exec ClusterState A

module _ {A : Type 0} where
  unfoldable pub ask : ClusterCall → (ClusterCalls → Outcome A) → ClusterAction A
  ask c answer s = (answer s.calls, record s { calls = c ∷ s.calls })

unfoldable pub tell : ClusterCall → (ClusterCalls → Option Error) → ClusterAction Unit
tell c answer s = (of_error (answer s.calls), record s { calls = c ∷ s.calls })

unfoldable pub alter : (ClusterObject → ClusterObject) → ClusterAction Unit
alter f s = (ok tt, record s { cluster = f s.cluster })

unfoldable pub report : List ConditionWrite → ClusterAction Unit
report writes s = (ok tt, record s { writes = s.writes ++ writes })
