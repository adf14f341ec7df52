-- ===== src/Cluster/Reconcile.antt =====
-- The reconcile of the cluster modules as a whole (controllers/clustermodule_reconciler.go): the
-- vCenter version, the owners, both loops, and the conditions.
use cluster_api_provider_vsp.Prelude.{
  ℕ, String, Bool, false, ◌&&◌, Option, none, some, List, [], ◌∷◌, is_empty, ltb, leb, ◌==◌,
  if◌then◌else◌, length,
}
use cluster_api_provider_vsp.Errors.{
  Error, Outcome, ok, err, errorf, wrapped, is_incompatible_owner_error,
}
use cluster_api_provider_vsp.Api.{ClusterModule}
use cluster_api_provider_vsp.Api.Conditions.{
  ConditionType, ConditionStatus, Message, ConditionWrite, Reason, status_true, status_false,
  modules_invalid_vcenter_version, modules_not_ready, modules_ready,
  cluster_modules_available_v1beta1, vcenter_version_incompatible_v1beta1,
  cluster_module_setup_failed_v1beta1, info, warning, text, no_message, set, mark_true, mark_false,
  delete_v1beta1,
}
use cluster_api_provider_vsp.Cluster.Modules.{
  Owner, ModuleWorld, Progress, fetch_machine_owner_objects, reconcile_modules,
}

-- the errors that are of an owner outside a compute cluster
unfoldable pub incompatible_owner_errors : List Error → List Error
unfolding is_incompatible_owner_error
incompatible_owner_errors [] = []
incompatible_owner_errors (e ∷ es) =
    let rest = incompatible_owner_errors es in
    if is_incompatible_owner_error e then e ∷ rest else rest

-- What the reconcile of the cluster modules reads of a VSphereCluster.
pub record ClusterInput : Type 0 where
  pub vcenter_version : String
  -- the label with the cluster's name
  pub cluster_name : Option String
  pub cluster_modules : List ClusterModule

-- The modules of the spec after it, what it returns, and the writes to the conditions, in order.
pub record ModulesResult : Type 0 where
  pub cluster_modules : List ClusterModule
  pub outcome : Outcome (Unit {0})
  pub writes : List ConditionWrite

abbrev is_seven : Option ℕ → Bool
is_seven none = false
is_seven (some major) = leb 7 major

abbrev pub modules_condition : ConditionStatus → Reason → Message → ConditionWrite
modules_condition s r m =
    set (record { type = ConditionType.cluster_modules_ready; status = s; reason = r; message = m })

abbrev unsupported : String
unsupported = "vCenter version %s does not support cluster modules"

abbrev failed_for : String
failed_for = "Failed to create cluster modules for: %s"

-- the conditions and the error that the errors of the loops lead to
unfoldable pub report_modules : Progress → ModulesResult
unfolding incompatible_owner_errors
report_modules p =
    if ltb 0 (length p.errors)
    then record {
      cluster_modules = p.specs;
      outcome =
          if ltb 0 (length (incompatible_owner_errors p.errors))
            && (length (incompatible_owner_errors p.errors) == length p.errors)
          then ok tt
          else err (errorf failed_for);
      writes =
          mark_false cluster_modules_available_v1beta1 cluster_module_setup_failed_v1beta1 warning
            (text failed_for)
          ∷ modules_condition status_false modules_not_ready (text failed_for)
          ∷ [];
    }
    else record {
      cluster_modules = p.specs;
      outcome = ok tt;
      writes =
          (if ltb 0 (length p.specs)
            then mark_true cluster_modules_available_v1beta1
            else delete_v1beta1 cluster_modules_available_v1beta1)
          ∷ modules_condition status_true modules_ready no_message
          ∷ [];
    }

module _ (w : ModuleWorld) where
  unfoldable pub is_cluster_compatible : String → Bool
  is_cluster_compatible version =
      if is_empty version then false else is_seven (w.major_version version)

  abbrev pub with_owners : List ClusterModule → Outcome (List (String × Owner)) → ModulesResult
  with_owners modules (err e) = record {
    cluster_modules = modules;
    outcome = err (wrapped "failed to get Machine owner objects" e);
    writes = [];
  }
  with_owners modules (ok objects) = report_modules (reconcile_modules w objects modules)

  unfoldable pub reconcile_cluster_modules : ClusterInput → ModulesResult
  unfolding is_cluster_compatible fetch_machine_owner_objects reconcile_modules report_modules
  reconcile_cluster_modules input =
      if is_cluster_compatible input.vcenter_version
      then with_owners input.cluster_modules (fetch_machine_owner_objects w input.cluster_name)
      else record {
        cluster_modules = input.cluster_modules;
        outcome = ok tt;
        writes =
            mark_false cluster_modules_available_v1beta1 vcenter_version_incompatible_v1beta1 info
              (text unsupported)
            ∷ modules_condition status_false modules_invalid_vcenter_version (text unsupported)
            ∷ [];
      }
