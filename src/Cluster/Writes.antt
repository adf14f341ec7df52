-- ===== src/Cluster/Writes.antt =====
-- The conditions that the reconcile of a VSphereCluster sets (controllers/vspherecluster_reconciler.go).
use cluster_api_provider_vsp.Prelude.{List, [], ◌∷◌}
use cluster_api_provider_vsp.Errors.{Error}
use cluster_api_provider_vsp.Api.Conditions.{
  ConditionType, status_true, status_false, Reason, modules_invalid_vcenter_version,
  modules_not_ready, modules_deleting, domains_deleting, vcenter_unreachable, vcenter_reachable,
  vcenter_deleting, Message, no_message, text, error_text, ConditionWrite, set, mark_true,
  mark_false, severe, warning, cluster_modules_available_v1beta1, vcenter_available_v1beta1,
  vcenter_unreachable_v1beta1, missing_vcenter_version_v1beta1, cluster_module_setup_failed_v1beta1,
  vcenter_available, cluster_modules_ready, failure_domains_ready,
}

abbrev pub condition_false : ConditionType → Reason → Message → ConditionWrite
condition_false t r m = set (record { type = t; status = status_false; reason = r; message = m })

abbrev pub deletion_writes : List ConditionWrite
deletion_writes =
    condition_false vcenter_available vcenter_deleting no_message
    ∷ condition_false cluster_modules_ready modules_deleting no_message
    ∷ condition_false failure_domains_ready domains_deleting no_message
    ∷ []

abbrev pub unreachable_writes : Error → List ConditionWrite
unreachable_writes e =
    mark_false vcenter_available_v1beta1 vcenter_unreachable_v1beta1 severe (error_text e)
    ∷ condition_false vcenter_available vcenter_unreachable (error_text e)
    ∷ []

abbrev pub reachable_writes : List ConditionWrite
reachable_writes =
    mark_true vcenter_available_v1beta1
    ∷ set (record {
      type = vcenter_available;
      status = status_true;
      reason = vcenter_reachable;
      message = no_message;
    })
    ∷ []

abbrev pub version_writes : Error → List ConditionWrite
version_writes e =
    mark_false cluster_modules_available_v1beta1 missing_vcenter_version_v1beta1 warning
      (error_text e)
    ∷ condition_false cluster_modules_ready modules_invalid_vcenter_version (error_text e)
    ∷ []

-- what is written before the text of an error that is nil is asked for
abbrev pub no_version_writes : List ConditionWrite
no_version_writes =
    mark_false cluster_modules_available_v1beta1 missing_vcenter_version_v1beta1 warning (text "%v")
    ∷ []

abbrev pub modules_failed_writes : Error → List ConditionWrite
modules_failed_writes e =
    mark_false cluster_modules_available_v1beta1 cluster_module_setup_failed_v1beta1 warning
      (error_text e)
    ∷ condition_false cluster_modules_ready modules_not_ready (error_text e)
    ∷ []
