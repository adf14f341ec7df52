-- ===== src/Tests/Clusters.antt =====
-- The theorems on the cluster modules at concrete inputs.
use cluster_api_provider_vsp.Prelude.{
  String, true, false, ◌≡◌, ◌↔◌, refl, none, some, List, [], ◌∷◌, lookup, insert,
}
use cluster_api_provider_vsp.Errors.{ok, errorf, wrapped, incompatible_owner}
use cluster_api_provider_vsp.Api.{ClusterModule}
use cluster_api_provider_vsp.Cluster.Modules.{
  Owner, kubeadm_control_plane, machine_deployment, ModuleWorld, Progress, add_owners, owner_key,
  append_kcp_key, fetch_machine_owner_objects, reconcile_modules,
}
use cluster_api_provider_vsp.Cluster.Reconcile.{
  ClusterInput, is_cluster_compatible, report_modules, reconcile_cluster_modules,
}
use cluster_api_provider_vsp.Cluster.Modules.Unique.{has_module, AreDistinct, is_some, IsArranging}
use cluster_api_provider_vsp.Cluster.Modules.Owners.{reconcile_modules-covers}
use cluster_api_provider_vsp.Cluster.Modules.Fetch.{
  all_incompatible, report_modules-all_incompatible, reconcile_cluster_modules-AreDistinct,
}

-- a control plane and two machine deployments, of which one is being deleted
abbrev pub cluster_world : ModuleWorld
cluster_world = record {
  major_version = λ version. some 8;
  control_planes = λ name. ok (record { name = "a"; is_deleted = false } ∷ []);
  machine_deployments = λ name.
      ok
        (record { name = "a"; is_deleted = false } ∷ record { name = "b"; is_deleted = true } ∷ []);
  arrange = λ objects. objects;
  does_exist = λ calls o uuid. ok true;
  create = λ calls o. ok "module-9";
  remove = λ calls uuid. some (errorf "not found");
}

abbrev owners : List (String × Owner)
owners = ("kcpa", kubeadm_control_plane "a") ∷ ("a", machine_deployment "a") ∷ []

abbrev module_of_b : ClusterModule
module_of_b = record {
  control_plane = some false;
  target_object_name = "b";
  module_uuid = "module-1";
}

abbrev module_of_a : ClusterModule
module_of_a = record { control_plane = none; target_object_name = "a"; module_uuid = "module-2" }

abbrev cluster_input : ClusterInput
cluster_input = record {
  vcenter_version = "8.0.0";
  cluster_name = some "c";
  cluster_modules = module_of_b ∷ module_of_a ∷ module_of_a ∷ [];
}

same_order : IsArranging cluster_world
same_order objects m k = (m, k, λ key. refl)

fetched_owners : fetch_machine_owner_objects cluster_world (some "c") ≡ ok owners
unfolding fetch_machine_owner_objects add_owners insert owner_key append_kcp_key
fetched_owners = refl

compatible : is_cluster_compatible cluster_world "8.0.0" ≡ true
unfolding is_cluster_compatible
compatible = refl

has_owner : is_some (lookup "kcpa" owners) ≡ true
unfolding lookup
has_owner = refl

reconcile_cluster_modules-AreDistinct_example :
    AreDistinct (reconcile_cluster_modules cluster_world cluster_input).cluster_modules
    × ((key : String)
        → has_module key (reconcile_cluster_modules cluster_world cluster_input).cluster_modules
          ≡ true
        → is_some (lookup key owners) ≡ true)
reconcile_cluster_modules-AreDistinct_example =
    reconcile_cluster_modules-AreDistinct cluster_world cluster_input owners same_order compatible
      fetched_owners

reconcile_modules-covers_example :
    has_module "kcpa" (reconcile_modules cluster_world owners cluster_input.cluster_modules).specs
    ≡ true
unfolding lookup owner_key append_kcp_key
reconcile_modules-covers_example =
    reconcile_modules-covers cluster_world owners same_order cluster_input.cluster_modules
      (λ calls o. refl) (refl, (refl, tt)) (refl, (refl, tt)) "kcpa" has_owner

-- one owner stands on a host alone, and the check of another failed
abbrev two_errors : Progress
two_errors = record {
  objects = [];
  specs = [];
  errors =
      wrapped "failed to create cluster module" (incompatible_owner "host-1")
      ∷ errorf "timeout"
      ∷ [];
  calls = [];
}

report_modules-all_incompatible_example :
    ((report_modules two_errors).outcome ≡ ok tt) ↔ (all_incompatible two_errors.errors ≡ true)
report_modules-all_incompatible_example = report_modules-all_incompatible two_errors
