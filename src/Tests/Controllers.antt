-- ===== src/Tests/Controllers.antt =====
-- The theorems on the reconcile of a VSphereCluster, at a concrete cluster.
use cluster_api_provider_vsp.Prelude.{
  is_empty, if◌then◌else◌, String, true, false, ◌&&◌, ◌≡◌, ◌↔◌, refl, none, some, List, [], ◌∷◌,
}
use cluster_api_provider_vsp.Errors.{ok}
use cluster_api_provider_vsp.Group.Names.{has}
use cluster_api_provider_vsp.Group.Order.{AreUnique, AreOrdered}
use cluster_api_provider_vsp.Cluster.Object.{
  ClusterObject, ZoneObject, SecretObject, ClusterWorld, ClusterState,
}
use cluster_api_provider_vsp.Cluster.Zones.{reconcile_deployment_zones}
use cluster_api_provider_vsp.Cluster.Identity.{secret_name, reconcile_identity_secret}
use cluster_api_provider_vsp.Cluster.Controller.{
  reconcile_vcenter_connectivity, provision_cluster, delete_cluster,
}
use cluster_api_provider_vsp.Cluster.Listed.{
  domain_names, usable_zones, all_reported, reconcile_deployment_zones-listed,
}
use cluster_api_provider_vsp.Cluster.Outcomes.{
  is_ok, has_no_machines, settles_modules, calls_then, releases_identity, delete_cluster-finalizer,
}
use cluster_api_provider_vsp.Cluster.Provisioned.{secured, versioned, provision_cluster-provisioned}
use cluster_api_provider_vsp.Tests.Clusters.{cluster_world}

abbrev vsphere_cluster : ClusterObject
vsphere_cluster = record {
  name = "c";
  uid = "u1";
  is_deleted = false;
  has_finalizer = true;
  server = "vc1";
  identity_ref = some (record { kind = "Secret"; name = "credentials" });
  failure_domain_selector = some "region=a";
  disable_cluster_module = none;
  cluster_name = some "c";
  cluster_modules = [];
  vcenter_version = "";
  failure_domains = [];
  provisioned = none;
}

-- two zones of the server, and one of another
abbrev zone_objects : List ZoneObject
zone_objects =
    record { name = "z2"; server = "vc1"; control_plane = none; ready = some true }
    ∷ record { name = "z1"; server = "vc1"; control_plane = some true; ready = none }
    ∷ record { name = "z0"; server = "vc2"; control_plane = none; ready = some true }
    ∷ []

abbrev credentials_secret : SecretObject
credentials_secret = record { is_deleted = false; has_finalizer = true; owner_references = [] }

abbrev controller_world : ClusterWorld
controller_world = record {
  get_object = λ calls. ok vsphere_cluster;
  get_owner = λ calls. ok (some (record { namespace = "default"; name = "c" }));
  ensure_finalizer = λ calls. ok false;
  new_patch_helper = λ calls. none;
  ensure_paused = λ calls. ok (false, false);
  list_machines = λ calls. λ c. ok [];
  get_secret = λ calls. λ name. ok credentials_secret;
  update_secret = λ calls. λ secret. none;
  delete_secret = λ calls. λ secret. none;
  secret_patch_helper = λ calls. λ name. none;
  patch_secret = λ calls. λ secret. none;
  is_owned_by = λ owners. λ c. false;
  ensure_owner_ref = λ owners. λ o. o ∷ owners;
  selector_error = λ selector. none;
  list_zones = λ calls. λ selector. ok zone_objects;
  get_credentials = λ calls. λ c. ok ("user", "secret");
  own_credentials = ("admin", "admin");
  connect = λ calls. λ c. λ user. none;
  about_version = λ calls. "8.0.3";
  major_version = λ text. if is_empty text then none else some 8;
  node_anti_affinity = true;
  modules = λ calls. cluster_world;
  set_summary = λ calls. none;
  patch_object = λ calls. none;
}

abbrev read_state : ClusterState
read_state = record { cluster = vsphere_cluster; calls = []; writes = [] }

unique_zones : AreUnique (usable_zones "vc1" zone_objects)
unfolding usable_zones has
unique_zones = (refl, (refl, tt))

reconcile_deployment_zones-listed_example :
    AreOrdered (
      domain_names
        (reconcile_deployment_zones controller_world read_state).1.cluster.failure_domains)
    × ((name : String)
        → has name (
            domain_names
              (reconcile_deployment_zones controller_world read_state).1.cluster.failure_domains)
          ≡ has name (usable_zones "vc1" zone_objects))
    × ((reconcile_deployment_zones controller_world read_state).0
        ≡ ok (all_reported "vc1" zone_objects))
reconcile_deployment_zones-listed_example =
    reconcile_deployment_zones-listed controller_world read_state "region=a" zone_objects refl refl
      refl unique_zones

delete_cluster-finalizer_example :
    ((delete_cluster controller_world none read_state).1.cluster.has_finalizer ≡ false) ↔ (
      (has_no_machines controller_world [] none
        && settles_modules controller_world (calls_then controller_world [] none) vsphere_cluster
        && releases_identity controller_world
            (calls_then controller_world [] none)
            (secret_name vsphere_cluster.identity_ref))
      ≡ true)
delete_cluster-finalizer_example = delete_cluster-finalizer controller_world none read_state refl

provision_cluster-provisioned_example :
    ((provision_cluster controller_world read_state).1.cluster.provisioned ≡ some true) ↔ (
      (is_ok (reconcile_identity_secret controller_world read_state).0
        && (is_ok
              (reconcile_vcenter_connectivity controller_world
                (secured controller_world read_state)).0
            && settles_modules controller_world
                (versioned controller_world read_state).calls
                (versioned controller_world read_state).cluster))
      ≡ true)
provision_cluster-provisioned_example =
    provision_cluster-provisioned controller_world read_state refl refl
