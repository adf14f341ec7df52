-- ===== src/VimMachine/Desired.antt =====
-- The VSphereVM that a VSphereMachine asks for (pkg/services/vimmachine.go:
-- createOrPatchVSphereVM, generateOverrideFunc).
use cluster_api_provider_vsp.Prelude.{
  String, false, Option, none, some, List, [], is_empty, lookup, insert, if◌then◌else◌,
}
use cluster_api_provider_vsp.Errors.{Outcome, ok, err, nil_pointer, wrapped, is_api_not_found}
use cluster_api_provider_vsp.Exec.{pure, fail, lift, wrap, gets, attempt, ◌>>=◌}
use cluster_api_provider_vsp.Api.{unset}
use cluster_api_provider_vsp.Group.Names.{label_value}
use cluster_api_provider_vsp.Group.Members.{cluster_name_label}
use cluster_api_provider_vsp.VimMachine.{
  CloneSpec, DeploymentZone, FailureDomain, MachineVm, VimMachine, CapiMachine, VsphereCluster,
}
use cluster_api_provider_vsp.VimMachine.Names.{generate_vm_object_name}
use cluster_api_provider_vsp.VimMachine.Override.{text_or, override_with_failure_domain}
use cluster_api_provider_vsp.VimMachine.World.{
  get_vm, write_vm, get_zone, get_failure_domain, MachineWorld, MachineAction, call,
}

abbrev pub control_plane_label : String
control_plane_label = "cluster.x-k8s.io/control-plane"

abbrev pub with_control_plane : Option String → List (String × String) → List (String × String)
with_control_plane none labels = labels
with_control_plane (some value) labels = insert control_plane_label value labels

-- the server and the thumbprint of the cluster, where nothing else gives one
abbrev pub or_cluster : VsphereCluster → CloneSpec → CloneSpec
or_cluster cluster spec = record spec {
  server = text_or spec.server cluster.server;
  thumbprint = text_or spec.thumbprint cluster.thumbprint;
}

abbrev pub override_of : Option (DeploymentZone × FailureDomain) → CloneSpec → CloneSpec
override_of none spec = spec
override_of (some (zone, fd)) spec = override_with_failure_domain zone fd spec

abbrev pub found_bios_uuid : Option MachineVm → String → String
found_bios_uuid none uuid = uuid
found_bios_uuid (some vm) uuid = vm.bios_uuid

abbrev pub empty_vm : String → MachineVm
empty_vm name = record {
  name = name;
  is_deleted = false;
  owner_references = [];
  labels = [];
  bootstrap_ref = "";
  clone_spec = record {
    server = "";
    thumbprint = "";
    datacenter = "";
    folder = "";
    resource_pool = "";
    datastore = "";
    devices = [];
    other_fields = "";
  };
  bios_uuid = "";
  power_off_mode = unset;
  guest_soft_power_off_timeout_seconds = 0;
  ready = none;
  addresses = [];
  network = [];
  host = "";
  provisioned = none;
  failure = none;
}

module _ (w : MachineWorld) (owner : CapiMachine) (cluster : VsphereCluster) where
  -- what mutateFn makes of the object, once the secret and the override are known
  unfoldable pub desired_vm :
      VimMachine
      → Option MachineVm
      → (secret : String) → Option (DeploymentZone × FailureDomain)
      → MachineVm
      → MachineVm
  unfolding override_with_failure_domain
  desired_vm m found secret domain vm = record vm {
    owner_references =
        w.ensure_owner_ref vm.owner_references
          (record { kind = "VSphereMachine"; name = m.name; uid = m.uid });
    bootstrap_ref = secret;
    labels =
        with_control_plane (lookup control_plane_label owner.labels)
          (insert cluster_name_label (label_value cluster_name_label owner.labels) vm.labels);
    clone_spec = or_cluster cluster (override_of domain m.clone_spec);
    bios_uuid = found_bios_uuid found vm.bios_uuid;
    power_off_mode = m.power_off_mode;
    guest_soft_power_off_timeout_seconds = m.guest_soft_power_off_timeout_seconds;
  }

  abbrev pub by_failure_domain :
      DeploymentZone
      → Outcome FailureDomain
      → MachineAction (Option (DeploymentZone × FailureDomain))
  by_failure_domain zone (ok fd) = pure (some (zone, fd))
  by_failure_domain zone (err e) = pure none

  abbrev pub by_zone :
      Outcome DeploymentZone → MachineAction (Option (DeploymentZone × FailureDomain))
  by_zone (err e) = pure none
  by_zone (ok zone) =
      attempt
        (call (get_failure_domain zone.failure_domain)
          (λ tr. w.get_failure_domain tr zone.failure_domain))
        (by_failure_domain zone)

  -- none where there is no failure domain, or it cannot be read
  unfoldable pub generate_override_func : MachineAction (Option (DeploymentZone × FailureDomain))
  unfolding call pure attempt
  generate_override_func =
      if is_empty owner.failure_domain
      then pure none
      else attempt (call (get_zone owner.failure_domain) (λ tr. w.get_zone tr owner.failure_domain))
          by_zone

  abbrev pub bootstrap_secret : Option String → MachineAction String
  bootstrap_secret none = fail nil_pointer
  bootstrap_secret (some secret) = pure secret

  unfoldable pub mutate_vm : Option MachineVm → MachineVm → MachineAction MachineVm
  unfolding generate_override_func desired_vm ◌>>=◌
  mutate_vm found vm = do
    secret ← bootstrap_secret owner.data_secret_name
    domain ← generate_override_func
    m ← gets (λ s. s.machine)
    pure (desired_vm m found secret domain vm)

  abbrev pub stored_or_new : String → Outcome MachineVm → MachineAction MachineVm
  stored_or_new name (ok vm) = pure vm
  stored_or_new name (err e) = if is_api_not_found e then pure (empty_vm name) else fail e

  -- `ctrlutil.CreateOrPatch`: the object is read, changed, and written
  unfoldable pub create_or_patch : String → Option MachineVm → MachineAction MachineVm
  unfolding mutate_vm
  create_or_patch name found = do
    vm ← attempt (call (get_vm name) (λ tr. w.get_vm tr name)) (stored_or_new name)
    desired ← mutate_vm found vm
    call (write_vm desired) (λ tr. w.write_vm tr desired)

  unfoldable pub create_or_patch_vsphere_vm : Option MachineVm → MachineAction MachineVm
  unfolding create_or_patch generate_vm_object_name
  create_or_patch_vsphere_vm found = do
    m ← gets (λ s. s.machine)
    name ← lift (generate_vm_object_name w.templates m owner.name)
    wrap (wrapped "failed to CreateOrPatch VSphereVM") (create_or_patch name found)
