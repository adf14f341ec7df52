-- ===== src/VimMachine/Override.antt =====
-- What a failure domain overrides in the spec of a VSphereVM (pkg/services/vimmachine.go:
-- generateOverrideFunc, overrideNetworkDeviceSpecs and the two merges).
use cluster_api_provider_vsp.Prelude.{
  ℕ, zero, suc, String, ◌≡◌, refl, Option, none, some, List, [], ◌∷◌, is_empty, is_nil, get_elem?,
  if◌then◌else◌,
}
use cluster_api_provider_vsp.VimMachine.{
  MachineDevice, NetworkConfiguration, CloneSpec, DeploymentZone, FailureDomain,
}

abbrev pub empty_machine_device : MachineDevice
empty_machine_device = record {
  network_name = "";
  dhcp4 = none;
  dhcp6 = none;
  nameservers = [];
  search_domains = [];
  dhcp4_overrides = none;
  dhcp6_overrides = none;
  addresses_from_pools = [];
  other_fields = "";
}

-- the value of the definition, where it is there
abbrev pub text_or : String → String → String
text_or s fallback = if is_empty s then fallback else s

abbrev pub list_or {ℓ} : {A : Type ℓ} → List A → List A → List A
list_or l fallback = if is_nil l then fallback else l

abbrev pub option_or {ℓ} : {A : Type ℓ} → Option A → Option A → Option A
option_or none fallback = fallback
option_or (some a) fallback = some a

unfoldable pub merge_failure_domain_network_name : MachineDevice → String → MachineDevice
merge_failure_domain_network_name d network = record d { network_name = network }

unfoldable pub merge_network_configuration : MachineDevice → NetworkConfiguration → MachineDevice
merge_network_configuration d nc = record {
  network_name = text_or nc.network_name d.network_name;
  dhcp4 = option_or nc.dhcp4 d.dhcp4;
  dhcp6 = option_or nc.dhcp6 d.dhcp6;
  nameservers = list_or nc.nameservers d.nameservers;
  search_domains = list_or nc.search_domains d.search_domains;
  dhcp4_overrides = option_or nc.dhcp4_overrides d.dhcp4_overrides;
  dhcp6_overrides = option_or nc.dhcp6_overrides d.dhcp6_overrides;
  addresses_from_pools = list_or nc.addresses_from_pools d.addresses_from_pools;
  other_fields = d.other_fields;
}

module _ {T : Type 0} (merge : MachineDevice → T → MachineDevice) where
  -- the definitions that are left make devices of their own
  unfoldable pub append_networks : List T → List MachineDevice
  append_networks [] = []
  append_networks (n ∷ ns) = merge empty_machine_device n ∷ append_networks ns

  unfoldable pub override_network_device_specs : List MachineDevice → List T → List MachineDevice
  unfolding append_networks
  override_network_device_specs [] ns = append_networks ns
  override_network_device_specs (d ∷ ds) [] = d ∷ override_network_device_specs ds []
  override_network_device_specs (d ∷ ds) (n ∷ ns) = merge d n ∷ override_network_device_specs ds ns

  abbrev pub merged_at : Option MachineDevice → Option T → Option MachineDevice
  merged_at none none = none
  merged_at (some d) none = some d
  merged_at none (some n) = some (merge empty_machine_device n)
  merged_at (some d) (some n) = some (merge d n)

  append_networks-get :
      (ns : List T) (i : ℕ) → get_elem? (append_networks ns) i ≡ merged_at none (get_elem? ns i)
  unfolding append_networks
  append_networks-get [] i = refl
  append_networks-get (n ∷ ns) zero = refl
  append_networks-get (n ∷ ns) (suc i) = append_networks-get ns i

  pub override-merged_at :
      (ds : List MachineDevice) (ns : List T) (i : ℕ)
      → get_elem? (override_network_device_specs ds ns) i
        ≡ merged_at (get_elem? ds i) (get_elem? ns i)
  unfolding override_network_device_specs
  override-merged_at [] ns i = append_networks-get ns i
  override-merged_at (d ∷ ds) [] zero = refl
  override-merged_at (d ∷ ds) [] (suc i) = override-merged_at ds [] i
  override-merged_at (d ∷ ds) (n ∷ ns) zero = refl
  override-merged_at (d ∷ ds) (n ∷ ns) (suc i) = override-merged_at ds ns i

abbrev pub override_networks : List String → List MachineDevice → List MachineDevice
override_networks networks ds =
    if is_nil networks
    then ds
    else override_network_device_specs merge_failure_domain_network_name ds networks

abbrev pub override_configurations :
    List NetworkConfiguration → List MachineDevice → List MachineDevice
override_configurations configurations ds =
    if is_nil configurations
    then ds
    else override_network_device_specs merge_network_configuration ds configurations

-- the function that generateOverrideFunc returns
unfoldable pub override_with_failure_domain : DeploymentZone → FailureDomain → CloneSpec → CloneSpec
unfolding override_network_device_specs merge_failure_domain_network_name
    merge_network_configuration
override_with_failure_domain zone fd spec = record spec {
  server = zone.server;
  datacenter = fd.datacenter;
  folder = text_or zone.folder spec.folder;
  resource_pool = text_or zone.resource_pool spec.resource_pool;
  datastore = text_or fd.datastore spec.datastore;
  devices =
      override_configurations fd.network_configurations
        (override_networks fd.networks spec.devices);
}
