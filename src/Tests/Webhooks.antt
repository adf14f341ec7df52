-- ===== src/Tests/Webhooks.antt =====
-- The theorems on the webhooks, at concrete inputs.
use cluster_api_provider_vsp.Prelude.{true, false, ◌≡◌, ◌↔◌, refl, none, some, [], ◌∷◌, is_nil}
use cluster_api_provider_vsp.Errors.{ok}
use cluster_api_provider_vsp.Api.{hard}
use cluster_api_provider_vsp.Webhook.{MachineNetwork, Gates}
use cluster_api_provider_vsp.Webhook.Vlans.{
  has_id, interface_names, nsx_vpc_network_provider, AreValid, validate_vlans,
  validate_vlans-AreValid,
}
use cluster_api_provider_vsp.Webhook.Machine.{AdmittedObject, CidrParser, validate_vm_update}
use cluster_api_provider_vsp.Webhook.Updates.{IsTimeoutMeant, IsKept, AgreeBut, update-admits}

abbrev gates : Gates
gates = record { multi_networks = true; vlan_subinterface = true; infrastructure_policies = false }

abbrev two_vlans : MachineNetwork
two_vlans = record {
  primary = none;
  secondary = record { name = "eth1"; network_gvk = "Subnet"; other_fields = "" } ∷ [];
  vlans =
      record { name = "vlan-a"; link = "eth1"; id = some 100 }
      ∷ record { name = "vlan-b"; link = "eth1"; id = some 200 }
      ∷ [];
}

admitted : validate_vlans gates "VPC" two_vlans ≡ []
unfolding validate_vlans has_id
admitted = refl

validate_vlans-AreValid_example : (is_nil (validate_vlans gates "VPC" two_vlans) ≡ true) ↔ (
    (gates.vlan_subinterface ≡ true)
    × ("VPC" ≡ nsx_vpc_network_provider)
    × (is_nil two_vlans.secondary ≡ false)
    × AreValid (interface_names two_vlans.secondary) [] [] two_vlans.vlans)
validate_vlans-AreValid_example = validate_vlans-AreValid gates "VPC" two_vlans

abbrev parser : CidrParser
parser = record { parses = λ s. true }

abbrev old_vm : AdmittedObject
old_vm = record {
  name = "vm-1";
  os = "";
  datacenter = "dc0";
  bios_uuid = "";
  power_off_mode = hard;
  guest_soft_power_off_timeout_seconds = 0;
  pci_devices = [];
  ip_addrs = [];
  fields = ("server", "vc1") ∷ [];
  network = some (("devices", "[]") ∷ []);
}

abbrev new_vm : AdmittedObject
new_vm = record old_vm {
  bios_uuid = "42305f0b-dad7-1d3d-5727-0eaffffffffc";
  fields = ("biosUUID", "42305f0b-dad7-1d3d-5727-0eaffffffffc") ∷ ("server", "vc1") ∷ [];
  network = some (("devices", "[1]") ∷ []);
}

update-admits_example : (validate_vm_update parser old_vm new_vm ≡ ok []) ↔ (
    IsTimeoutMeant new_vm
    × IsKept old_vm new_vm
    × AgreeBut ("devices" ∷ []) (("devices", "[]") ∷ []) (("devices", "[1]") ∷ []))
update-admits_example =
    update-admits parser old_vm new_vm (("devices", "[]") ∷ []) (("devices", "[1]") ∷ []) refl refl
