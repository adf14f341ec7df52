-- ===== src/Tests/Addresses.antt =====
-- The theorems on IPAM, on provider IDs and on the metadata, at concrete inputs.
use cluster_api_provider_vsp.Prelude.{
  String, true, false, ◌≡◌, ◌||◌, refl, none, some, List, [], ◌∷◌,
}
use cluster_api_provider_vsp.Errors.{ok}
use cluster_api_provider_vsp.Api.{NetworkDeviceSpec, NetworkStatus, IpPoolReference}
use cluster_api_provider_vsp.Ipam.{IpAddress, Netip, IpamDeviceConfig}
use cluster_api_provider_vsp.Ipam.Configs.{ClaimStore, config_of, build_ipam_device_configs}
use cluster_api_provider_vsp.Ipam.State.{build_state}
use cluster_api_provider_vsp.Ipam.Bound.{AreBound}
use cluster_api_provider_vsp.Group.Names.{has}
use cluster_api_provider_vsp.Group.Order.{AreUnique}
use cluster_api_provider_vsp.Ipam.Written.{macs, AreWritten}
use cluster_api_provider_vsp.Ipam.Complete.{build_state-AreWritten}
use cluster_api_provider_vsp.Machine.ProviderId.{
  matches_uuid, convert_provider_id_to_uuid, convert_uuid_to_provider_id,
}
use cluster_api_provider_vsp.Machine.RoundTrip.{convert_uuid-convert_provider_id}
use cluster_api_provider_vsp.Machine.Message.{
  MachineKey, machines_as_string, listed, machines_as_string-listed,
}
use cluster_api_provider_vsp.Machine.Metadata.{
  IpParser, Waits, waits, some_ipv4, some_ipv6, waits-some,
}

abbrev pool : IpPoolReference
pool = record { api_group = "ipam.cluster.x-k8s.io"; kind = "InClusterIPPool"; name = "pool-1" }

abbrev nic : NetworkDeviceSpec
nic = record {
  dhcp4 = none;
  dhcp6 = some true;
  gateway4 = "";
  gateway6 = "";
  ip_addrs = "10.0.0.9/24" ∷ [];
  mac_addr = "";
  routes = [];
  addresses_from_pools = pool ∷ [];
  skip_ip_allocation = none;
}

abbrev nic_status : NetworkStatus
nic_status = record {
  connected = some true;
  ip_addrs = [];
  mac_addr = "00:50:56:aa";
  network_name = "net";
}

abbrev address : IpAddress
address = record {
  namespace = "ns";
  name = "ip-1";
  address = "10.0.0.5";
  prefix = some 24;
  gateway = "10.0.0.1";
}

abbrev store : ClaimStore
store = record {
  get_claim =
      λ name. ok (record { address_ref_name = "ip-1"; has_ready = true; has_finalizer = true });
  get_address = λ name. ok address;
}

-- a parser that takes all texts for IPv4
abbrev netip : Netip
netip = record {
  parse_prefix = λ s. some (record { text = s; is4 = true });
  parse_addr = λ s. some true;
}

abbrev configs : List IpamDeviceConfig
configs = config_of 0 "00:50:56:aa" nic (address ∷ []) ∷ []

configs-built : build_ipam_device_configs store "vm" (nic ∷ []) (nic_status ∷ []) ≡ ok configs
unfolding build_ipam_device_configs
configs-built = refl

no_error : (build_state netip store "vm" (nic ∷ []) (nic_status ∷ [])).1 ≡ none
unfolding build_state
no_error = refl

one_mac : AreUnique (macs configs)
unfolding has
one_mac = (refl, tt)

build_state-AreWritten_example :
    AreBound (nic_status ∷ []) 0 (nic ∷ []) configs
    × AreWritten netip (build_state netip store "vm" (nic ∷ []) (nic_status ∷ [])).0 configs
build_state-AreWritten_example =
    build_state-AreWritten netip store "vm" (nic ∷ []) (nic_status ∷ []) configs configs-built
      one_mac no_error

abbrev uuid : String
uuid = "42305F0B-dad7-1d3d-5727-0eaffffffffc"

uuid-matches : matches_uuid uuid ≡ true
unfolding matches_uuid
uuid-matches = refl

upper_case :
    convert_provider_id_to_uuid (some "VSPHERE://42305f0b-dad7-1d3d-5727-0eaffffffffc")
    ≡ "42305f0b-dad7-1d3d-5727-0eaffffffffc"
unfolding convert_provider_id_to_uuid
upper_case = refl

convert_uuid-convert_provider_id_example :
    convert_provider_id_to_uuid (some (convert_uuid_to_provider_id uuid)) ≡ uuid
convert_uuid-convert_provider_id_example = convert_uuid-convert_provider_id uuid uuid-matches

abbrev key : String → MachineKey
key name = record { namespace = "ns"; name = name }

three_machines : machines_as_string (key "a" ∷ key "b" ∷ key "c" ∷ []) ≡ "ns/a, ns/b and ns/c"
unfolding machines_as_string
three_machines = refl

abbrev ip_parser : IpParser
ip_parser = record { parse_ip = λ s. some true }

abbrev no_waits : Waits
no_waits = record { ipv4 = false; ipv6 = false }

machines_as_string-listed_example :
    machines_as_string (key "a" ∷ key "b" ∷ key "c" ∷ [])
    ≡ listed (key "a" ∷ key "b" ∷ key "c" ∷ [])
machines_as_string-listed_example = machines_as_string-listed (key "a" ∷ key "b" ∷ key "c" ∷ [])

waits-some_example :
    ((waits ip_parser (nic ∷ []) no_waits).ipv4 ≡ (false || some_ipv4 ip_parser (nic ∷ [])))
    × ((waits ip_parser (nic ∷ []) no_waits).ipv6 ≡ (false || some_ipv6 ip_parser (nic ∷ [])))
waits-some_example = waits-some ip_parser (nic ∷ []) no_waits
