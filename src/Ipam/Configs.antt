-- ===== src/Ipam/Configs.antt =====
-- The addresses of each device, once all claims are bound (pkg/services/govmomi/ipam/status.go:
-- buildIPAMDeviceConfigs, getIPAddrClaim).
use cluster_api_provider_vsp.Prelude.{
  ℕ, suc, ◌+◌, length, String, Option, none, some, List, [], ◌∷◌, is_empty, ltb, get_elem?,
  if◌then◌else◌,
}
use cluster_api_provider_vsp.Errors.{
  Outcome, ok, err, errorf, wrapped, waiting_for_ip_addr, is_api_not_found,
}
use cluster_api_provider_vsp.Api.{IpPoolReference, NetworkDeviceSpec, NetworkStatus}
use cluster_api_provider_vsp.World.{IpAddressClaim}
use cluster_api_provider_vsp.Controller.Claims.{ip_address_claim_name}
use cluster_api_provider_vsp.Ipam.{IpAddress, IpamDeviceConfig}

-- The API server, asked within one call
pub record ClaimStore : Type 0 where
  pub get_claim : String → Outcome IpAddressClaim
  pub get_address : String → Outcome IpAddress

abbrev pub found_address : Outcome IpAddress → Outcome (Option IpAddress)
found_address (ok a) = ok (some a)
found_address (err e) = err e

-- the fields that no call of a library answers
abbrev pub config_of : ℕ → String → NetworkDeviceSpec → List IpAddress → IpamDeviceConfig
config_of index mac d addresses = record {
  device_index = index;
  ipam_addresses = addresses;
  mac_address = mac;
  network_spec_gateway4 = d.gateway4;
  ipam_config_gateway4 = "";
  network_spec_gateway6 = d.gateway6;
  ipam_config_gateway6 = "";
}

abbrev pub and_address :
    Outcome (Option IpAddress) → Outcome (List IpAddress) → Outcome (List IpAddress)
and_address (err e) rest = err e
and_address (ok none) rest = rest
and_address (ok (some a)) (ok addresses) = ok (a ∷ addresses)
and_address (ok (some a)) (err e) = err e

module _ (store : ClaimStore) (vm : String) where
  unfoldable pub get_ip_addr_claim : String → Outcome IpAddressClaim
  get_ip_addr_claim name = store.get_claim name

  -- none where the claim is not there, or is not bound
  abbrev pub by_claim : Outcome IpAddressClaim → Outcome (Option IpAddress)
  by_claim (err e) =
      if is_api_not_found e then ok none else err (wrapped "failed to get IPAddressClaim %s" e)
  by_claim (ok claim) =
      if is_empty claim.address_ref_name
      then ok none
      else found_address (store.get_address claim.address_ref_name)

  -- the addresses of the claims of a device that are bound
  unfoldable pub bound_addresses : ℕ → ℕ → List IpPoolReference → Outcome (List IpAddress)
  unfolding get_ip_addr_claim
  bound_addresses index pool [] = ok []
  bound_addresses index pool (p ∷ ps) =
      and_address (by_claim (get_ip_addr_claim (ip_address_claim_name vm index pool)))
        (bound_addresses index (suc pool) ps)

  abbrev pub and_config :
      Outcome IpamDeviceConfig → Outcome (List IpamDeviceConfig) → Outcome (List IpamDeviceConfig)
  and_config (err e) rest = err e
  and_config (ok c) (ok configs) = ok (c ∷ configs)
  and_config (ok c) (err e) = err e

  abbrev pub with_addresses :
      ℕ → String → NetworkDeviceSpec → Outcome (List IpAddress) → Outcome IpamDeviceConfig
  with_addresses index mac d (ok addresses) = ok (config_of index mac d addresses)
  with_addresses index mac d (err e) = err e

  -- the status of a device, where there is one that has a MAC address
  abbrev pub device_config : ℕ → NetworkDeviceSpec → Option NetworkStatus → Outcome IpamDeviceConfig
  device_config index d none = err (errorf "waiting for devices to have MAC address set")
  device_config index d (some status) =
      if is_empty status.mac_addr
      then err (errorf "waiting for devices to have MAC address set")
      else with_addresses index status.mac_addr d (bound_addresses index 0 d.addresses_from_pools)

  unfoldable pub device_configs :
      List NetworkStatus → ℕ → List NetworkDeviceSpec → Outcome (List IpamDeviceConfig)
  unfolding bound_addresses
  device_configs statuses index [] = ok []
  device_configs statuses index (d ∷ ds) =
      and_config (device_config index d (get_elem? statuses index))
        (device_configs statuses (suc index) ds)

-- `totalClaims` and `boundClaims`, at the end of the loops
unfoldable pub total_claims : List NetworkDeviceSpec → ℕ
total_claims [] = 0
total_claims (d ∷ ds) = length d.addresses_from_pools + total_claims ds

unfoldable pub bound_claims : List IpamDeviceConfig → ℕ
bound_claims [] = 0
bound_claims (c ∷ cs) = length c.ipam_addresses + bound_claims cs

abbrev pub all_bound : ℕ → Outcome (List IpamDeviceConfig) → Outcome (List IpamDeviceConfig)
all_bound total (err e) = err e
all_bound total (ok configs) =
    if ltb (bound_claims configs) total then err waiting_for_ip_addr else ok configs

unfoldable pub build_ipam_device_configs :
    ClaimStore
    → String
    → List NetworkDeviceSpec
    → List NetworkStatus
    → Outcome (List IpamDeviceConfig)
unfolding device_configs total_claims bound_claims
build_ipam_device_configs store vm devices statuses =
    all_bound (total_claims devices) (device_configs store vm statuses 0 devices)
