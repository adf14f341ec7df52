-- ===== src/Ipam/Bound.antt =====
-- When the addresses of the devices are complete (pkg/services/govmomi/ipam/status.go: BuildState,
-- buildIPAMDeviceConfigs).
use cluster_api_provider_vsp.Prelude.{
  ℕ, suc, ◌≤◌, String, false, ◌≡◌, refl, Option, none, some, List, [], ◌∷◌, arith, is_empty, length,
  get_elem?, Bool-cases, inl, inr,
}
use mathlib.Core.Path.{subst}
use cluster_api_provider_vsp.Errors.{Outcome, ok, err}
use cluster_api_provider_vsp.Api.{IpPoolReference, NetworkDeviceSpec, NetworkStatus}
use cluster_api_provider_vsp.Ipam.{IpAddress, IpamDeviceConfig}
use cluster_api_provider_vsp.Ipam.Configs.{
  ClaimStore, and_config, bound_addresses, device_config, with_addresses, device_configs,
  total_claims, bound_claims, all_bound, build_ipam_device_configs,
}

-- the MAC address that is reported for a device
abbrev pub reported_mac : Option NetworkStatus → String
reported_mac none = ""
reported_mac (some status) = status.mac_addr

-- each device has as many addresses as it asks for, the MAC address that is reported for it, and
-- the gateways of its spec
abbrev pub AreBound :
    List NetworkStatus → ℕ → List NetworkDeviceSpec → List IpamDeviceConfig → Type 0
AreBound statuses index [] [] = Unit
AreBound statuses index [] (c ∷ cs) = ⊥
AreBound statuses index (d ∷ ds) [] = ⊥
AreBound statuses index (d ∷ ds) (c ∷ cs) =
    (length c.ipam_addresses ≡ length d.addresses_from_pools)
    × (c.device_index ≡ index)
    × (c.mac_address ≡ reported_mac (get_elem? statuses index))
    × (is_empty c.mac_address ≡ false)
    × (c.network_spec_gateway4 ≡ d.gateway4)
    × (c.network_spec_gateway6 ≡ d.gateway6)
    × AreBound statuses (suc index) ds cs

abbrev addresses_in : Outcome (List IpAddress) → ℕ
addresses_in (ok l) = length l
addresses_in (err e) = 0

module _ (store : ClaimStore) (vm : String) where
  -- no device gets more addresses than it asks for
  bound_addresses-length :
      (index pool : ℕ) (ps : List IpPoolReference)
      → addresses_in (bound_addresses store vm index pool ps) ≤ length ps
  unfolding bound_addresses
  bound_addresses-length index pool [] = omega arith
  bound_addresses-length index pool (p ∷ ps) =
      ground (arith, bound_addresses-length index (suc pool) ps)

-- what a device's configuration has in any case
abbrev IsDevice : ℕ → String → NetworkDeviceSpec → Outcome IpamDeviceConfig → Type 0
IsDevice index mac d (err e) = Unit
IsDevice index mac d (ok c) =
    (length c.ipam_addresses ≤ length d.addresses_from_pools)
    × (c.device_index ≡ index)
    × (c.mac_address ≡ mac)
    × (is_empty c.mac_address ≡ false)
    × (c.network_spec_gateway4 ≡ d.gateway4)
    × (c.network_spec_gateway6 ≡ d.gateway6)

-- no more claims are bound than there are, and where as many are, each device has its addresses
abbrev IsFair :
    List NetworkStatus → ℕ → List NetworkDeviceSpec → Outcome (List IpamDeviceConfig) → Type 0
IsFair statuses index ds (err e) = Unit
IsFair statuses index ds (ok cs) =
    (bound_claims cs ≤ total_claims ds)
    × (total_claims ds ≤ bound_claims cs → AreBound statuses index ds cs)

and_config-IsFair :
    (store : ClaimStore) (vm : String) (statuses : List NetworkStatus) (index : ℕ)
    (d : NetworkDeviceSpec) (ds : List NetworkDeviceSpec) (c : Outcome IpamDeviceConfig)
    (rest : Outcome (List IpamDeviceConfig))
    → IsDevice index (reported_mac (get_elem? statuses index)) d c
    → IsFair statuses (suc index) ds rest
    → IsFair statuses index (d ∷ ds) (and_config store vm c rest)
unfolding total_claims bound_claims
and_config-IsFair store vm statuses index d ds (err e) rest h k = tt
and_config-IsFair store vm statuses index d ds (ok c) (err e) h k = tt
and_config-IsFair store vm statuses index d ds (ok c) (ok cs) (l, i, m, e, g, g') (b, a) =
    (omega (arith, l, b), λ t. (omega (arith, l, b, t), i, m, e, g, g', a (omega (arith, l, b, t))))

with_addresses-IsDevice :
    (store : ClaimStore) (vm : String) (index : ℕ) (mac : String) (d : NetworkDeviceSpec)
    (addresses : Outcome (List IpAddress))
    → addresses_in addresses ≤ length d.addresses_from_pools
    → is_empty mac ≡ false
    → IsDevice index mac d (with_addresses store vm index mac d addresses)
with_addresses-IsDevice store vm index mac d (ok l) h m = (h, refl, refl, m, refl, refl)
with_addresses-IsDevice store vm index mac d (err e) h m = tt

module _ (store : ClaimStore) (vm : String) (statuses : List NetworkStatus) where
  device_config-IsDevice :
      (index : ℕ) (d : NetworkDeviceSpec) (status : Option NetworkStatus)
      → IsDevice index (reported_mac status) d (device_config store vm index d status)
  device_config-IsDevice index d none = tt
  device_config-IsDevice index d (some status) = elim (Bool-cases (is_empty status.mac_addr)) [
    | inl e ↦ rw e tt
    | inr e ↦ rw e (
        with_addresses-IsDevice store vm index status.mac_addr d
          (bound_addresses store vm index 0 d.addresses_from_pools)
          (bound_addresses-length store vm index 0 d.addresses_from_pools) e)
  ]

  device_configs-IsFair :
      (index : ℕ) (ds : List NetworkDeviceSpec)
      → IsFair statuses index ds (device_configs store vm statuses index ds)
  unfolding device_configs total_claims bound_claims
  device_configs-IsFair index [] = (omega arith, λ t. tt)
  device_configs-IsFair index (d ∷ ds) =
      and_config-IsFair store vm statuses index d ds
        (device_config store vm index d (get_elem? statuses index))
        (device_configs store vm statuses (suc index) ds)
        (device_config-IsDevice index d (get_elem? statuses index))
        (device_configs-IsFair (suc index) ds)

  all_bound-AreBound :
      (ds : List NetworkDeviceSpec) (result : Outcome (List IpamDeviceConfig))
      (configs : List IpamDeviceConfig)
      → IsFair statuses 0 ds result
      → all_bound (total_claims ds) result ≡ ok configs
      → AreBound statuses 0 ds configs
  all_bound-AreBound ds (err e) configs f h = absurd (cc h)
  all_bound-AreBound ds (ok cs) configs f h =
      subst (AreBound statuses 0 ds) (ground (arith, h)) (f.1 (ground (arith, h)))

  pub build_configs-AreBound :
      (ds : List NetworkDeviceSpec) (configs : List IpamDeviceConfig)
      → build_ipam_device_configs store vm ds statuses ≡ ok configs
      → AreBound statuses 0 ds configs
  unfolding build_ipam_device_configs
  build_configs-AreBound ds configs h =
      all_bound-AreBound ds (device_configs store vm statuses 0 ds) configs
        (device_configs-IsFair 0 ds) h
