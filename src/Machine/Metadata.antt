-- ===== src/Machine/Metadata.antt =====
-- The devices and the waits of the cloud-init metadata, before the template renders them
-- (pkg/util/machines.go: GetMachineMetadata).
use cluster_api_provider_vsp.Prelude.{
  ℕ, suc, String, Bool, true, false, not, ◌&&◌, ◌||◌, ◌≡◌, refl, Option, none, some, List, [], ◌∷◌,
  ◌++◌, arith, deref, ap, leb, length, lookup, if◌then◌else◌,
}
use cluster_api_provider_vsp.Api.{NetworkDeviceSpec, NetworkStatus, NetworkRouteSpec}

-- `make` leaves the devices empty
abbrev pub empty_device : NetworkDeviceSpec
empty_device = record {
  dhcp4 = none;
  dhcp6 = none;
  gateway4 = "";
  gateway6 = "";
  ip_addrs = [];
  mac_addr = "";
  routes = [];
  addresses_from_pools = [];
  skip_ip_allocation = none;
}

abbrev pub with_mac : Option NetworkStatus → NetworkDeviceSpec → NetworkDeviceSpec
with_mac none d = d
with_mac (some status) d = record d { mac_addr = status.mac_addr }

-- the addresses and the gateways that IPAM gave the device
abbrev pub with_ipam : Option NetworkDeviceSpec → NetworkDeviceSpec → NetworkDeviceSpec
with_ipam none d = d
with_ipam (some state) d = record d {
  ip_addrs = d.ip_addrs ++ state.ip_addrs;
  gateway4 = state.gateway4;
  gateway6 = state.gateway6;
}

abbrev pub with_routes : List NetworkRouteSpec → NetworkDeviceSpec → NetworkDeviceSpec
with_routes routes d = record d { routes = d.routes ++ routes }

module _ (routes : List NetworkRouteSpec) (ipam_state : List (String × NetworkDeviceSpec)) where
  -- a device of the spec, with the status at its index
  unfoldable pub metadata_device : NetworkDeviceSpec → Option NetworkStatus → NetworkDeviceSpec
  metadata_device d status =
      let named = with_mac status (with_routes routes d) in
      with_ipam (lookup named.mac_addr ipam_state) named

  -- The devices that only have a status: the last device of the spec gives them the routes.
  unfoldable pub status_devices : Bool → List NetworkStatus → List NetworkDeviceSpec
  status_devices has_devices [] = []
  status_devices has_devices (s ∷ ss) =
      with_mac (some s) (if has_devices then with_routes routes empty_device else empty_device)
      ∷ status_devices has_devices ss

  unfoldable pub later_devices :
      List NetworkDeviceSpec → List NetworkStatus → List NetworkDeviceSpec
  unfolding metadata_device status_devices
  later_devices [] statuses = status_devices true statuses
  later_devices (d ∷ ds) [] = metadata_device d none ∷ later_devices ds []
  later_devices (d ∷ ds) (s ∷ ss) = metadata_device d (some s) ∷ later_devices ds ss

  unfoldable pub metadata_devices :
      List NetworkDeviceSpec → List NetworkStatus → List NetworkDeviceSpec
  unfolding later_devices
  metadata_devices [] statuses = status_devices false statuses
  metadata_devices (d ∷ ds) statuses = later_devices (d ∷ ds) statuses

  abbrev pub longer : ℕ → ℕ → ℕ
  longer a b = if leb a b then b else a

  status_devices-length :
      (h : Bool) (ss : List NetworkStatus) → length (status_devices h ss) ≡ length ss
  unfolding status_devices
  status_devices-length h [] = refl
  status_devices-length h (s ∷ ss) = ap suc (status_devices-length h ss)

  pub later_devices-length :
      (ds : List NetworkDeviceSpec) (ss : List NetworkStatus)
      → length (later_devices ds ss) ≡ longer (length ds) (length ss)
  unfolding later_devices
  later_devices-length [] ss = ground (arith, status_devices-length true ss)
  later_devices-length (d ∷ ds) [] = ground (arith, later_devices-length ds [])
  later_devices-length (d ∷ ds) (s ∷ ss) = ground (arith, later_devices-length ds ss)

-- `net.ParseIP` and whether the address has a form of four bytes
pub record IpParser : Type 0 where
  pub parse_ip : String → Option Bool

-- `waitForIPv4` and `waitForIPv6`
pub record Waits : Type 0 where
  pub ipv4 : Bool
  pub ipv6 : Bool

abbrev pub note_family : Option Bool → Waits → Waits
note_family none w = w
note_family (some true) w = record w { ipv4 = true }
note_family (some false) w = record w { ipv6 = true }

abbrev pub of_family : Bool → Option Bool → Bool
of_family is4 none = false
of_family true (some b) = b
of_family false (some b) = not b

module _ (p : IpParser) where
  unfoldable pub note_addresses : List String → Waits → Waits
  note_addresses [] w = w
  note_addresses (a ∷ rest) w = note_addresses rest (note_family (p.parse_ip a) w)

  unfoldable pub note_dhcp : NetworkDeviceSpec → Waits → Waits
  note_dhcp d w = record {
    ipv4 = if deref d.dhcp4 false then true else w.ipv4;
    ipv6 = if deref d.dhcp6 false then true else w.ipv6;
  }

  -- one turn of the loop, which is left early once both are waited for
  unfoldable pub note_device : NetworkDeviceSpec → Waits → Waits
  unfolding note_addresses note_dhcp
  note_device d w = if w.ipv4 && w.ipv6 then w else note_dhcp d (note_addresses d.ip_addrs w)

  unfoldable pub waits : List NetworkDeviceSpec → Waits → Waits
  unfolding note_device
  waits [] w = w
  waits (d ∷ ds) w = waits ds (note_device d w)

  -- some static address of the device is of the family
  unfoldable pub has_family : Bool → List String → Bool
  has_family is4 [] = false
  has_family is4 (a ∷ rest) = of_family is4 (p.parse_ip a) || has_family is4 rest

  unfoldable pub some_ipv4 : List NetworkDeviceSpec → Bool
  some_ipv4 [] = false
  some_ipv4 (d ∷ ds) = (has_family true d.ip_addrs || deref d.dhcp4 false) || some_ipv4 ds

  unfoldable pub some_ipv6 : List NetworkDeviceSpec → Bool
  some_ipv6 [] = false
  some_ipv6 (d ∷ ds) = (has_family false d.ip_addrs || deref d.dhcp6 false) || some_ipv6 ds

  note_addresses-has_family :
      (l : List String) (w : Waits)
      → ((note_addresses l w).ipv4 ≡ (w.ipv4 || has_family true l))
        × ((note_addresses l w).ipv6 ≡ (w.ipv6 || has_family false l))
  unfolding note_addresses has_family
  note_addresses-has_family [] w = ground arith
  note_addresses-has_family (a ∷ rest) w =
      ground (arith, note_addresses-has_family rest (note_family (p.parse_ip a) w))

  -- GetMachineMetadata waits for IPv4 exactly where it did before or some device has a static
  -- address of IPv4 or DHCP for it, and likewise for IPv6: leaving the loop early loses nothing.
  pub waits-some :
      (ds : List NetworkDeviceSpec) (w : Waits)
      → ((waits ds w).ipv4 ≡ (w.ipv4 || some_ipv4 ds))
        × ((waits ds w).ipv6 ≡ (w.ipv6 || some_ipv6 ds))
  unfolding waits note_device note_dhcp some_ipv4 some_ipv6
  waits-some [] w = ground arith
  waits-some (d ∷ ds) w =
      ground (arith, note_addresses-has_family d.ip_addrs w, waits-some ds (note_device d w))
