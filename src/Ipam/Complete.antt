-- ===== src/Ipam/Complete.antt =====
-- What BuildState has taken where it answers no error (pkg/services/govmomi/ipam/status.go).
use mathlib.Core.Path.{subst}
use cluster_api_provider_vsp.Prelude.{
  String, true, false, ◌≡◌, refl, ◌∙◌, sym, none, some, List, [], ◌∷◌, arith, is_nil, str_eq,
  eq_iff, lookup, lookup-insert,
}
use cluster_api_provider_vsp.Errors.{Error, Outcome, ok}
use cluster_api_provider_vsp.Api.{NetworkDeviceSpec, NetworkStatus}
use cluster_api_provider_vsp.Group.Names.{has}
use cluster_api_provider_vsp.Group.Order.{AreUnique}
use cluster_api_provider_vsp.Ipam.{IpAddress, Netip, IpamDeviceConfig}
use cluster_api_provider_vsp.Ipam.Configs.{ClaimStore, build_ipam_device_configs}
use cluster_api_provider_vsp.Ipam.State.{
  Parsing, prefixes_as_strings, parse_addresses, start_parsing, ipam_device_spec, with_device,
  parse_configs, answer, state_of, build_state,
}
use cluster_api_provider_vsp.Ipam.Gateways.{
  parse_addresses-errors, parse_addresses-AllAgree, parse_addresses-IsLater,
}
use cluster_api_provider_vsp.Ipam.Bound.{AreBound, build_configs-AreBound}
use cluster_api_provider_vsp.Ipam.Written.{
  strings-non_empty, macs, parse_addresses-texts, with_gateways, IsEntry, AreWritten, AllAgree-same,
}

module _ (n : Netip) where
  abbrev parsed_of : IpamDeviceConfig → List IpAddress → List Error → Parsing
  parsed_of c addresses errors = parse_addresses n addresses (start_parsing n c errors)

  -- what the writing of a device leaves under the keys of others
  with_device-other :
      (s : Parsing) (state : List (String × NetworkDeviceSpec)) (key : String)
      → str_eq s.config.mac_address key ≡ false
      → lookup key (with_device n s state) ≡ lookup key state
  with_device-other s state key h = ground (
    arith,
    h,
    lookup-insert s.config.mac_address key
        (ipam_device_spec (prefixes_as_strings s.prefixes) s.config.ipam_config_gateway4
          s.config.ipam_config_gateway6)
        state,
  )

  with_device-own :
      (s : Parsing) (state : List (String × NetworkDeviceSpec)) (key : String)
      → s.config.mac_address ≡ key
      → is_nil s.prefixes ≡ false
      → lookup key (with_device n s state)
        ≡ some (
            ipam_device_spec
              (prefixes_as_strings s.prefixes)
              s.config.ipam_config_gateway4
              s.config.ipam_config_gateway6)
  with_device-own s state key h k = ground (
    arith,
    h,
    k,
    eq_iff s.config.mac_address key,
    lookup-insert s.config.mac_address key
        (ipam_device_spec (prefixes_as_strings s.prefixes) s.config.ipam_config_gateway4
          s.config.ipam_config_gateway6)
        state,
  )

  with_device-IsEntry :
      (c : IpamDeviceConfig) (addresses : List IpAddress)
      (state : List (String × NetworkDeviceSpec))
      → is_nil (parsed_of c addresses []).errors ≡ true
      → IsEntry n c addresses
          (lookup c.mac_address (with_device n (parsed_of c addresses []) state))
  unfolding parse_addresses prefixes_as_strings
  with_device-IsEntry c [] state h = tt
  with_device-IsEntry c (a ∷ rest) state h =
      let s = parsed_of c (a ∷ rest) [] in
      let later = parse_addresses-IsLater n (a ∷ rest) (start_parsing n c []) in
      let written = parse_addresses-texts n (a ∷ rest) (start_parsing n c []) h in
      subst (IsEntry n c (a ∷ rest))
        (sym (
          with_device-own s state c.mac_address later.mac
            (strings-non_empty s.prefixes _ _ written)))
        (
          written,
          AllAgree-same n s.config
              (with_gateways n
                (ipam_device_spec (prefixes_as_strings s.prefixes) s.config.ipam_config_gateway4
                  s.config.ipam_config_gateway6)
                c)
              (a ∷ rest) refl refl (sym later.spec4) (sym later.spec6)
              (parse_addresses-AllAgree n (a ∷ rest) (start_parsing n c []) h),
        )

  -- the device's key is its own
  parse_configs-other :
      (cs : List IpamDeviceConfig) (errors : List Error) (state : List (String × NetworkDeviceSpec))
      (key : String)
      → has key (macs cs) ≡ false
      → lookup key ((parse_configs n cs errors state).0) ≡ lookup key state
  unfolding parse_configs has
  parse_configs-other [] errors state key h = refl
  parse_configs-other (c ∷ cs) errors state key h =
      let s = parsed_of c c.ipam_addresses errors in
      let later = parse_addresses-IsLater n c.ipam_addresses (start_parsing n c errors) in
      parse_configs-other cs s.errors (with_device n s state) key (ground (arith, h))
      ∙ with_device-other s state key (ground (arith, h, later.mac))

  parse_configs-errors :
      (cs : List IpamDeviceConfig) (errors : List Error) (state : List (String × NetworkDeviceSpec))
      → is_nil ((parse_configs n cs errors state).1) ≡ true
      → is_nil errors ≡ true
  unfolding parse_configs
  parse_configs-errors [] errors state h = h
  parse_configs-errors (c ∷ cs) errors state h =
      let parsed = parse_addresses n c.ipam_addresses (start_parsing n c errors) in
      parse_addresses-errors n c.ipam_addresses (start_parsing n c errors)
        (parse_configs-errors cs parsed.errors (with_device n parsed state) h)

  parse_configs-AreWritten :
      (cs : List IpamDeviceConfig) (errors : List Error) (state : List (String × NetworkDeviceSpec))
      → is_nil ((parse_configs n cs errors state).1) ≡ true
      → AreUnique (macs cs)
      → AreWritten n ((parse_configs n cs errors state).0) cs
  unfolding parse_configs
  parse_configs-AreWritten [] errors state h u = tt
  parse_configs-AreWritten (c ∷ cs) [] state h (own, u) =
      let s = parsed_of c c.ipam_addresses [] in
      let none_yet = parse_configs-errors cs s.errors (with_device n s state) h in
      (
        subst (IsEntry n c c.ipam_addresses)
            (sym (parse_configs-other cs s.errors (with_device n s state) c.mac_address own))
            (with_device-IsEntry c c.ipam_addresses state none_yet),
        parse_configs-AreWritten cs s.errors (with_device n s state) h u,
      )
  parse_configs-AreWritten (c ∷ cs) (e ∷ es) state h u =
      absurd (ground (arith, parse_configs-errors (c ∷ cs) (e ∷ es) state h))

  answer-AreWritten :
      (r : List (String × NetworkDeviceSpec) × List Error) (cs : List IpamDeviceConfig)
      → (answer n r).1 ≡ none
      → (is_nil r.1 ≡ true → AreWritten n r.0 cs)
      → AreWritten n (answer n r).0 cs
  answer-AreWritten (state, []) cs h k = k refl
  answer-AreWritten (state, e ∷ es) cs h k = absurd (cc h)

  state_of-AreWritten :
      (result : Outcome (List IpamDeviceConfig)) (configs : List IpamDeviceConfig)
      → result ≡ ok configs
      → AreUnique (macs configs)
      → (state_of n result).1 ≡ none
      → AreWritten n (state_of n result).0 configs
  state_of-AreWritten result configs h u =
      subst (λ r. (state_of n r).1 ≡ none → AreWritten n (state_of n r).0 configs) (sym h)
        λ k.
          answer-AreWritten (parse_configs n configs [] []) configs k
            λ e. parse_configs-AreWritten configs [] [] e u

  -- If the configurations of the devices are built, no two have one MAC address, and BuildState
  -- answers no error, then each device has as many addresses as it asks for, the MAC address that
  -- is reported for it, and the gateways of its spec, and in the state that is answered each device
  -- that has addresses has, under its MAC address, all of them in order with their prefix lengths,
  -- and for each family a gateway that is that of each of the addresses that has one, and the one
  -- of the device's spec, if it asks for one.
  pub build_state-AreWritten :
      (store : ClaimStore) (vm : String) (devices : List NetworkDeviceSpec)
      (statuses : List NetworkStatus) (configs : List IpamDeviceConfig)
      → build_ipam_device_configs store vm devices statuses ≡ ok configs
      → AreUnique (macs configs)
      → (build_state n store vm devices statuses).1 ≡ none
      → AreBound statuses 0 devices configs
        × AreWritten n (build_state n store vm devices statuses).0 configs
  unfolding build_state
  build_state-AreWritten store vm devices statuses configs h u k = (
    build_configs-AreBound store vm statuses devices configs h,
    state_of-AreWritten (build_ipam_device_configs store vm devices statuses) configs h u k,
  )
