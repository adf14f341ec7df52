-- ===== src/Ipam/State.antt =====
-- The network of each device, from its addresses (pkg/services/govmomi/ipam/status.go: BuildState,
-- and prefixesAsStrings of parse.go).
use cluster_api_provider_vsp.Prelude.{
  String, Bool, true, false, Option, none, some, List, [], ◌∷◌, ◌++◌, str_eq, is_nil, if◌then◌else◌,
  insert,
}
use cluster_api_provider_vsp.Errors.{Error, Outcome, ok, err, errorf}
use cluster_api_provider_vsp.Api.{NetworkDeviceSpec, NetworkStatus}
use cluster_api_provider_vsp.Ipam.{IpAddress, Prefix, Netip, IpamDeviceConfig}
use cluster_api_provider_vsp.Ipam.Parse.{parse_address_with_prefix, parse_gateway}
use cluster_api_provider_vsp.Ipam.Configs.{ClaimStore, build_ipam_device_configs}

unfoldable pub contains : Prefix → List Prefix → Bool
contains p [] = false
contains p (q ∷ qs) = let rest = contains p qs in if str_eq q.text p.text then true else rest

unfoldable pub prefixes_as_strings : List Prefix → List String
prefixes_as_strings [] = []
prefixes_as_strings (p ∷ ps) = p.text ∷ prefixes_as_strings ps

-- what the loop over the addresses of a device keeps
pub record Parsing : Type 0 where
  pub config : IpamDeviceConfig
  pub prefixes : List Prefix
  pub errors : List Error

abbrev pub add_error : Error → Parsing → Parsing
add_error e s = record s { errors = s.errors ++ (e ∷ []) }

abbrev pub note_gateway : IpAddress → Option Bool → IpamDeviceConfig → IpamDeviceConfig
note_gateway a none c = c
note_gateway a (some true) c = record c { ipam_config_gateway4 = a.gateway }
note_gateway a (some false) c = record c { ipam_config_gateway6 = a.gateway }

abbrev pub add_prefix : IpAddress → Prefix → Parsing → Outcome (Option Bool) → Parsing
add_prefix a p s (err e) = add_error e s
add_prefix a p s (ok gateway) = record {
  config = note_gateway a gateway s.config;
  prefixes = s.prefixes ++ (p ∷ []);
  errors = s.errors;
}

-- the texts of the errors, joined by line breaks
abbrev pub joined_errors : Error
joined_errors = errorf "\n"

-- a device with the fields that BuildState sets
abbrev pub ipam_device_spec : List String → String → String → NetworkDeviceSpec
ipam_device_spec ip_addrs gateway4 gateway6 = record {
  dhcp4 = none;
  dhcp6 = none;
  gateway4 = gateway4;
  gateway6 = gateway6;
  ip_addrs = ip_addrs;
  mac_addr = "";
  routes = [];
  addresses_from_pools = [];
  skip_ip_allocation = none;
}

module _ (n : Netip) where
  abbrev pub with_prefix : IpAddress → Parsing → Outcome Prefix → Parsing
  with_prefix a s (err e) = add_error e s
  with_prefix a s (ok p) =
      if contains p s.prefixes
      then add_error (errorf "IPAddress %s/%s is a duplicate of another address: %q") s
      else add_prefix a p s (parse_gateway n a p s.config)

  -- one turn of the inner loop
  unfoldable pub parse_address : IpAddress → Parsing → Parsing
  unfolding parse_address_with_prefix parse_gateway contains
  parse_address a s = with_prefix a s (parse_address_with_prefix n a)

  unfoldable pub parse_addresses : List IpAddress → Parsing → Parsing
  unfolding parse_address
  parse_addresses [] s = s
  parse_addresses (a ∷ rest) s = parse_addresses rest (parse_address a s)

  abbrev pub start_parsing : IpamDeviceConfig → List Error → Parsing
  start_parsing c errors = record { config = c; prefixes = []; errors = errors }

  abbrev pub with_device :
      Parsing → List (String × NetworkDeviceSpec) → List (String × NetworkDeviceSpec)
  with_device s state =
      if is_nil s.prefixes
      then state
      else insert s.config.mac_address
          (ipam_device_spec (prefixes_as_strings s.prefixes) s.config.ipam_config_gateway4
            s.config.ipam_config_gateway6)
          state

  -- the outer loop
  unfoldable pub parse_configs :
      List IpamDeviceConfig
      → List Error
      → List (String × NetworkDeviceSpec)
      → List (String × NetworkDeviceSpec) × List Error
  unfolding parse_addresses prefixes_as_strings
  parse_configs [] errors state = (state, errors)
  parse_configs (c ∷ cs) errors state =
      let parsed = parse_addresses c.ipam_addresses (start_parsing c errors) in
      parse_configs cs parsed.errors (with_device parsed state)

  abbrev pub answer :
      List (String × NetworkDeviceSpec) × List Error
      → List (String × NetworkDeviceSpec) × Option Error
  answer (state, []) = (state, none)
  answer (state, e ∷ es) = (state, some joined_errors)

  abbrev pub state_of :
      Outcome (List IpamDeviceConfig) → List (String × NetworkDeviceSpec) × Option Error
  state_of (err e) = ([], some e)
  state_of (ok configs) = answer (parse_configs configs [] [])

  -- the state by MAC addresses, and the error
  unfoldable pub build_state :
      ClaimStore
      → String
      → List NetworkDeviceSpec
      → List NetworkStatus
      → List (String × NetworkDeviceSpec) × Option Error
  unfolding parse_configs build_ipam_device_configs
  build_state store vm devices statuses =
      state_of (build_ipam_device_configs store vm devices statuses)
