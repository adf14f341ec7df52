-- ===== src/Ipam/Parse.antt =====
-- What is asked of one address of a device (pkg/services/govmomi/ipam/parse.go).
use Prim.Native.String.{◌++◌}
use cluster_api_provider_vsp.Prelude.{
  String, Bool, true, false, not, ◌&&◌, Option, none, some, deref, is_empty, str_eq, if◌then◌else◌,
}
use cluster_api_provider_vsp.Errors.{Outcome, ok, err, errorf}
use cluster_api_provider_vsp.Decimal.{decimal}
use cluster_api_provider_vsp.Ipam.{IpAddress, Prefix, Netip, IpamDeviceConfig}

-- equality of Booleans
abbrev pub same : Bool → Bool → Bool
same true b = b
same false b = not b

abbrev pub parsed_prefix : Option Prefix → Outcome Prefix
parsed_prefix (some p) = ok p
parsed_prefix none = err (errorf "IPAddress %s/%s has invalid ip address: %q")

-- a gateway that is not set agrees with any
unfoldable pub are_gateways_mismatched : String → String → Bool
are_gateways_mismatched device_gateway ip_address_gateway =
    not (is_empty device_gateway) && not (str_eq device_gateway ip_address_gateway)

unfoldable pub check_gateway4 : IpamDeviceConfig → String → Outcome (Option Bool)
unfolding are_gateways_mismatched
check_gateway4 c gateway =
    if are_gateways_mismatched c.network_spec_gateway4 gateway
    then err (
        errorf
          "the IPv4 Gateway for IPAddress %s does not match the Gateway4 already configured on device (index %d)")
    else (if are_gateways_mismatched c.ipam_config_gateway4 gateway
        then err (
            errorf
              "the IPv4 IPAddresses assigned to the same device (index %d) do not have the same gateway")
        else ok (some true))

unfoldable pub check_gateway6 : IpamDeviceConfig → String → Outcome (Option Bool)
unfolding are_gateways_mismatched
check_gateway6 c gateway =
    if are_gateways_mismatched c.network_spec_gateway6 gateway
    then err (
        errorf
          "the IPv6 Gateway for IPAddress %s does not match the Gateway6 already configured on device (index %d)")
    else (if are_gateways_mismatched c.ipam_config_gateway6 gateway
        then err (
            errorf
              "the IPv6 IPAddresses assigned to the same device (index %d) do not have the same gateway")
        else ok (some false))

abbrev pub by_family : IpamDeviceConfig → String → Bool → Option Bool → Outcome (Option Bool)
by_family c gateway address4 none = err (errorf "IPAddress %s/%s has invalid gateway: %q")
by_family c gateway address4 (some gateway4) =
    if same address4 gateway4
    then (if gateway4 then check_gateway4 c gateway else check_gateway6 c gateway)
    else err (errorf "IPAddress %s/%s has mismatched gateway and address IP families")

module _ (n : Netip) where
  unfoldable pub parse_address_with_prefix : IpAddress → Outcome Prefix
  parse_address_with_prefix a =
      parsed_prefix (n.parse_prefix (a.address ++ "/" ++ decimal (deref a.prefix 0)))

  -- no gateway, or whether it is an IPv4 address
  unfoldable pub parse_gateway : IpAddress → Prefix → IpamDeviceConfig → Outcome (Option Bool)
  unfolding check_gateway4 check_gateway6
  parse_gateway a p c =
      if is_empty a.gateway then ok none else by_family c a.gateway p.is4 (n.parse_addr a.gateway)
