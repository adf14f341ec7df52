-- ===== src/Ipam.antt =====
-- The addresses that IPAM gave the devices of a VM (pkg/services/govmomi/ipam: status.go, parse.go).
pub mod Parse
pub mod Configs
pub mod State
pub mod Gateways
pub mod Bound
pub mod Written
pub mod Complete
use cluster_api_provider_vsp.Prelude.{ℕ, String, Bool, Option, List}

-- `IPAddress`; the prefix length is an int32, and 0 where it is nil
pub record IpAddress : Type 0 where
  pub namespace : String
  pub name : String
  pub address : String
  pub prefix : Option ℕ
  pub gateway : String

-- `netip.Prefix`, by its text, which two prefixes have in common only if they are equal
pub record Prefix : Type 0 where
  pub text : String
  pub is4 : Bool

-- Go's net/netip, as this code uses it
pub record Netip : Type 0 where
  pub parse_prefix : String → Option Prefix
  -- `ParseAddr`, and whether the address `Is4`
  pub parse_addr : String → Option Bool

pub record IpamDeviceConfig : Type 0 where
  pub device_index : ℕ
  pub ipam_addresses : List IpAddress
  pub mac_address : String
  pub network_spec_gateway4 : String
  pub ipam_config_gateway4 : String
  pub network_spec_gateway6 : String
  pub ipam_config_gateway6 : String
