-- ===== src/Webhook.antt =====
-- The admission webhooks: what they answer is the list of the errors, none of which admits the
-- object (internal/webhooks, internal/webhooks/vmware).
pub mod Vlans
pub mod Network
pub mod Maps
pub mod Machine
pub mod Updates
use cluster_api_provider_vsp.Prelude.{ℕ, String, Bool, Option, List}

-- An interface: the `schema.GroupVersionKind` of its network by its text, and the fields that are
-- only compared as one value.
pub record NetworkInterface : Type 0 where
  pub name : String
  pub network_gvk : String
  pub other_fields : String

-- `VLANs` of a VSphereMachine: the ID is an int32, which the API server keeps from 1 to 4094
pub record Vlan : Type 0 where
  pub name : String
  pub link : String
  pub id : Option ℕ

-- `VSphereMachineNetworkSpec`; the primary interface is there where it is defined
pub record MachineNetwork : Type 0 where
  pub primary : Option NetworkInterface
  pub secondary : List NetworkInterface
  pub vlans : List Vlan

-- the feature gates that the webhooks ask for
pub record Gates : Type 0 where
  pub multi_networks : Bool
  pub vlan_subinterface : Bool
  pub infrastructure_policies : Bool
