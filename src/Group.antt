-- ===== src/Group.antt =====
-- The VirtualMachineGroup of a cluster (controllers/vmware/virtualmachinegroup_reconciler.go): the
-- objects that the reconcile reads and writes, and the names that it derives from them.
pub mod Names
pub mod Placement
pub mod Members
pub mod Reconcile
pub mod Ready
pub mod Rules
pub mod Decisions
pub mod Order
pub mod Membership
pub mod Noted
pub mod Persistence
pub mod Writes
use cluster_api_provider_vsp.Prelude.{ℕ, String, Bool, Option, List}

-- `MachineDeployment`: `Spec.Replicas` is an int32, as its bit pattern.
pub record MachineDeployment : Type 0 where
  pub name : String
  pub is_deleted : Bool
  pub replicas : Option ℕ
  -- `Spec.Template.Spec.FailureDomain`
  pub failure_domain : String

-- `VSphereMachine` of the supervisor API
pub record VsphereMachine : Type 0 where
  pub name : String
  pub is_deleted : Bool
  pub labels : List (String × String)
  -- `Spec.Naming.Template`
  pub naming_template : String

pub record GroupMember : Type 0 where
  pub name : String
  pub kind : String

-- The PlacementReady condition of a member
pub record PlacementCondition : Type 0 where
  pub is_true : Bool
  pub reason : String
  pub message : String

-- An entry of `Status.Members`; `zone` is `Placement.Zone`, where `Placement` is not nil.
pub record MemberStatus : Type 0 where
  pub name : String
  pub placement_ready : Option PlacementCondition
  pub zone : Option String

pub record OwnerReference : Type 0 where
  pub kind : String
  pub name : String
  pub uid : String

pub record VirtualMachineGroup : Type 0 where
  pub name : String
  pub namespace : String
  pub labels : List (String × String)
  pub annotations : List (String × String)
  pub owner_references : List OwnerReference
  -- `Spec.BootOrder`, the members of each group of it
  pub boot_order : List (List GroupMember)
  -- `Status.Members`
  pub status_members : List MemberStatus

-- The CAPI Cluster
pub record GroupCluster : Type 0 where
  pub name : String
  pub namespace : String
  pub uid : String
  pub is_deleted : Bool
  pub control_plane_initialized : Bool
