-- ===== src/Vm.antt =====
-- The VM service (pkg/services/govmomi): the state that its functions share, and the ways to call
-- the world from them.
pub mod Extra
pub mod Context
pub mod Calls
pub mod Task
pub mod Find
pub mod Power
pub mod Pci
pub mod Services
pub mod Update
pub mod Membership
pub mod Service
pub mod Destroy
