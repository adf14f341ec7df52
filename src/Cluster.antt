-- ===== src/Cluster.antt =====
-- The controllers of a VSphereCluster (controllers/clustermodule_reconciler.go,
-- controllers/vspherecluster_reconciler.go).
pub mod Modules
pub mod Reconcile
pub mod Object
pub mod Zones
pub mod Identity
pub mod Writes
pub mod Controller
pub mod Listed
pub mod Outcomes
pub mod Provisioned
