-- ===== src/Controller.antt =====
-- The VSphereVM controller (controllers/vspherevm_controller.go and vspherevm_ipaddress_reconciler.go).
pub mod Claims
pub mod Service
pub mod Reconcile
