-- ===== src/Machine.antt =====
-- The helpers on machines (pkg/util/machines.go).
pub mod ProviderId
pub mod RoundTrip
pub mod Message
pub mod Metadata
