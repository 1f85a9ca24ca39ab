-- ===== src/Registry/Nats.antt =====
-- The NATS registry (registry/nats).
pub mod Util
pub mod Merge
pub mod State
pub mod Deregister
pub mod Query
pub mod Examples
