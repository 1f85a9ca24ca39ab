-- ===== src/Transport.antt =====
-- The transports.
pub mod Nats
