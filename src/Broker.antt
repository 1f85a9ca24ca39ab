-- ===== src/Broker.antt =====
-- The message brokers.
pub mod Http
pub mod Grpc
