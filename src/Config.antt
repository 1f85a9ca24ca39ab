-- ===== src/Config.antt =====
-- The sources of configuration.
pub mod Consul
