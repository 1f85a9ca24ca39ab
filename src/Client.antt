-- ===== src/Client.antt =====
-- The clients.
pub mod Http
