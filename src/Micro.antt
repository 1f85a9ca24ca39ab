-- ===== src/Micro.antt =====
-- Plugins of the micro toolkit (micro/).
pub mod Router
pub mod IpAllow
