-- ===== src/Wrapper.antt =====
-- Client wrappers (wrapper/).
pub mod Select
pub mod Breaker
