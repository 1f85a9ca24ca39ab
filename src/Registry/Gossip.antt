-- ===== src/Registry/Gossip.antt =====
-- The gossip registry over memberlist (registry/gossip).
pub mod State
pub mod Run
pub mod Members
pub mod Watcher
pub mod Stored
pub mod Refinement
pub mod Expiry
pub mod Channel
pub mod Examples
