-- ===== src/Selector.antt =====
-- How a client picks a node: client/selector/label.
pub mod Label
pub mod Priority
pub mod Rotation
pub mod Shard
pub mod Scores
pub mod Examples
