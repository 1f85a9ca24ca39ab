-- ===== src/Registry/Consul.antt =====
-- The Consul registry (registry/consul).
pub mod Tags
pub mod Format
pub mod RoundTrip
pub mod Agent
pub mod Checks
pub mod Find
pub mod Joined
pub mod Listing
pub mod Watch
pub mod Replay
pub mod Handlers
pub mod Listed
mod Examples
mod WatchExamples
