-- ===== src/Broker/Http.antt =====
-- The point-to-point HTTP broker (broker/http/http.go).
pub mod State
pub mod Inbox
pub mod Publish
pub mod Delivery
pub mod Backlog
pub mod Subscribers
pub mod Serve
pub mod Lifecycle
pub mod Shutdown
pub mod Locking
pub mod Examples
