-- ===== src/Codec/JsonRpc2.antt =====
-- The JSON-RPC 2.0 codec (codec/jsonrpc2).
pub mod Json
pub mod Errors
pub mod Server
pub mod Members
pub mod Pending
pub mod Client
pub mod Correlation
pub mod Dispatch
pub mod Examples
