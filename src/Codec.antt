-- ===== src/Codec.antt =====
-- The message codecs.
pub mod JsonRpc2
pub mod MsgpackRpc
