-- ===== src/Protocol.antt =====
-- crates/protocol: how the desktop and the supervisor talk to each other.
pub mod Bytes
pub mod Handshake
pub mod Nonces
pub mod Frame
pub mod Samples
