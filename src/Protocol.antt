-- ===== src/Protocol.antt =====
-- crates/atem-protocol: errors, the packet header, commands, reliable delivery, the handshake.
pub mod Error
pub mod Packet
pub mod Command
pub mod Classify
pub mod Session
pub mod Reliable
pub mod Outbound
pub mod Link
