-- ===== src/Netjack.antt =====
-- The network transport of common/netjack_packet.c, part by part.
pub mod Header
pub mod Packet
pub mod Send
pub mod Transfer
pub mod Cache
pub mod Midi
pub mod Render
pub mod Relay
mod Tests
