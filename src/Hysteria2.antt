-- ===== src/Hysteria2.antt =====
-- src/hysteria2: the Hysteria2 client and server.
pub mod Protocol
pub mod Packet
pub mod Defragger
pub mod PacketConnection
pub mod Negotiation
pub mod Server
pub mod Masquerade
pub mod Client
pub mod Stream
pub mod Sessions
pub mod Configuration
pub mod Metrics
pub mod Opening
pub mod Login
