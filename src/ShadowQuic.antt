-- ===== src/ShadowQuic.antt =====
-- src/shadowquic/mod.rs: the ShadowQuic and SunnyQuic streams and datagrams.
pub mod Wire
pub mod Udp
pub mod Server
pub mod Client
pub mod PacketConnection
pub mod Extension
pub mod Configuration
pub mod Connection
