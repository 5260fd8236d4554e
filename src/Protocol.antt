-- ===== src/Protocol.antt =====
-- The root package: routes, versions, the signed envelope and the transport; and the relay's framing.
pub mod Route
pub mod Version
pub mod Framing
pub mod Conn
pub mod Padding
pub mod Serde
pub mod Transport
pub mod Network
pub mod Exchange
pub mod Challenge
pub mod Handshake
pub mod Introduction
pub mod Endpoint
