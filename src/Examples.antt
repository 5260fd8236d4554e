-- ===== src/Examples.antt =====
-- The theorems at work on concrete values: a test instance of each kind of external code, and one
-- example for each theorem.
mod Broker
mod Relay
mod Protocol
mod Transport
mod Storage
mod Conn
mod RateLimit
pub mod Handshake
mod Played
mod Peers
mod Endpoint
mod Connection
