-- ===== src/Broker.antt =====
-- The relay broker: the wire codec (pkg/relayconn/broker/codec.go), the server
-- (cmd/relay/internal/broker/broker.go) and the peer's side (pkg/relayconn/broker/client.go).
pub mod Codec
pub mod Crypto
pub mod Client
pub mod Server
