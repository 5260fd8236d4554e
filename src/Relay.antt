-- ===== src/Relay.antt =====
-- The relay server: its session table, its hub and its rate limiter (cmd/relay/internal).
pub mod Token
pub mod Session
pub mod Hub
pub mod RateLimit
