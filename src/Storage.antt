-- ===== src/Storage.antt =====
-- The parts of pkg/storage that keep the records of peers and sessions, on internal/engine.
pub mod Engine
pub mod PackedList
pub mod Times
pub mod Session
pub mod Peers
pub mod Chat
pub mod Records
