-- ===== src/TtsWs.antt =====
-- crates/voice_server/src/client/tts_ws.rs: synthesis over pooled websocket connections.
pub mod Message
pub mod Pool
pub mod Session
pub mod Events
pub mod Uses
pub mod Discipline
pub mod Settled
pub mod Ended
pub mod Texts
pub mod Delivered
pub mod Flushed
pub mod Fuel
mod Tests
