-- ===== src/Metrics.antt =====
-- crates/voice_server/src/metrics.rs: why a chat goes on to the strong model, and the guard of a run.
pub mod Guard

pub data EscalationReason : Type 0 where
  timeout empty_response provider_error : EscalationReason
