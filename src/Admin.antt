-- ===== src/Admin.antt =====
-- crates/voice_server/src/admin_api: the handlers of the administration, as far as they are modelled.
pub mod Tts
pub mod Same
