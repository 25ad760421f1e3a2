-- ===== src/Recognition.antt =====
-- crates/voice_server/src/utils/postprocess_utils.rs: what is made of the text of the recognition, with
-- its tags, before the language model sees it.
pub mod Parse
pub mod Rich
pub mod Emotion
pub mod Plain
mod Tests
