-- ===== src/Pipeline.antt =====
-- crates/voice_server/src/pipeline: from the audio of an utterance to the spoken answer.
pub mod Sentence
pub mod Stream
pub mod LlmTts
pub mod Text
