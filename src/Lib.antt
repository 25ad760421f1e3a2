-- ===== src/Lib.antt =====
-- voice-ai: the voice chain of the server (crates/voice_server), from the audio that a client sends over
-- a websocket, through speech recognition, the language model and speech synthesis, to the audio that is
-- sent back.
--
-- A session (crates/voice_server/src/session) collects the audio of an utterance and starts a pipeline for
-- it. The pipeline has the text of the utterance answered by the agent, whose memory holds the last
-- messages of each session, cuts the answer into sentences, cleans them of markup, has them synthesized
-- and fades the audio of each sentence into the next one.
--
-- Which file models which part:
--   Proto             crates/voice-proto/src/lib.rs: VoicePayload and its accessors.
--   Session           session/mod.rs, state.rs: VoiceSession, trigger_pipeline and the arms of
--                     on_payload_with_trace_id, one function for each; Session/Payload has the dispatch,
--                     Session/Audio the accumulator of audio.rs, Session/ClientMetrics the table of
--                     reports. Session/Invariant, Control and Utterance are proofs.
--   Session/Run       session/pipeline.rs: run_pipeline with its guards, in the monad of Pipeline/Stream.
--                     Run/Acts carries what holds of the steps over to the whole run, Run/Guarded and
--                     Run/Counted use it.
--   Recognition       utils/postprocess_utils.rs: parse_asr_text and format_asr_hint (Recognition/Parse),
--                     rich_transcription_postprocess (Recognition/Rich); Emotion and Plain are proofs.
--   Metrics           metrics.rs: the guard of a run, PipelineMetricsGuard (Metrics/Guard; Guard/Inner proofs).
--   Cancel            the cancellation tokens of tokio_util, a parameter with their documented behaviour.
--   Pipeline/Sentence pipeline/sentence.rs: next_sentence_end.
--   Pipeline/Text     pipeline/text.rs: to_tts_text, IncrementalTtsCleaner, TtsSentenceBuffer (Text/Buffer).
--                     Text/Emoji has the emojis of the Unicode standard, with which Text/Lines and
--                     Text/Shapes compare what is spoken.
--   Pipeline/LlmTts   pipeline/llm_tts.rs: llm_tts_items, one function for each loop and for each way of
--                     synthesis, in the monad of Pipeline/Stream (yielded items, variables, early return
--                     or panic). Tidy and Protocol are about the items, Fuel and FuelParts about the loops.
--   Client            events.rs, client/error.rs and the interfaces of client/tts.rs and client/llm.rs;
--                     Client/Sse the stream of server-sent events of client/llm.rs, Client/Think its
--                     filter of the reasoning, Client/Prompt its system prompt; Client/Wav the header
--                     that client/asr.rs writes.
--   Crossfade         pipeline/crossfade.rs: SentenceCrossfader.
--   Admin             admin_api/mod.rs: build_tts_sentence_stream (Admin/Tts), over the steps of
--                     Pipeline/LlmTts that it has in common with it; Admin/Same is a proof.
--   Agent/Chat        agent/llmagent.rs: LlmAgent::chat, one function for a pass over an answer, a round
--                     and the loop; Agent/Router has router.rs. Chat/Protocol, Outcome and Shown are proofs.
--   Agent/Memory      agent/memory.rs and redis_store.rs: the sliding window and its two stores behind the
--                     interface MemoryStore.
--   TtsWs             client/tts_ws.rs: TtsWs/Message the messages, TtsWs/Pool the pool of connections, one
--                     function for each section under a lock, TtsWs/Session and TtsWs/Events the methods
--                     of an input session and the synthesis of a whole text. Pool/Tasks interleaves the
--                     sections of any tasks; the other modules of Pool, and Uses, Discipline, Settled,
--                     Ended, Texts, Delivered, Flushed and Fuel are proofs.
--   Config            config.rs, with LogConfig of logging.rs: the sections and the connection they resolve
--                     to, Config/Defaults what stands in them where nothing is written, Config/Env
--                     apply_env_overrides, Config/Endpoint the address of synthesis, Config/Paths the
--                     path of the log file. Strong, Resolved and Climbs are proofs.
--   Base              shared notation and lemmas; modules named Tests hold examples.
--
-- Texts are lists of code points, bytes and machine integers are natural numbers, and instants are
-- nanoseconds. A counter of w bits wraps at 2^w; the number of the audio items panics there where the
-- assertions are compiled in. What a session sends, starts or counts is the list of effects that a
-- call returns; `none` is a panic of a slice or of the fader. What a run and a chat do is a list of
-- acts, in their order. A run reads the clock, its token and the mutex as functions of the number of
-- readings before, so that they may change between any two of its steps.
--
-- Fuel: strip_loop, sentence_loop, text_loop and send_remaining run on the length of their text. Each
-- round takes at least one character of it, so that more fuel changes nothing: Text/Inline,
-- LlmTts/Fuel and LlmTts/FuelParts are about that. The loop of synthesize runs on the number of frames
-- to come and two (TtsWs/Fuel). The loop of a chat runs on a number of rounds, two being enough
-- (Chat/Protocol), and push_loop of Client/Think on the length of the pending text (Think/Fuel).
-- send_remaining needs for it that the buffer holds no end of a sentence, as between two rounds of the
-- source.
--
-- Parameters: `f32` and `f64`, the Unicode property of letters and digits, base64, cancellation
-- tokens, Redis and its codec, JSON, the environment, the order of a hash set, the two clients of the
-- agent, the recognition, the synthesis client and the answers of the language model. The items that a
-- run reads are a parameter of it too: they are those of Pipeline/LlmTts. Not modelled: logging and
-- tracing, the sinks of the metrics, HTTP and websocket transport, serialization, the reading of
-- configuration files, the HTTP handlers of the administration API, the handshake of a synthesis
-- connection, and sentence_postprocess, which no part of the server calls.
mod Base
pub mod Crossfade
pub mod Agent
pub mod Proto
pub mod Cancel
pub mod Client
pub mod Recognition
pub mod Session
pub mod Metrics
pub mod Pipeline
pub mod Admin
pub mod TtsWs
pub mod Config
