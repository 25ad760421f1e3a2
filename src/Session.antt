-- ===== src/Session.antt =====
-- crates/voice_server/src/session/mod.rs: a session, and what it does with each payload of the client.
-- What a call starts or sends is the list of effects that it returns, in order. The clients, the sink of the
-- metrics and the address of the websocket are behind these effects; logging is left out.
pub mod Audio
pub mod ClientMetrics
pub mod Payload
pub mod Invariant
pub mod Utterance
pub mod Control
pub mod Run
mod Tests
use voice_ai.Base.{
  ℕ, ◌+◌, ◌*◌, ◌%◌, ◌^◌, max, Bool, true, false, not, ◌&&◌, ◌||◌, Option, none, some, List, [], ◌∷◌,
  ◌++◌, length, is_empty, ltb, leb, ◌==◌, if◌then◌else◌, Str, codes, trim, decimal, unwrap_or,
  or_else,
}
use voice_ai.Proto.{
  ClientMetricKind, first_audio_received_to_playback, input_end_to_final_audio_sent, VoicePayload,
  session_start, session_end, interrupt, retry, playback_started, client_metric_report, audio_chunk,
  llm_delta,
}
use voice_ai.Cancel.{CancelTokens}
use Audio
use Audio.{AudioAccumulator, max_utterance_ms, max_audio_bytes, min_utterance_bytes}
use ClientMetrics.{Reported, remember_client_metric_once}

pub data SessionState : Type 0 where
  idle listening processing speaking : SessionState

-- `f64`, as far as the reports of the client need it; `from_secs` is `Duration::from_secs_f64`, in
-- nanoseconds.
pub record DoubleOps : Type 1 where
  pub F64 : Type 0
  pub is_finite : F64 → Bool
  pub le : F64 → F64 → Bool
  pub of_nat : ℕ → F64
  pub div : F64 → F64 → F64
  pub from_secs : F64 → ℕ

-- The readings of the clock in one call, in the order of the source.
pub record Clock : Type 0 where
  pub received : ℕ
  pub first : ℕ
  pub pushed : ℕ
  pub checked : ℕ
  pub triggered : ℕ

-- `voice.filter(|s| !s.trim().is_empty())`
unfoldable pub filter_voice : Option Str → Option Str
filter_voice none = none
filter_voice (some v) = if is_empty (trim v) then none else some v

abbrev pub heard : SessionState → SessionState
heard idle = listening
heard other = other

-- `u64::wrapping_add(1).max(1)`
unfoldable pub next_id : ℕ → ℕ
next_id n = max ((n + 1) % 2 ^ 64) 1

module _ (ct : CancelTokens) where
  open ct use {World, Token}

  -- `tokens` is the state of the program's tokens, and `current_real_cancel` the content of the
  -- shared mutex, both at the time of the call.
  pub record VoiceSession : Type 0 where
    pub session_id : Str
    pub state : SessionState
    pub closed : Bool
    pub tokens : World
    pub global_cancel : Token
    pub current_real_cancel : Option Token
    pub next_request_id : ℕ
    pub client_metrics_reported : Reported
    pub trace_id : Str
    pub audio_buf : AudioAccumulator
    pub input_started_at : Option ℕ
    pub last_request_audio : Option (List ℕ)
    pub current_message_id : Option Str
    pub last_request_message_id : Option Str
    pub sample_rate : ℕ
    pub channels : ℕ
    pub client_voice : Option Str

  -- The arguments of `run_pipeline` that the session chooses.
  pub record PipelineArgs : Type 0 where
    pub session_id : Str
    pub request_id : ℕ
    pub message_id : Str
    pub audio : List ℕ
    pub sample_rate : ℕ
    pub channels : ℕ
    pub client_voice : Option Str
    pub cancel : Token
    pub input_started_at : ℕ
    pub input_ended_at : ℕ

module _ (ct : CancelTokens) (fl : DoubleOps) where
  pub data Effect : Type 0 where
    sends : VoicePayload fl.F64 → Effect
    spawns : PipelineArgs ct → Effect
    request_retried : Effect
    observes_playback observes_final_audio_sent : ℕ → Effect

  -- `new_with_metrics`, with the instant and the trace id that it draws.
  unfoldable pub new_session : ct.World → Str → ℕ → Str → VoiceSession ct
  new_session w session_id now trace_id =
      let (tokens, global) = ct.new_token w in
      record {
        session_id = session_id;
        state = idle;
        closed = false;
        tokens = tokens;
        global_cancel = global;
        current_real_cancel = none;
        next_request_id = 0;
        client_metrics_reported = [];
        trace_id = trace_id;
        audio_buf = Audio.new now;
        input_started_at = none;
        last_request_audio = none;
        current_message_id = none;
        last_request_message_id = none;
        sample_rate = 0;
        channels = 0;
        client_voice = none;
      }

  -- The request that a trigger makes of the buffer; `fresh` is the trace id that a call of
  -- `new_trace_id` would draw.
  unfoldable pub pipeline_args :
      VoiceSession ct → (input_ended_at now : ℕ) (fresh : Str) → PipelineArgs ct
  pipeline_args s input_ended_at now fresh = record {
    session_id = s.session_id;
    request_id = next_id s.next_request_id;
    message_id = unwrap_or (or_else s.current_message_id s.last_request_message_id) fresh;
    audio = (Audio.drain s.audio_buf).1;
    sample_rate = s.sample_rate;
    channels = s.channels;
    client_voice = s.client_voice;
    cancel = (ct.child_token s.tokens s.global_cancel).1;
    input_started_at = unwrap_or s.input_started_at now;
    input_ended_at = input_ended_at;
  }

  unfoldable pub trigger_pipeline :
      VoiceSession ct → (input_ended_at now : ℕ) (fresh : Str) → VoiceSession ct × List Effect
  unfolding pipeline_args
  trigger_pipeline s input_ended_at now fresh =
      let args = pipeline_args s input_ended_at now fresh in
      let drained : VoiceSession ct = record s {
        next_request_id = args.request_id;
        input_started_at = none;
        audio_buf = (Audio.drain s.audio_buf).0;
        current_message_id = none;
      } in
      if ltb (length args.audio) min_utterance_bytes then (drained, []) else (
        record drained {
          last_request_audio = some args.audio;
          last_request_message_id = some args.message_id;
          tokens = (ct.child_token s.tokens s.global_cancel).0;
          state = listening;
        },
        spawns args ∷ [],
      )

  unfoldable pub on_session_start :
      VoiceSession ct → (sample_rate channels : ℕ) (voice : Option Str) → VoiceSession ct
  on_session_start s sample_rate channels voice = record s {
    sample_rate = sample_rate;
    channels = channels;
    client_voice = filter_voice voice;
    state = listening;
  }

  -- The bytes of a chunk, and the id of the utterance with its first bytes.
  unfoldable pub buffer_chunk : VoiceSession ct → Clock → List ℕ → Str → VoiceSession ct
  buffer_chunk s clock bytes message_id =
      let first = Audio.len s.audio_buf == 0 in
      let named = if is_empty message_id then s.trace_id else message_id in
      record s {
        state = heard s.state;
        input_started_at = if first then some clock.first else s.input_started_at;
        current_message_id = if first then some named else s.current_message_id;
        audio_buf = Audio.push s.audio_buf bytes clock.pushed;
      }

  unfoldable pub on_audio_chunk :
      VoiceSession ct
      → Clock
      → (fresh : Str) (bytes : List ℕ) (is_last : Bool) (message_id : Str)
      → VoiceSession ct × List Effect
  on_audio_chunk s clock fresh bytes is_last message_id =
      let b = buffer_chunk s clock bytes message_id in
      let done = trigger_pipeline b clock.received clock.triggered fresh in
      if is_last
        || leb max_utterance_ms (Audio.elapsed_ms b.audio_buf clock.checked)
        || leb max_audio_bytes (Audio.len b.audio_buf)
      then done
      else (b, [])

  -- `global_cancel` is cancelled and made anew, and no pipeline is the current one.
  unfoldable pub cancel_all : VoiceSession ct → VoiceSession ct
  cancel_all s =
      let (tokens, global) = ct.new_token (ct.cancel s.tokens s.global_cancel) in
      record s { tokens = tokens; global_cancel = global; current_real_cancel = none }

  unfoldable pub on_interrupt : VoiceSession ct → VoiceSession ct × List Effect
  unfolding cancel_all
  on_interrupt s = (
    record (cancel_all s) { state = listening },
    sends (llm_delta s.session_id (codes "[已打断]") true (unwrap_or s.last_request_message_id []))
        ∷ [],
  )

  -- The session whose trigger replays a request.
  unfoldable pub replay : VoiceSession ct → Clock → List ℕ → VoiceSession ct
  replay s clock audio = record (cancel_all s) {
    input_started_at = some clock.first;
    audio_buf = Audio.push (Audio.drain s.audio_buf).0 audio clock.pushed;
    current_message_id = s.last_request_message_id;
  }

  unfoldable pub on_retry : VoiceSession ct → Clock → (fresh : Str) → VoiceSession ct × List Effect
  on_retry s clock fresh = elim s.last_request_audio [
    | none ↦ (s, request_retried ∷ [])
    | some audio ↦
        let (after, effects) =
          trigger_pipeline (replay s clock audio) clock.checked clock.triggered fresh in
        (after, request_retried ∷ effects)
  ]
