-- ===== src/Proto.antt =====
-- crates/voice-proto/src/lib.rs: the payloads of the websocket, and their accessors. `f64` is a
-- parameter of the type, and the msgpack codec is a library.
use voice_ai.Base.{ℕ, Bool, Option, none, some, List, Str}

pub data AgentPhase : Type 0 where
  listening transcribing searching composing speaking error : AgentPhase

pub data ClientMetricKind : Type 0 where
  first_audio_received_to_playback input_end_to_final_audio_sent : ClientMetricKind

pub data VoicePayload (F64 : Type 0) : Type 0 where
  session_start :
      (session_id : Str) (sample_rate channels : ℕ) (codec language : Str) (voice : Option Str)
      → VoicePayload F64
  session_end : (session_id reason : Str) → VoicePayload F64
  interrupt : (session_id : Str) → VoicePayload F64
  retry : (session_id : Str) → VoicePayload F64
  playback_started : (session_id message_id : Str) (request_id delay_ms : ℕ) → VoicePayload F64
  client_metric_report :
      (session_id message_id : Str) (metric : ClientMetricKind) (duration_ms : F64)
      → VoicePayload F64
  session_ack : (session_id : Str) (success : Bool) (message : Str) → VoicePayload F64
  audio_chunk :
      (session_id : Str) (seq timestamp_ms : ℕ) (bytes : List ℕ) (is_last : Bool) (message_id : Str)
      → VoicePayload F64
  asr_partial :
      (session_id text : Str) (is_final replace_last : Bool) (message_id : Str) → VoicePayload F64
  llm_delta : (session_id delta : Str) (is_final : Bool) (message_id : Str) → VoicePayload F64
  tts_audio :
      (session_id : Str) (seq : ℕ) (bytes : List ℕ) (is_last : Bool)
      (sample_rate channels : Option ℕ) (message_id : Str)
      → VoicePayload F64
  agent_status :
      (session_id : Str) (phase : AgentPhase) (label : Str) (tool : Option Str) (message_id : Str)
      (done : Bool)
      → VoicePayload F64
  error_payload : (code : ℕ) (message : Str) (message_id : Option Str) → VoicePayload F64

module _ {F64 : Type 0} where
  unfoldable pub session_id : VoicePayload F64 → Option Str
  session_id (session_start sid _ _ _ _ _) = some sid
  session_id (session_end sid _) = some sid
  session_id (interrupt sid) = some sid
  session_id (retry sid) = some sid
  session_id (playback_started sid _ _ _) = some sid
  session_id (client_metric_report sid _ _ _) = some sid
  session_id (session_ack sid _ _) = some sid
  session_id (audio_chunk sid _ _ _ _ _) = some sid
  session_id (asr_partial sid _ _ _ _) = some sid
  session_id (llm_delta sid _ _ _) = some sid
  session_id (tts_audio sid _ _ _ _ _ _) = some sid
  session_id (agent_status sid _ _ _ _ _) = some sid
  session_id (error_payload _ _ _) = none

  -- Only what goes down to the client carries the id of the utterance, as the accessor has it.
  unfoldable pub message_id : VoicePayload F64 → Option Str
  message_id (asr_partial _ _ _ _ mid) = some mid
  message_id (llm_delta _ _ _ mid) = some mid
  message_id (tts_audio _ _ _ _ _ _ mid) = some mid
  message_id (agent_status _ _ _ _ mid _) = some mid
  message_id (error_payload _ _ mid) = mid
  message_id (session_start _ _ _ _ _ _) = none
  message_id (session_end _ _) = none
  message_id (interrupt _) = none
  message_id (retry _) = none
  message_id (playback_started _ _ _ _) = none
  message_id (client_metric_report _ _ _ _) = none
  message_id (audio_chunk _ _ _ _ _ _) = none
  message_id (session_ack _ _ _) = none
