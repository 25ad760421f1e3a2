-- ===== src/TtsWs/Message.antt =====
-- crates/voice_server/src/client/tts_ws.rs: the messages that are sent and the control messages received.
-- Their JSON is a parameter where a message is read, and left out where one is written.
use voice_ai.Base.{
  ℕ, Bool, true, Option, none, some, List, ◌++◌, ◌⊎◌, inl, inr, unwrap_or, or_else, if◌then◌else◌,
  Str, ◌is◌, str_eq, codes,
}
use voice_ai.Client.{Result, ok, err, decode}

pub record TtsWsConfig : Type 0 where
  pub voice : Option Str
  pub task_type : Option Str
  pub language : Option Str
  pub instructions : Option Str
  pub response_format : Str
  pub sample_rate : Option ℕ
  pub channels : ℕ
  pub ref_audio : Option Str
  pub ref_text : Option Str
  pub max_new_tokens : Option ℕ
  pub stream_audio : Bool
  pub timeout : ℕ
  pub max_connections : ℕ

-- Its number for the speed of speech is left out, as in `TtsWsConfig`.
pub record SessionConfig : Type 0 where
  pub voice : Option Str
  pub task_type : Option Str
  pub language : Option Str
  pub instructions : Option Str
  pub response_format : Option Str
  pub ref_audio : Option Str
  pub ref_text : Option Str
  pub max_new_tokens : Option ℕ
  pub stream_audio : Option Bool
  pub sample_rate : Option ℕ

-- `bool::then_some`
abbrev pub then_some : Bool → Option Bool
then_some b = if b then some true else none

unfoldable pub session_config_with : TtsWsConfig → Option Str → SessionConfig
session_config_with cfg voice = record {
  voice = or_else voice cfg.voice;
  task_type = cfg.task_type;
  language = cfg.language;
  instructions = cfg.instructions;
  response_format = some cfg.response_format;
  ref_audio = cfg.ref_audio;
  ref_text = cfg.ref_text;
  max_new_tokens = cfg.max_new_tokens;
  stream_audio = then_some cfg.stream_audio;
  sample_rate = cfg.sample_rate;
}

-- What a client sends on a connection.
pub data ClientMessage : Type 0 where
  session_config : SessionConfig → ClientMessage
  input_text : Str → ClientMessage
  input_done session_close : ClientMessage

pub data ServerMessage : Type 0 where
  audio_start : ServerMessage
  audio : List ℕ → ServerMessage
  audio_done : (error : Bool) → ServerMessage
  session_done : ServerMessage
  error : Str → ServerMessage

pub record ControlEnvelope : Type 0 where
  pub kind : Str
  pub error : Bool
  pub message : Option Str

-- The arms of the match on the kind, in their order.
unfoldable pub control_message_of : ControlEnvelope → Result ServerMessage
control_message_of msg =
    if msg.kind is codes "audio.start"
    then ok audio_start
    else if msg.kind is codes "audio.done"
    then ok (audio_done msg.error)
    else if msg.kind is codes "session.done"
    then ok session_done
    else if msg.kind is codes "error"
    then ok (error (unwrap_or msg.message (codes "TTS WebSocket error")))
    else err (decode (codes "unknown TTS WebSocket message type: " ++ msg.kind))

-- `serde_json::from_str` gives an envelope or the text of its error.
unfoldable pub parse_control_message :
    (from_str : Str → ControlEnvelope ⊎ Str) → Str → Result ServerMessage
unfolding control_message_of
parse_control_message from_str value = elim (from_str value) [
  | inl msg ↦ control_message_of msg
  | inr e ↦ err (decode (codes "invalid TTS WebSocket message: " ++ e))
]
