-- ===== src/Config/Endpoint.antt =====
-- crates/voice_server/src/config.rs: what `TtsConfig` makes of its fields.
use voice_ai.Base.{
  ℕ, Bool, ◌&&◌, ◌||◌, ◌==◌, Option, none, some, List, [], ◌∷◌, ◌++◌, is_empty, if◌then◌else◌, Str,
  str_eq, ◌is◌, codes, to_ascii_lowercase, starts_with, replace, lookup,
}
use voice_ai.Config.{Parsers, ProviderConfig, TtsConfig}
use voice_ai.Config as Config

pub record TtsModelFormat : Type 0 where
  pub sample_rate : Option ℕ
  pub channels : ℕ

abbrev pub tts_model_formats : List (Str × TtsModelFormat)
tts_model_formats =
    (
      codes "Qwen/Qwen3-TTS-12Hz-1.7B-CustomVoice",
      record { sample_rate = some 24000; channels = 1 },
    )
    ∷ []

abbrev pub format_or : Option TtsModelFormat → TtsModelFormat → TtsModelFormat
format_or none own = own
format_or (some known) own = known

abbrev pub trim_end_slashes : Str → Str
trim_end_slashes [] = []
trim_end_slashes (c ∷ s) =
    let rest = trim_end_slashes s in if c == b'/' && is_empty rest then [] else c ∷ rest

unfoldable pub ws_base : Str → Str
ws_base base =
    if starts_with (codes "ws://") base || starts_with (codes "wss://") base
    then base
    else replace (codes "http://") (codes "ws://")
        (replace (codes "https://") (codes "wss://") base)

module _ {ps : Parsers} where
  unfoldable pub model_format : TtsConfig ps → TtsModelFormat
  model_format c =
      format_or (lookup c.model tts_model_formats)
        (record { sample_rate = c.sample_rate; channels = c.channels })

  unfoldable pub resolved : TtsConfig ps → Option ProviderConfig → ProviderConfig × Str
  resolved c provider = (Config.resolved c.connection provider, codes "/audio/speech")

  unfoldable pub is_websocket : TtsConfig ps → Bool
  is_websocket c = to_ascii_lowercase c.transport is codes "websocket"

  unfoldable pub transport_kind : TtsConfig ps → Str
  transport_kind c = if is_websocket c then codes "websocket" else codes "http"

  unfoldable pub resolved_endpoint : TtsConfig ps → Option ProviderConfig → Str
  unfolding resolved transport_kind
  resolved_endpoint c provider =
      let (conn, path) = resolved c provider in
      let base = trim_end_slashes conn.api_base in
      if transport_kind c is codes "websocket"
      then ws_base base ++ replace (codes "/audio/speech") (codes "/audio/speech/stream") path
      else base ++ path
