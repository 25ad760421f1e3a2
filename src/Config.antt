-- ===== src/Config.antt =====
-- crates/voice_server/src/config.rs, and the level and file of logging.rs: the sections of the
-- configuration, the connection that a section resolves to, and the environment variables over it.
-- Reading YAML is left out; `f64` and `f32` with their parsing and a JSON object are parameters.
pub mod Env
pub mod Defaults
mod Tests
pub mod Resolved
pub mod Paths
pub mod Climbs
pub mod Endpoint
pub mod Strong
use voice_ai.Base.{
  ℕ, ◌+◌, ◌-◌, ◌*◌, ◌^◌, ltb, leb, Bool, true, false, ◌&&◌, ◌||◌, Option, none, some, List, [], ◌∷◌,
  ◌++◌, unwrap_or, is_empty, if◌then◌else◌, Str, str_eq, ◌is◌, codes, insert,
}

pub record Parsers : Type 1 where
  pub F32 : Type 0
  pub F64 : Type 0
  pub parse_f64 : Str → Option F64
  pub json_object : Str → Option (List (Str × Str))

-- A `HashMap` of texts; its order is the order in which it is iterated.
abbrev pub Headers : Type 0
Headers = List (Str × Str)

pub record ProviderConfig : Type 0 where
  pub api_base : Str
  pub api_key : Str
  pub timeout_ms : ℕ
  pub headers : Headers

abbrev pub default_timeout_ms : ℕ
default_timeout_ms = 30000

abbrev pub default_provider : ProviderConfig
default_provider = record {
  api_base = [];
  api_key = [];
  timeout_ms = default_timeout_ms;
  headers = [];
}

-- The fields of a section that override those of the provider.
pub record Connection : Type 0 where
  pub api_base : Str
  pub api_key : Str
  pub timeout_ms : Option ℕ
  pub headers : Headers

abbrev pub or_provider : Str → Str → Str
or_provider own inherited = if is_empty own then inherited else own

-- `for (k, v) in &self.headers { h.insert(k.clone(), v.clone()); }`
abbrev pub insert_all : Headers → Headers → Headers
insert_all [] h = h
insert_all ((k, v) ∷ more) h = insert_all more (insert k v h)

-- `resolved`, which the three sections have alike.
unfoldable pub resolved : Connection → Option ProviderConfig → ProviderConfig
resolved c provider =
    let p = unwrap_or provider default_provider in
    record {
      api_base = or_provider c.api_base p.api_base;
      api_key = or_provider c.api_key p.api_key;
      timeout_ms = unwrap_or c.timeout_ms p.timeout_ms;
      headers = insert_all c.headers p.headers;
    }

pub data LogFormat : Type 0 where
  text json : LogFormat

pub record LogConfig : Type 0 where
  pub level : Str
  pub file : Str
  pub format : LogFormat
  pub also_stdout : Bool
  pub with_location : Bool
  pub max_size_bytes : ℕ
  pub max_files : ℕ

pub record RedisConfig : Type 0 where
  pub url : Option Str
  pub default_ttl_secs : ℕ

pub record AgentConfig : Type 0 where
  pub memory_backend : Str
  pub memory_window : ℕ
  pub memory_ttl_secs : Option ℕ

pub record ServerConfig : Type 0 where
  pub port : ℕ
  pub worker_num : ℕ

pub record AsrConfig : Type 0 where
  pub connection : Connection
  pub model : Str
  pub language : Option Str
  pub response_format : Option Str
  pub spk : Option Bool
  pub tags : Option Bool

module _ (ps : Parsers) where
  pub record LlmConfig : Type 0 where
    pub connection : Connection
    pub model : Str
    pub max_completion_tokens : Option ℕ
    pub temperature : Option ps.F64
    pub top_p : Option ps.F64
    pub top_k : Option ℕ
    pub reasoning_effort : Option Str
    pub include_usage : Bool

  pub record TtsConfig : Type 0 where
    pub connection : Connection
    pub model : Str
    pub voice : Str
    pub response_format : Str
    pub stream : Bool
    pub sample_rate : Option ℕ
    pub channels : ℕ
    pub speed : Option ps.F32
    pub task_type : Option Str
    pub language : Option Str
    pub instructions : Option Str
    pub max_new_tokens : Option ℕ
    pub initial_codec_chunk_frames : Option ℕ
    pub non_streaming_mode : Option Bool
    pub stream_format : Option Str
    pub ref_audio : Option Str
    pub ref_text : Option Str
    pub x_vector_only_mode : Option Bool
    pub transport : Str
    pub max_connections : ℕ

  pub record VoiceConfig : Type 0 where
    pub log : LogConfig
    pub server : ServerConfig
    pub provider : Option ProviderConfig
    pub asr : AsrConfig
    pub llm : LlmConfig
    pub llm_strong : Option LlmConfig
    pub tts : TtsConfig
    pub redis : RedisConfig
    pub agent : AgentConfig
