-- ===== src/Config/Tests.antt =====
-- The configuration under concrete environments.
use voice_ai.Base.{
  ◌≡◌, refl, true, false, Option, none, some, [], Str, str_eq, ◌is◌, codes, Bool-cases, inl, inr,
  subst, sym, to_ascii_lowercase, replace, split, lookup, some, none, Option, map, replicate, ◌++◌,
  ◌∷◌, [], if◌then◌else◌,
}
use voice_ai.Config.{
  Parsers, Headers, ProviderConfig, Connection, LogConfig, RedisConfig, AgentConfig, ServerConfig,
  AsrConfig, LlmConfig, TtsConfig, VoiceConfig,
}
use voice_ai.Config.Env.{
  Environment, unset, value, parse_uint, apply_env_overrides, apply_server_env, apply_strong,
  has_llm_env, apply_section_env_llm,
}
use voice_ai.Config.Paths.{parent_dir, normal, components, normalize_path, resolve_relative_paths}
use voice_ai.Config.Climbs.{normalize_path-climbs}
use voice_ai.Config.Defaults.{default_log, no_connection, default_llm, default_tts, default_config}
use voice_ai.Config.Resolved.{resolved-headers}
use voice_ai.Config as Config
use voice_ai.Config.Strong.{is_of_strong, rest_of, strong_variables-apart}
use voice_ai.Config.Endpoint.{resolved, resolved_endpoint, is_websocket, ws_base}

-- Numbers with a fraction are their texts, and no text is an object.
abbrev texts : Parsers
texts = record { F32 = Str; F64 = Str; parse_f64 = some; json_object = λ s. none }

abbrev speech : TtsConfig texts
speech = record (default_tts texts) {
  connection = record no_connection { api_base = codes "https://t/v1/" };
  transport = codes "WebSocket";
}

abbrev written : VoiceConfig texts
written = record (default_config texts) {
  llm = record (default_llm texts) { model = codes "fast" };
  tts = speech;
}

abbrev with_port : Environment
with_port name = if name is codes "HTTP_PORT" then value (codes "9000") else unset

abbrev strong_model : Str
strong_model = codes "VOICE_LLM_STRONG_MODEL"

abbrev with_strong : Environment
with_strong name = if name is strong_model then value (codes "strong") else with_port name

port_example : (apply_env_overrides texts with_port written).server.port ≡ 9000
unfolding apply_env_overrides apply_server_env parse_uint
port_example = refl

parse_uint_example : parse_uint 16 (codes "65536") ≡ none
unfolding parse_uint
parse_uint_example = refl

abbrev model_of : Option (LlmConfig texts) → Str
model_of none = []
model_of (some c) = c.model

strong_example :
    model_of (apply_env_overrides texts with_strong written).llm_strong ≡ codes "strong"
unfolding apply_env_overrides apply_strong has_llm_env apply_section_env_llm
strong_example = refl

resolved_endpoint_example : resolved_endpoint speech none ≡ codes "wss://t/v1/audio/speech/stream"
unfolding resolved_endpoint is_websocket to_ascii_lowercase ws_base resolved replace
    voice_ai.Config.resolved
resolved_endpoint_example = refl

agrees : (name : Str) → is_of_strong name ≡ false → with_strong name ≡ with_port name
agrees name other = elim (Bool-cases (name is strong_model)) [
  | inl same ↦
      let named : is_of_strong name ≡ true =
        subst (λ n. is_of_strong n ≡ true) (sym ((str_eq.beq_iff name strong_model).0 same)) refl in
      cc
  | inr apart ↦ rw apart refl
]

strong_variables-apart_example :
    rest_of texts (apply_env_overrides texts with_strong written)
    ≡ rest_of texts (apply_env_overrides texts with_port written)
strong_variables-apart_example = strong_variables-apart texts with_strong with_port written agrees

abbrev log_above : LogConfig
log_above = record default_log { file = codes "../../logs/a" }

-- `config/../../logs/a` is not `../logs/a`, but `logs/a`.
above_example : (resolve_relative_paths (codes "config") log_above).file ≡ codes "logs/a"
unfolding resolve_relative_paths components normalize_path split
above_example = refl

normalize_path-climbs_example :
    normalize_path (
      map normal (codes "config" ∷ [])
      ++ (replicate 2 parent_dir ++ map normal (codes "logs" ∷ codes "a" ∷ [])))
    ≡ map normal (codes "logs" ∷ codes "a" ∷ [])
normalize_path-climbs_example =
    normalize_path-climbs (codes "config" ∷ []) 2 (codes "logs" ∷ codes "a" ∷ [])

abbrev tenants : Connection
tenants = record (no_connection) { headers = (codes "b", codes "own") ∷ [] }

abbrev inherited : ProviderConfig
inherited = record {
  api_base = [];
  api_key = [];
  timeout_ms = 5;
  headers = (codes "a", codes "1") ∷ (codes "b", codes "2") ∷ [];
}

resolved-headers_example :
    lookup (codes "b") (Config.resolved tenants (some inherited)).headers ≡ some (codes "own")
unfolding lookup
resolved-headers_example = resolved-headers tenants (some inherited) (codes "b") (refl, tt)
