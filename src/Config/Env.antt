-- ===== src/Config/Env.antt =====
-- crates/voice_server/src/config.rs: `apply_env_overrides`. A variable of the environment is not set, is
-- no Unicode, or is a text.
use voice_ai.Base.{
  ℕ, ◌+◌, ◌-◌, ◌*◌, ◌^◌, ◌==◌, ltb, leb, Bool, true, false, ◌&&◌, ◌||◌, Option, none, some, List,
  [], ◌∷◌, ◌++◌, any, unwrap_or, if◌then◌else◌, Str, str_eq, ◌is◌, codes, trim, to_ascii_lowercase,
}
use voice_ai.Config.{
  Parsers, ProviderConfig, default_provider, Connection, LogConfig, RedisConfig, AgentConfig,
  ServerConfig, AsrConfig, LlmConfig, TtsConfig, VoiceConfig,
}

pub data Variable : Type 0 where
  unset not_unicode : Variable
  value : Str → Variable

abbrev pub Environment : Type 0
Environment = Str → Variable

-- `std::env::var(..).ok()`, and `var_os(..).is_some()`
abbrev pub var_of : Variable → Option Str
var_of unset = none
var_of not_unicode = none
var_of (value v) = some v

abbrev pub is_set : Variable → Bool
is_set unset = false
is_set _ = true

-- `str::parse` of an unsigned number of w bits: an optional sign and at least one digit.
abbrev pub parse_digits : ℕ → Str → Option ℕ
parse_digits acc [] = some acc
parse_digits acc (c ∷ s) =
    let rest = parse_digits (10 * acc + (c - b'0')) s in
    if leb b'0' c && leb c b'9' then rest else none

abbrev pub in_bits : ℕ → Option ℕ → Option ℕ
in_bits w none = none
in_bits w (some n) = if ltb n (2 ^ w) then some n else none

abbrev pub parse_unsigned : Str → Option ℕ
parse_unsigned [] = none
parse_unsigned s = parse_digits 0 s

abbrev pub without_plus : Str → Str
without_plus [] = []
without_plus (c ∷ s) = if c == b'+' then s else c ∷ s

unfoldable pub parse_uint : ℕ → Str → Option ℕ
parse_uint w s = in_bits w (parse_unsigned (without_plus s))

unfoldable pub parse_env_bool : Str → Option Bool
parse_env_bool s =
    let v = to_ascii_lowercase (trim s) in
    if v is codes "true" || v is codes "1" || v is codes "yes" || v is codes "on"
    then some true
    else if v is codes "false" || v is codes "0" || v is codes "no" || v is codes "off"
    then some false
    else none

-- Where the variable has a value that is understood, the field gets it.
abbrev pub override {ℓ} : {A : Type ℓ} → Option A → A → A
override none old = old
override (some v) old = v

abbrev pub override_some {ℓ} : {A : Type ℓ} → Option A → Option A → Option A
override_some none old = old
override_some (some v) old = some v

abbrev pub and_parse {ℓ} : {A : Type ℓ} → (Str → Option A) → Option Str → Option A
and_parse parse none = none
and_parse parse (some v) = parse v

abbrev pub provider_with : Option Str → Option Str → ProviderConfig → ProviderConfig
provider_with base key p = record p {
  api_base = override base p.api_base;
  api_key = override key p.api_key;
}

unfoldable pub apply_provider :
    Option Str → Option Str → Option ProviderConfig → Option ProviderConfig
apply_provider none none p = p
apply_provider base key p = some (provider_with base key (unwrap_or p default_provider))

module _ (ps : Parsers) (env : Environment) where
  abbrev pub var : Str → Option Str
  var name = var_of (env name)

  -- `VOICE_<prefix>_<suffix>`
  abbrev pub section_var : Str → Str → Option Str
  section_var pre suffix = var (codes "VOICE_" ++ pre ++ codes "_" ++ suffix)

  abbrev pub trimmed_uint : ℕ → Str → Option ℕ
  trimmed_uint w v = parse_uint w (trim v)

  unfoldable pub apply_log_env : LogConfig → LogConfig
  apply_log_env c = record c {
    level = override (var (codes "VOICE_LOG_LEVEL")) c.level;
    file = override (var (codes "VOICE_LOG_FILE")) c.file;
  }

  unfoldable pub apply_server_env : ServerConfig → ServerConfig
  apply_server_env c = record c {
    port = override (and_parse (parse_uint 16) (var (codes "HTTP_PORT"))) c.port;
  }

  unfoldable pub apply_redis_env : RedisConfig → RedisConfig
  apply_redis_env c = record {
    url = override_some (var (codes "VOICE_REDIS_URL")) c.url;
    default_ttl_secs =
        override (and_parse (parse_uint 64) (var (codes "VOICE_REDIS_DEFAULT_TTL_SECS")))
          c.default_ttl_secs;
  }

  unfoldable pub apply_agent_env : AgentConfig → AgentConfig
  apply_agent_env c = record {
    memory_backend = override (var (codes "VOICE_AGENT_MEMORY_BACKEND")) c.memory_backend;
    memory_window =
        override (and_parse (parse_uint 64) (var (codes "VOICE_AGENT_MEMORY_WINDOW")))
          c.memory_window;
    memory_ttl_secs =
        override_some (and_parse (parse_uint 64) (var (codes "VOICE_AGENT_MEMORY_TTL_SECS")))
          c.memory_ttl_secs;
  }

  unfoldable pub apply_section_env : Str → AsrConfig → AsrConfig
  apply_section_env pre c = record {
    connection = record c.connection {
      api_key = override (section_var pre (codes "API_KEY")) c.connection.api_key;
    };
    model = override (section_var pre (codes "MODEL")) c.model;
    language = override_some (section_var pre (codes "LANGUAGE")) c.language;
    response_format = override_some (section_var pre (codes "RESPONSE_FORMAT")) c.response_format;
    spk = override_some (and_parse parse_env_bool (section_var pre (codes "SPK"))) c.spk;
    tags = override_some (and_parse parse_env_bool (section_var pre (codes "TAGS"))) c.tags;
  }

  abbrev pub connection_env : Str → Connection → Connection
  connection_env pre c = record {
    api_base = override (section_var pre (codes "API_BASE")) c.api_base;
    api_key = override (section_var pre (codes "API_KEY")) c.api_key;
    timeout_ms =
        override_some (and_parse (trimmed_uint 64) (section_var pre (codes "TIMEOUT_MS")))
          c.timeout_ms;
    headers = override (and_parse ps.json_object (section_var pre (codes "HEADERS"))) c.headers;
  }

  unfoldable pub apply_section_env_llm : Str → LlmConfig ps → LlmConfig ps
  apply_section_env_llm pre c = record {
    connection = connection_env pre c.connection;
    model = override (section_var pre (codes "MODEL")) c.model;
    max_completion_tokens =
        override_some
          (and_parse (trimmed_uint 32) (section_var pre (codes "MAX_COMPLETION_TOKENS")))
          c.max_completion_tokens;
    temperature =
        override_some
          (and_parse (λ v. ps.parse_f64 (trim v)) (section_var pre (codes "TEMPERATURE")))
          c.temperature;
    top_p =
        override_some (and_parse (λ v. ps.parse_f64 (trim v)) (section_var pre (codes "TOP_P")))
          c.top_p;
    top_k = override_some (and_parse (trimmed_uint 32) (section_var pre (codes "TOP_K"))) c.top_k;
    reasoning_effort =
        override_some (section_var pre (codes "REASONING_EFFORT")) c.reasoning_effort;
    include_usage =
        override (and_parse parse_env_bool (section_var pre (codes "INCLUDE_USAGE")))
          c.include_usage;
  }

  abbrev pub llm_suffixes : List Str
  llm_suffixes =
      codes "API_BASE"
      ∷ codes "API_KEY"
      ∷ codes "TIMEOUT_MS"
      ∷ codes "HEADERS"
      ∷ codes "MODEL"
      ∷ codes "MAX_COMPLETION_TOKENS"
      ∷ codes "TEMPERATURE"
      ∷ codes "TOP_P"
      ∷ codes "TOP_K"
      ∷ codes "REASONING_EFFORT"
      ∷ codes "INCLUDE_USAGE"
      ∷ []

  unfoldable pub has_llm_env : Str → Bool
  has_llm_env pre =
      any (λ suffix. is_set (env (codes "VOICE_" ++ pre ++ codes "_" ++ suffix))) llm_suffixes

  unfoldable pub apply_section_env_tts : Str → TtsConfig ps → TtsConfig ps
  apply_section_env_tts pre c = record c {
    connection = record c.connection {
      api_key = override (section_var pre (codes "API_KEY")) c.connection.api_key;
    };
    model = override (section_var pre (codes "MODEL")) c.model;
    voice = override (section_var pre (codes "VOICE")) c.voice;
    sample_rate =
        override_some (and_parse (trimmed_uint 32) (section_var pre (codes "SAMPLE_RATE")))
          c.sample_rate;
  }

  -- `llm_strong` where it is there or a variable asks for it; it begins as the other model.
  unfoldable pub apply_strong : Bool → LlmConfig ps → Option (LlmConfig ps) → Option (LlmConfig ps)
  unfolding apply_section_env_llm
  apply_strong asked llm (some strong) = some (apply_section_env_llm (codes "LLM_STRONG") strong)
  apply_strong true llm none = some (apply_section_env_llm (codes "LLM_STRONG") llm)
  apply_strong false llm none = none

  unfoldable pub apply_env_overrides : VoiceConfig ps → VoiceConfig ps
  unfolding apply_log_env apply_server_env apply_provider apply_section_env apply_section_env_llm
      apply_strong has_llm_env apply_section_env_tts apply_redis_env apply_agent_env
  apply_env_overrides c =
      let llm = apply_section_env_llm (codes "LLM") c.llm in
      record {
        log = apply_log_env c.log;
        server = apply_server_env c.server;
        provider =
            apply_provider (var (codes "VOICE_PROVIDER_API_BASE"))
              (var (codes "VOICE_PROVIDER_API_KEY")) c.provider;
        asr = apply_section_env (codes "ASR") c.asr;
        llm = llm;
        llm_strong = apply_strong (has_llm_env (codes "LLM_STRONG")) llm c.llm_strong;
        tts = apply_section_env_tts (codes "TTS") c.tts;
        redis = apply_redis_env c.redis;
        agent = apply_agent_env c.agent;
      }
