-- ===== src/Config/Defaults.antt =====
-- crates/voice_server/src/config.rs, and LogConfig of logging.rs: the sections where nothing is written.
use voice_ai.Base.{◌*◌, true, false, none, [], codes}
use voice_ai.Config.{
  Parsers, Connection, LogConfig, text, RedisConfig, AgentConfig, ServerConfig, AsrConfig,
  LlmConfig, TtsConfig, VoiceConfig,
}

abbrev pub default_log : LogConfig
default_log = record {
  level = codes "info";
  file = [];
  format = text;
  also_stdout = true;
  with_location = true;
  max_size_bytes = 20 * 1024 * 1024;
  max_files = 5;
}

abbrev pub default_server : ServerConfig
default_server = record { port = 8080; worker_num = 3 }

abbrev pub default_redis : RedisConfig
default_redis = record { url = none; default_ttl_secs = 3600 }

abbrev pub default_agent : AgentConfig
default_agent = record {
  memory_backend = codes "in_memory";
  memory_window = 20;
  memory_ttl_secs = none;
}

abbrev pub no_connection : Connection
no_connection = record { api_base = []; api_key = []; timeout_ms = none; headers = [] }

abbrev pub default_asr : AsrConfig
default_asr = record {
  connection = no_connection;
  model = codes "sensevoice";
  language = none;
  response_format = none;
  spk = none;
  tags = none;
}

module _ (ps : Parsers) where
  abbrev pub default_llm : LlmConfig ps
  default_llm = record {
    connection = no_connection;
    model = [];
    max_completion_tokens = none;
    temperature = none;
    top_p = none;
    top_k = none;
    reasoning_effort = none;
    include_usage = false;
  }

  abbrev pub default_tts : TtsConfig ps
  default_tts = record {
    connection = no_connection;
    model = [];
    voice = [];
    response_format = [];
    stream = false;
    sample_rate = none;
    channels = 1;
    speed = none;
    task_type = none;
    language = none;
    instructions = none;
    max_new_tokens = none;
    initial_codec_chunk_frames = none;
    non_streaming_mode = none;
    stream_format = none;
    ref_audio = none;
    ref_text = none;
    x_vector_only_mode = none;
    transport = codes "http";
    max_connections = 4;
  }

  abbrev pub default_config : VoiceConfig ps
  default_config = record {
    log = default_log;
    server = default_server;
    provider = none;
    asr = default_asr;
    llm = default_llm;
    llm_strong = none;
    tts = default_tts;
    redis = default_redis;
    agent = default_agent;
  }
