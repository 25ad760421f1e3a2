-- ===== src/Client.antt =====
-- crates/voice_server/src/client and events.rs: what the clients of recognition, language model and
-- synthesis give to the rest of the server. Of the clients behind these interfaces, Sse, Think, Prompt
-- and Wav model a part.
pub mod Wav
pub mod Think
pub mod Sse
pub mod Prompt
mod Tests
use voice_ai.Base.{ℕ, Bool, Option, none, some, List, ◌++◌, Str, codes, decimal}

-- client/error.rs
pub record OpenAiError : Type 0 where
  pub message : Str
  pub type_ : Option Str
  pub param : Option Str
  pub code : Str

pub data ClientError : Type 0 where
  http io decode ws config : Str → ClientError
  api : (status : ℕ) (error : OpenAiError) → ClientError
  status : ℕ → ClientError

unfoldable pub show_open_ai : OpenAiError → Str
show_open_ai e = elim e.param [
  | some p ↦ codes "[" ++ e.code ++ codes "] " ++ e.message ++ codes " (param=" ++ p ++ codes ")"
  | none ↦ codes "[" ++ e.code ++ codes "] " ++ e.message
]

-- `Display`
unfoldable pub show_error : ClientError → Str
unfolding show_open_ai decimal
show_error (http m) = codes "http error: " ++ m
show_error (io m) = codes "io error: " ++ m
show_error (decode m) = codes "decode error: " ++ m
show_error (api n e) = codes "api error: status=" ++ decimal n ++ codes ", " ++ show_open_ai e
show_error (status n) = codes "service returned status " ++ decimal n
show_error (ws m) = codes "ws error: " ++ m
show_error (config m) = codes "config error: " ++ m

unfoldable pub to_string_short : ClientError → Str
unfolding show_open_ai decimal
to_string_short (http m) = m
to_string_short (io m) = m
to_string_short (decode m) = m
to_string_short (ws m) = m
to_string_short (config m) = m
to_string_short (status c) = decimal c
to_string_short (api n e) = decimal n ++ codes ": " ++ show_open_ai e

pub data Result (A : Type 0) : Type 0 where
  ok : A → Result A
  err : ClientError → Result A

-- events.rs
pub record LlmEvent : Type 0 where
  pub delta : Str
  pub is_final : Bool

pub record TtsEvent : Type 0 where
  pub seq : ℕ
  pub bytes : List ℕ
  pub is_last : Bool

-- `TtsClient` and `TtsInputSession`, over a state of the provider. The events of a session are what it
-- delivers from now on until it is closed, and `read` is the state when some of them have been read;
-- a stream of audio is the list of what it delivers.
pub record TtsClient : Type 1 where
  pub World : Type 0
  pub Input : Type 0
  pub open_input_session :
      World → (session_id : Str) (voice : Option Str) → World × Result (Option Input)
  pub synthesize :
      World → (session_id text : Str) (voice : Option Str) → World × Result (List (Result TtsEvent))
  pub send_text : World → Input → Str → World × Result Unit
  pub flush : World → Input → World × Result Unit
  pub events : World → Input → List (Result TtsEvent)
  pub read : World → Input → ℕ → World
  pub close : World → Input → World
  pub finish : World → Input → World

-- client/llm.rs
pub data ModelTier : Type 0 where
  fast strong : ModelTier

pub record ChatMessage : Type 0 where
  pub role : Str
  pub content : Str

-- `LlmClient::chat_with_messages`, over a state of the provider; a stream of answers is the list of
-- what it delivers.
abbrev pub LlmClient : Type 0 → Type 0
LlmClient World =
    (session_id : Str) (messages : List ChatMessage) (emotion_hint : Option Str)
    → World
    → World × Result (List (Result LlmEvent))

-- events.rs; the other fields of an event are reserved and read nowhere.
pub record AsrEvent : Type 0 where
  pub text : Str
  pub is_final : Bool

-- What the call of `AsrClient::recognize` under its time limit gives.
pub data Recognized : Type 0 where
  elapsed : Recognized
  recognized : Result (List (Result AsrEvent)) → Recognized
