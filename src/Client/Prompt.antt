-- ===== src/Client/Prompt.antt =====
-- crates/voice_server/src/client/llm.rs: the system prompt of a tier, which `HttpLlmClient` puts in front
-- of the messages of a request.
pub mod Filled
use voice_ai.Base.{Option, none, some, List, ◌∷◌, is_empty, if◌then◌else◌, Str, codes, replace}
use voice_ai.Client.{ChatMessage}

-- Where no emotion is given the place is filled with this word.
abbrev pub no_emotion : Str
no_emotion = codes "无"

abbrev pub emotion_or : Option Str → Str
emotion_or none = no_emotion
emotion_or (some value) = if is_empty value then no_emotion else value

abbrev pub emotion_mark : Str
emotion_mark = codes "{emotion}"

unfoldable pub messages_with_system_prompt :
    (system_prompt_template : Option Str)
    → List ChatMessage
    → (emotion_hint : Option Str) → List ChatMessage
messages_with_system_prompt none messages emotion_hint = messages
messages_with_system_prompt (some template) messages emotion_hint =
    record {
      role = codes "system";
      content = replace emotion_mark (emotion_or emotion_hint) template;
    }
    ∷ messages
