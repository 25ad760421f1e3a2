-- ===== src/Agent/Tests.antt =====
-- The agent on concrete clients.
use voice_ai.Base.{
  ℕ, suc, ◌≡◌, refl, true, false, none, some, List, [], ◌∷◌, codes, trim, trim_start, trim_end,
  is_whitespace, contains, to_ascii_lowercase,
}
use voice_ai.Agent.Memory.{Message}
use voice_ai.Agent.Memory.InMemory
use voice_ai.Agent.Memory.InMemory.{in_memory_store}
use voice_ai.Agent.Memory.Window
use voice_ai.Agent.Memory.Window.{Call, calls}
use voice_ai.Agent.Router.{route}
use voice_ai.Client.{http, ok, err, fast, strong, LlmClient}
use voice_ai.Metrics.{timeout}
use voice_ai.Agent.Chat.{
  routed, asks, escalated, appends, yields, Turn, chat, messages_of, rounds, round, go_on,
  read_answer, escalation_reason_for, hear, conclude,
}
use voice_ai.Agent.Chat.Protocol.{Chats, chat-Chatted, by_user, by_assistant, event}
use voice_ai.Agent.Chat.Outcome.{Remembers, chat-Remembers, Answers, chat-Answers}

-- The state counts the requests.
abbrev slow_client : LlmClient ℕ
slow_client sid messages hint n = (suc n, err (http (codes "request Timed Out")))

abbrev good_client : LlmClient ℕ
good_client sid messages hint n = (
  suc n,
  ok (
      ok (event [] false)
      ∷ ok (event (codes "he") false)
      ∷ ok (event (codes "llo") true)
      ∷ ok (event (codes "!") true)
      ∷ []),
)

abbrev turn : Turn ℕ
turn = record {
  fast_llm = slow_client;
  strong_llm = good_client;
  session_id = codes "s";
  user_input = codes " hi ";
  emotion_hint = none;
}

abbrev spoken : List Message
spoken = by_user (codes "a") ∷ by_assistant (codes "b") ∷ []

abbrev before : List Call
before =
    Window.appends (codes "s") (by_user (codes "a"))
    ∷ Window.appends (codes "t") (by_user (codes "x"))
    ∷ Window.appends (codes "s") (by_assistant (codes "b"))
    ∷ []

slow_then_good :
    chat 2 turn [] 0
    ≡ some (
      routed fast
          ∷ asks fast (messages_of [] (codes " hi "))
          ∷ escalated timeout
          ∷ asks strong (messages_of [] (codes " hi "))
          ∷ appends (by_user (codes " hi "))
          ∷ yields (event (codes "he") false)
          ∷ appends (by_assistant (codes "hello"))
          ∷ yields (event (codes "llo") true)
          ∷ [],
      2,
    )
unfolding chat rounds round go_on read_answer hear conclude route trim trim_start trim_end
    is_whitespace escalation_reason_for contains to_ascii_lowercase
slow_then_good = refl

chat-Chatted_example :
    Chats (codes " hi ") (messages_of spoken (codes " hi ")) (chat 2 turn spoken 0)
chat-Chatted_example = chat-Chatted 0 turn spoken 0

chat-Remembers_example : Remembers 3 before turn (
    chat 2 turn
      (in_memory_store.history (calls in_memory_store (InMemory.new 3) before) (codes "s"))
      0)
chat-Remembers_example = chat-Remembers 3 before turn 0

chat-Answers_example : Answers (chat 2 turn spoken 0)
chat-Answers_example = chat-Answers turn spoken 0
