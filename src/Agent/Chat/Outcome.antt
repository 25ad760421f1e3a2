-- ===== src/Agent/Chat/Outcome.antt =====
-- crates/voice_server/src/agent/llmagent.rs: what a chat leaves in the memory and gives to its caller.
use voice_ai.Base.{
  ℕ, max, ◌≡◌, ◌⊎◌, refl, sym, ap, ◌∙◌, inl, inr, false, Option, none, some, List, [], ◌∷◌, ◌++◌,
  map, is_empty, any, Str, str_eq, ◌is◌, Bool-cases, append-nil, append_assoc, if◌then◌else◌,
  last_part,
}
use voice_ai.Agent.Memory.{Message}
use voice_ai.Agent.Memory.InMemory
use voice_ai.Agent.Memory.InMemory.{in_memory_store}
use voice_ai.Agent.Memory.Window
use voice_ai.Agent.Memory.Window.{Call, calls, said, said_from, in_memory-history}
use voice_ai.Client.{ClientError, LlmEvent, ModelTier, fast, strong, ChatMessage}
use voice_ai.Agent.Chat.{Act, asks, appends, yields, fails, Turn, chat, messages_of}
use voice_ai.Agent.Chat.Protocol.{
  Told, cut, broken, finished, told, Answered, refused, opened, at_once, Chatted, straight, raised,
  Chats, chat-Chatted, by_user, by_assistant,
}

abbrev pub yielded : List Act → List LlmEvent
yielded [] = []
yielded (yields e ∷ acts) = e ∷ yielded acts
yielded (_ ∷ acts) = yielded acts

abbrev pub recorded : List Act → List Message
recorded [] = []
recorded (appends m ∷ acts) = m ∷ recorded acts
recorded (_ ∷ acts) = recorded acts

abbrev pub errors : List Act → List ClientError
errors [] = []
errors (fails e ∷ acts) = e ∷ errors acts
errors (_ ∷ acts) = errors acts

abbrev pub asked : List Act → List ModelTier
asked [] = []
asked (asks tier messages ∷ acts) = tier ∷ asked acts
asked (_ ∷ acts) = asked acts

abbrev pub text : List LlmEvent → Str
text [] = []
text (e ∷ es) = e.delta ++ text es

-- What is remembered of a chat in which `u` was answered by the events `es`.
abbrev pub reply : Str → List LlmEvent → List Message
reply content es = if any (λ e. e.is_final) es then by_assistant content ∷ [] else []

abbrev pub exchange : Str → List LlmEvent → List Message
exchange u [] = []
exchange u (e ∷ es) = by_user u ∷ reply (text (e ∷ es)) (e ∷ es)

Told-recorded :
    {b : Str} {acts : List Act}
    → Told b acts
    → recorded acts ≡ reply (b ++ text (yielded acts)) (yielded acts)
Told-recorded cut = refl
Told-recorded broken = refl
Told-recorded {b} (finished {e = e} last) =
    rw last (ap (λ s. by_assistant (b ++ s) ∷ []) (sym (append-nil e.delta)))
Told-recorded {b} (told {e = e} {acts = acts} more t) =
    rw (more, ← append_assoc b e.delta (text (yielded acts))) (Told-recorded t)

Answered-recorded :
    {u : Str} {tier : ModelTier} {acts : List Act}
    → Answered u tier acts
    → recorded acts ≡ exchange u (yielded acts)
Answered-recorded refused = refl
Answered-recorded {u} (opened {e = e} {acts = acts} seen more t) =
    ap (λ l. by_user u ∷ l) (rw more (Told-recorded t))
Answered-recorded {u} (at_once {e = e} seen last) =
    rw last (ap (λ s. by_user u ∷ by_assistant s ∷ []) (sym (append-nil e.delta)))

Chatted-recorded :
    {u : Str} {messages : List ChatMessage} {acts : List Act}
    → Chatted u messages acts
    → recorded acts ≡ exchange u (yielded acts)
Chatted-recorded (straight choice a) = Answered-recorded a
Chatted-recorded (raised choice a) = Answered-recorded a

-- The calls of the store that a chat makes for its session.
abbrev pub store_calls : Str → List Act → List Call
store_calls sid acts = map (Window.appends sid) (recorded acts)

said-append :
    (sid : Str) (ds cs : List Call) (acc : List Message)
    → said_from sid acc (cs ++ ds) ≡ said_from sid (said_from sid acc cs) ds
said-append sid ds [] acc = refl
said-append sid ds (Window.appends other m ∷ cs) acc = said-append sid ds cs _
said-append sid ds (Window.clears other ∷ cs) acc = said-append sid ds cs _

said-appends :
    (sid other : Str) (acc ms : List Message)
    → said_from other acc (map (Window.appends sid) ms) ≡ (if sid is other then acc ++ ms else acc)
said-appends sid other acc [] = elim (Bool-cases (sid is other)) [
  | inl same ↦ rw same (sym (append-nil acc))
  | inr apart ↦ rw apart refl
]
said-appends sid other acc (m ∷ ms) =
    let acc' : List Message = if sid is other then acc ++ m ∷ [] else acc in
    said-appends sid other acc' ms ∙ step
  where
    step :
        (if sid is other
          then (if sid is other then acc ++ m ∷ [] else acc) ++ ms
          else (if sid is other then acc ++ m ∷ [] else acc))
        ≡ (if sid is other then acc ++ m ∷ ms else acc)
    step = elim (Bool-cases (sid is other)) [
      | inl same ↦ rw same (append_assoc acc (m ∷ []) ms)
      | inr apart ↦ rw apart refl
    ]

-- The histories of every session, when `cs` and then the calls of a chat were made.
abbrev pub Remembers :
    {World : Type 0} → ℕ → List Call → Turn World → Option (List Act × World) → Type 0
Remembers n cs t none = ⊥
Remembers n cs t (some (acts, w)) =
    (other : Str)
    → in_memory_store.history
        (calls in_memory_store (InMemory.new n) (cs ++ store_calls t.session_id acts)) other
      ≡ last_part (max n 1) (
          if t.session_id is other
          then said other cs ++ exchange t.user_input (yielded acts)
          else said other cs)

acts-Remembers :
    {World : Type 0} (n : ℕ) (cs : List Call) (t : Turn World) (messages : List ChatMessage)
    (o : Option (List Act × World))
    → Chats t.user_input messages o
    → Remembers n cs t o
acts-Remembers n cs t messages none c = elim c [ ]
acts-Remembers n cs t messages (some (acts, w)) c = λ other.
    in_memory-history n (cs ++ store_calls t.session_id acts) other
    ∙ ap (last_part (max n 1)) (
        said-append other (store_calls t.session_id acts) cs []
        ∙ said-appends t.session_id other (said other cs) (recorded acts)
        ∙ ap (λ ms. if t.session_id is other then said other cs ++ ms else said other cs)
            (Chatted-recorded c))

-- After any calls to the in-process store and a chat over the history of its session, whatever the
-- clients answer: the session of the chat has in addition what the chat showed, that is nothing when
-- no event was shown, else the input of the user and, when a final event was shown, one reply with
-- the text of all the events shown; every other session is as it was. The window keeps the last.
pub chat-Remembers :
    {World : Type 0} (n : ℕ) (cs : List Call) (t : Turn World) (w : World)
    → Remembers n cs t (
        chat 2 t
          (in_memory_store.history (calls in_memory_store (InMemory.new n) cs) t.session_id)
          w)
chat-Remembers n cs t w =
    let history =
      in_memory_store.history (calls in_memory_store (InMemory.new n) cs) t.session_id in
    acts-Remembers n cs t (messages_of history t.user_input) _ (chat-Chatted 0 t history w)

-- A text was shown; or nothing was shown or remembered, the strong model was the last one asked, and
-- the caller got one error.
abbrev pub Answers : {World : Type 0} → Option (List Act × World) → Type 0
Answers none = ⊥
Answers (some (acts, w)) =
    (is_empty (text (yielded acts)) ≡ false)
    ⊎ ((yielded acts ≡ [])
        × (recorded acts ≡ [])
        × ((asked acts ≡ strong ∷ []) ⊎ (asked acts ≡ fast ∷ strong ∷ []))
        × ((e : ClientError) × (errors acts ≡ e ∷ [])))

text_first : (d s : Str) → is_empty d ≡ false → is_empty (d ++ s) ≡ false
text_first [] s h = absurd (cc)
text_first (c ∷ d) s h = refl

acts-Answers :
    {World : Type 0} (u : Str) (messages : List ChatMessage) (o : Option (List Act × World))
    → Chats u messages o
    → Answers o
acts-Answers u messages none c = elim c [ ]
acts-Answers u messages (some (_, w)) (straight {acts = acts} choice refused) =
    inr (refl, refl, inl refl, (_, refl))
acts-Answers u messages (some (_, w)) (straight choice (opened {e = e} {acts = acts} seen more t)) =
    inl (text_first e.delta (text (yielded acts)) seen)
acts-Answers u messages (some (_, w)) (straight choice (at_once {e = e} seen last)) =
    inl (text_first e.delta [] seen)
acts-Answers u messages (some (_, w)) (raised choice refused) =
    inr (refl, refl, inr refl, (_, refl))
acts-Answers u messages (some (_, w)) (raised choice (opened {e = e} {acts = acts} seen more t)) =
    inl (text_first e.delta (text (yielded acts)) seen)
acts-Answers u messages (some (_, w)) (raised choice (at_once {e = e} seen last)) =
    inl (text_first e.delta [] seen)

-- Whatever the clients answer, two rounds of the loop bring a chat to an end in which its caller has
-- got a text; or nothing was shown or remembered, the strong model was the last one asked, and the
-- caller got one error.
pub chat-Answers :
    {World : Type 0} (t : Turn World) (history : List Message) (w : World)
    → Answers (chat 2 t history w)
chat-Answers t history w =
    acts-Answers t.user_input (messages_of history t.user_input) (chat 2 t history w)
      (chat-Chatted 0 t history w)
