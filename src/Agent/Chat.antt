-- ===== src/Agent/Chat.antt =====
-- crates/voice_server/src/agent/llmagent.rs: `LlmAgent::chat`. What it does is the list of its acts, in
-- their order; a caller that drops the stream sees the acts up to the item it read last.
pub mod Protocol
pub mod Outcome
pub mod Shown
use voice_ai.Base.{
  ℕ, zero, suc, Bool, true, false, not, ◌&&◌, ◌||◌, Option, none, some, List, [], ◌∷◌, ◌++◌, map,
  is_empty, any, reverse, if◌then◌else◌, Str, str_eq, ◌is◌, codes, contains, to_ascii_lowercase,
  ◌==◌, between_codes, starts_with,
}
use voice_ai.Agent.Memory.{Role, user, assistant, Message, as_str, MemoryStore}
use voice_ai.Agent.Router.{route}
use voice_ai.Client.{
  ClientError, http, decode, Result, ok, err, LlmEvent, ModelTier, fast, strong, ChatMessage,
  LlmClient,
}
use voice_ai.Metrics.{EscalationReason, timeout, empty_response, provider_error}

unfoldable pub escalation_reason_for : ClientError → EscalationReason
unfolding contains to_ascii_lowercase
escalation_reason_for (http message) =
    if contains (codes "timeout") (to_ascii_lowercase message)
      || contains (codes "timed out") (to_ascii_lowercase message)
    then timeout
    else provider_error
escalation_reason_for _ = provider_error

abbrev pub empty_response_error : ClientError
empty_response_error = decode (codes "LLM returned an empty response")

pub data Act : Type 0 where
  routed : ModelTier → Act
  asks : ModelTier → List ChatMessage → Act
  escalated : EscalationReason → Act
  appends : Message → Act
  yields : LlmEvent → Act
  fails : ClientError → Act

abbrev pub is_fast : ModelTier → Bool
is_fast fast = true
is_fast strong = false

-- How a pass over the events of one answer ends: the events are over, `break` with a reason to
-- escalate, or the whole stream is over by `return` or `?`.
pub data Left : Type 0 where
  over : Left
  breaks : EscalationReason → Left
  stops : Left

-- The variables of the stream that outlive a round of the loop.
pub record Draft : Type 0 where
  pub assistant_buf : Str
  pub recorded_user : Bool

pub record Pass : Type 0 where
  pub acts : List Act
  pub draft : Draft
  pub visible : Bool
  pub left : Left

abbrev pub before : List Act → Pass → Pass
before as' p = record p { acts = as' ++ p.acts }

module _ (user_input : Str) where
  -- The text of an event: the user is recorded once, before the first one.
  unfoldable pub hear : Draft → Str → List Act × Draft
  hear v delta = if is_empty delta then ([], v) else (
    (if v.recorded_user then [] else appends (record { role = user; content = user_input }) ∷ []),
    record { assistant_buf = v.assistant_buf ++ delta; recorded_user = true },
  )

  -- A final event.
  unfoldable pub conclude : ModelTier → Draft → Bool → LlmEvent → Pass
  conclude tier v visible e =
      let quiet =
        if is_fast tier
        then record { acts = []; draft = v; visible = visible; left = breaks empty_response }
        else record {
          acts = fails empty_response_error ∷ [];
          draft = v;
          visible = visible;
          left = stops;
        } in
      if not visible then quiet else record {
        acts = appends (record { role = assistant; content = v.assistant_buf }) ∷ yields e ∷ [];
        draft = record v { assistant_buf = [] };
        visible = visible;
        left = stops;
      }

  unfoldable pub read_answer : ModelTier → Draft → Bool → List (Result LlmEvent) → Pass
  unfolding hear conclude
  read_answer tier v visible [] = record { acts = []; draft = v; visible = visible; left = over }
  read_answer tier v visible (err error ∷ es) =
      if is_fast tier && not visible
      then record {
        acts = [];
        draft = v;
        visible = visible;
        left = breaks (escalation_reason_for error);
      }
      else record { acts = fails error ∷ []; draft = v; visible = visible; left = stops }
  read_answer tier v visible (ok e ∷ es) =
      let (recorded, w) = hear v e.delta in
      let seen = not (is_empty e.delta) || visible in
      let shown = if seen then yields e ∷ [] else [] in
      let rest = read_answer tier w seen es in
      before recorded (if e.is_final then conclude tier w seen e else before shown rest)

-- What a caller of `chat` gives, and the clients of the agent.
pub record Turn (World : Type 0) : Type 0 where
  pub fast_llm : LlmClient World
  pub strong_llm : LlmClient World
  pub session_id : Str
  pub user_input : Str
  pub emotion_hint : Option Str

abbrev pub client_for : {World : Type 0} → Turn World → ModelTier → LlmClient World
client_for t fast = t.fast_llm
client_for t strong = t.strong_llm

-- One round of the loop, and the tier and the variables of the next one.
pub record Round (World : Type 0) : Type 0 where
  pub acts : List Act
  pub draft : Draft
  pub world : World
  pub next : Option ModelTier

abbrev pub escalates : {World : Type 0} → EscalationReason → Draft → World → Round World
escalates reason v w = record {
  acts = escalated reason ∷ [];
  draft = v;
  world = w;
  next = some strong;
}

-- After the events of an answer.
abbrev pub settle : {World : Type 0} → ModelTier → World → Draft → Bool → Left → Round World
settle tier w v visible stops = record { acts = []; draft = v; world = w; next = none }
settle tier w v visible (breaks reason) = escalates reason v w
settle strong w v false over = record {
  acts = fails empty_response_error ∷ [];
  draft = v;
  world = w;
  next = none;
}
settle fast w v false over = escalates empty_response v w
settle tier w v true over = record { acts = []; draft = v; world = w; next = none }

abbrev pub preceded : {World : Type 0} → List Act → Round World → Round World
preceded as' r = record r { acts = as' ++ r.acts }

abbrev pub after_attempt :
    {World : Type 0}
    → Str
    → ModelTier
    → Draft
    → World
    → Result (List (Result LlmEvent))
    → Round World
unfolding read_answer escalation_reason_for
after_attempt user_input tier v w (ok es) =
    let p = read_answer user_input tier v false es in
    preceded p.acts (settle tier w p.draft p.visible p.left)
after_attempt user_input fast v w (err error) = escalates (escalation_reason_for error) v w
after_attempt user_input strong v w (err error) = record {
  acts = fails error ∷ [];
  draft = v;
  world = w;
  next = none;
}

unfoldable pub round :
    {World : Type 0} → Turn World → List ChatMessage → ModelTier → Draft → World → Round World
round t messages tier v w =
    let (w', attempt) = client_for t tier t.session_id messages t.emotion_hint w in
    preceded (asks tier messages ∷ []) (after_attempt t.user_input tier v w' attempt)

-- `loop`, for a number of rounds at most; `none` when it is not over by then.
abbrev pub Rounds : Type 0 → Type 0
Rounds World = ModelTier → Draft → World → Option (List Act × World)

abbrev pub prepend :
    {World : Type 0} → List Act → Option (List Act × World) → Option (List Act × World)
prepend as' none = none
prepend as' (some (acts, w)) = some (as' ++ acts, w)

unfoldable pub go_on : {World : Type 0} → Rounds World → Round World → Option (List Act × World)
go_on next r = elim r.next [
  | none ↦ some (r.acts, r.world)
  | some tier ↦ prepend r.acts (next tier r.draft r.world)
]

unfoldable pub rounds : {World : Type 0} → Turn World → List ChatMessage → ℕ → Rounds World
unfolding round go_on
rounds t messages zero tier v w = none
rounds t messages (suc fuel) tier v w = go_on (rounds t messages fuel) (round t messages tier v w)

abbrev pub as_chat_message : Message → ChatMessage
as_chat_message m = record { role = as_str m.role; content = m.content }

-- `history` is what the store gives for the session.
unfoldable pub messages_of : List Message → Str → List ChatMessage
unfolding as_str
messages_of history user_input =
    map as_chat_message history ++ (record { role = as_str user; content = user_input } ∷ [])

abbrev pub no_draft : Draft
no_draft = record { assistant_buf = []; recorded_user = false }

unfoldable pub chat :
    {World : Type 0}
    → (fuel : ℕ) → Turn World
    → (history : List Message) → World
    → Option (List Act × World)
unfolding route messages_of rounds
chat fuel t history w =
    let tier = route t.user_input in
    prepend (routed tier ∷ []) (rounds t (messages_of history t.user_input) fuel tier no_draft w)

-- The tier that `LlmAgent::chat_with_messages` chooses: by the last message of the user.
unfoldable pub last_user : List ChatMessage → Option Str
last_user [] = none
last_user (m ∷ ms) = elim (last_user ms) [
  | some content ↦ some content
  | none ↦ if m.role is as_str user then some m.content else none
]

unfoldable pub tier_by : Option Str → ModelTier
tier_by none = fast
tier_by (some content) = route content

unfoldable pub tier_of : List ChatMessage → ModelTier
unfolding last_user tier_by
tier_of messages = tier_by (last_user messages)

unfoldable pub chat_with_messages :
    {World : Type 0}
    → Turn World
    → List ChatMessage
    → World
    → List Act × (World × Result (List (Result LlmEvent)))
unfolding tier_of
chat_with_messages t messages w =
    let tier = tier_of messages in
    (
      routed tier ∷ asks tier messages ∷ [],
      client_for t tier t.session_id messages t.emotion_hint w,
    )
