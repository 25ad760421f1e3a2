-- ===== src/Agent/Chat/Shown.antt =====
-- crates/voice_server/src/agent/llmagent.rs: the events that a chat shows are those of one of the two
-- clients, from its first text on.
use voice_ai.Base.{
  ℕ, suc, ◌≡◌, refl, ap, ◌∙◌, subst, inl, inr, Bool, true, false, ◌&&◌, Option, none, some, List,
  [], ◌∷◌, ◌++◌, map, is_empty, Str, is_refl, append-nil, if◌then◌else◌,
}
use voice_ai.Agent.Memory.{Message, user, as_str}
use voice_ai.Agent.Router.{route}
use voice_ai.Client.{Result, ok, err, LlmEvent, ModelTier, fast, strong, ChatMessage}
use voice_ai.Agent.Chat.{
  Act, routed, asks, escalated, appends, yields, fails, Draft, over, breaks, stops, Left, hear,
  conclude, read_answer, no_draft, is_fast, Turn, Round, Rounds, after_attempt, round, rounds,
  go_on, prepend, chat, messages_of, client_for, settle, preceded, last_user, tier_by, tier_of,
  as_chat_message,
}
use voice_ai.Agent.Chat.Protocol.{
  event, opened, at_once, Settled, ends, goes_on, attempt-Settled, tier-cases,
}
use voice_ai.Agent.Chat.Outcome.{yielded}

-- The events of an answer up to its final event or its first error.
abbrev pub until_end : List (Result LlmEvent) → List LlmEvent
until_end [] = []
until_end (err e ∷ es) = []
until_end (ok e ∷ es) = e ∷ (if e.is_final then [] else until_end es)

-- Those of them from the first one with a text on.
abbrev pub from_text : List (Result LlmEvent) → List LlmEvent
from_text [] = []
from_text (err e ∷ es) = []
from_text (ok e ∷ es) =
    if is_empty e.delta then (if e.is_final then [] else from_text es) else until_end (ok e ∷ es)

abbrev pub heard : Result (List (Result LlmEvent)) → List LlmEvent
heard (ok es) = from_text es
heard (err e) = []

-- What a chat is to show: the answer of the model of the input's tier, and that of the strong model
-- in place of an answer of the fast one that has no text.
abbrev pub to_show : {World : Type 0} → Turn World → List ChatMessage → World → List LlmEvent
to_show t messages w =
    let tier = route t.user_input in
    let (w', first) = client_for t tier t.session_id messages t.emotion_hint w in
    if is_fast tier && is_empty (heard first)
    then heard ((t.strong_llm t.session_id messages t.emotion_hint w').1)
    else heard first

yielded-append : (xs ys : List Act) → yielded (xs ++ ys) ≡ yielded xs ++ yielded ys
yielded-append [] ys = refl
yielded-append (yields e ∷ xs) ys = ap (λ l. e ∷ l) (yielded-append xs ys)
yielded-append (routed x ∷ xs) ys = yielded-append xs ys
yielded-append (asks x y ∷ xs) ys = yielded-append xs ys
yielded-append (escalated x ∷ xs) ys = yielded-append xs ys
yielded-append (appends x ∷ xs) ys = yielded-append xs ys
yielded-append (fails x ∷ xs) ys = yielded-append xs ys

visible_event :
    (u : Str) (tier : ModelTier) (b : Str) (r : Bool) (d : Str) (f : Bool)
    (es : List (Result LlmEvent))
    → ((v : Draft) → yielded (read_answer u tier v true es).acts ≡ until_end es)
    → yielded
        (read_answer u tier
          (record { assistant_buf = b; recorded_user = r })
          true
          (ok (event d f) ∷ es)).acts
      ≡ until_end (ok (event d f) ∷ es)
unfolding read_answer hear conclude
visible_event u tier b r [] true es rest = refl
visible_event u tier b r [] false es rest = ap (λ l. event [] false ∷ l) (rest _)
visible_event u tier b true (c ∷ cs) true es rest = refl
visible_event u tier b false (c ∷ cs) true es rest = refl
visible_event u tier b true (c ∷ cs) false es rest = ap (λ l. event (c ∷ cs) false ∷ l) (rest _)
visible_event u tier b false (c ∷ cs) false es rest = ap (λ l. event (c ∷ cs) false ∷ l) (rest _)

visible_yields :
    (u : Str) (tier : ModelTier) (es : List (Result LlmEvent)) (v : Draft)
    → yielded (read_answer u tier v true es).acts ≡ until_end es
visible_yields u tier [] v = unfold read_answer in refl
visible_yields u fast (err e ∷ es) v = unfold read_answer in refl
visible_yields u strong (err e ∷ es) v = unfold read_answer in refl
visible_yields u tier (ok e ∷ es) v =
    visible_event u tier v.assistant_buf v.recorded_user e.delta e.is_final es
      (visible_yields u tier es)

quiet_event :
    (u : Str) (tier : ModelTier) (d : Str) (f : Bool) (es : List (Result LlmEvent))
    → yielded (read_answer u tier no_draft false es).acts ≡ from_text es
    → yielded (read_answer u tier no_draft false (ok (event d f) ∷ es)).acts
      ≡ from_text (ok (event d f) ∷ es)
unfolding read_answer hear conclude
quiet_event u fast [] true es rest = refl
quiet_event u strong [] true es rest = refl
quiet_event u tier [] false es rest = rest
quiet_event u tier (c ∷ cs) true es rest = refl
quiet_event u tier (c ∷ cs) false es rest =
    ap (λ l. event (c ∷ cs) false ∷ l) (visible_yields u tier es _)

quiet_yields :
    (u : Str) (tier : ModelTier) (es : List (Result LlmEvent))
    → yielded (read_answer u tier no_draft false es).acts ≡ from_text es
quiet_yields u tier [] = unfold read_answer in refl
quiet_yields u fast (err e ∷ es) = unfold read_answer in refl
quiet_yields u strong (err e ∷ es) = unfold read_answer in refl
quiet_yields u tier (ok e ∷ es) = quiet_event u tier e.delta e.is_final es (quiet_yields u tier es)

module _ {World : Type 0} (w : World) where
  settle_silent :
      (tier : ModelTier) (v : Draft) (visible : Bool) (left : Left)
      → yielded (settle tier w v visible left).acts ≡ []
  settle_silent fast v visible stops = refl
  settle_silent strong v visible stops = refl
  settle_silent fast v visible (breaks reason) = refl
  settle_silent strong v visible (breaks reason) = refl
  settle_silent fast v true over = refl
  settle_silent strong v true over = refl
  settle_silent fast v false over = refl
  settle_silent strong v false over = refl

  attempt_yields :
      (u : Str) (tier : ModelTier) (attempt : Result (List (Result LlmEvent)))
      → yielded (after_attempt u tier no_draft w attempt).acts ≡ heard attempt
  unfolding after_attempt
  attempt_yields u fast (err e) = refl
  attempt_yields u strong (err e) = refl
  attempt_yields u tier (ok es) =
      let p = read_answer u tier no_draft false es in
      yielded-append p.acts (settle tier w p.draft p.visible p.left).acts
      ∙ ap (λ l. yielded p.acts ++ l) (settle_silent tier p.draft p.visible p.left)
      ∙ append-nil (yielded p.acts)
      ∙ quiet_yields u tier es

abbrev pub seen_by : {World : Type 0} → Option (List Act × World) → Option (List LlmEvent)
seen_by none = none
seen_by (some (acts, w)) = some (yielded acts)

seen-prepend :
    {World : Type 0} (pre : List Act) (o : Option (List Act × World))
    → yielded pre ≡ []
    → seen_by (prepend pre o) ≡ seen_by o
seen-prepend pre none h = refl
seen-prepend pre (some (acts, w)) h =
    ap some (yielded-append pre acts ∙ ap (λ l. l ++ yielded acts) h)

heard_first :
    {e : LlmEvent} {rest es : List LlmEvent} (fs : List LlmEvent)
    → e ∷ rest ≡ es
    → e ∷ rest ≡ (if is_empty es then fs else es)
heard_first {e} {rest} fs h = subst (λ es. e ∷ rest ≡ (if is_empty es then fs else es)) h refl

heard_second :
    {es : List LlmEvent} (fs : List LlmEvent) → [] ≡ es → fs ≡ (if is_empty es then fs else es)
heard_second fs h = subst (λ es. fs ≡ (if is_empty es then fs else es)) h refl

module _ {World : Type 0} (u : Str) (messages : List ChatMessage) (next : Rounds World)
    (w : World) where
  strong_seen :
      (r : Round World) {es : List LlmEvent}
      → Settled World u w strong r
      → yielded r.acts ≡ es
      → seen_by (go_on next (preceded (asks strong messages ∷ []) r)) ≡ some es
  unfolding go_on
  strong_seen _ (ends a) e = ap some e

  fast_seen :
      (r : Round World) {es fs : List LlmEvent}
      → Settled World u w fast r
      → yielded r.acts ≡ es
      → seen_by (next strong no_draft w) ≡ some fs
      → seen_by (go_on next (preceded (asks fast messages ∷ []) r))
        ≡ some (if is_empty es then fs else es)
  unfolding go_on
  fast_seen _ (ends (opened seen more t)) e last = ap some (heard_first _ e)
  fast_seen _ (ends (at_once seen more)) e last = ap some (heard_first _ e)
  fast_seen _ (goes_on reason) e last =
      seen-prepend (asks fast messages ∷ escalated reason ∷ []) (next strong no_draft w) refl
      ∙ last
      ∙ ap some (heard_second _ e)

module _ {World : Type 0} (t : Turn World) (messages : List ChatMessage) (n : ℕ) where
  seen_strong :
      (w : World)
      → seen_by (rounds t messages (suc n) strong no_draft w)
        ≡ some (heard ((t.strong_llm t.session_id messages t.emotion_hint w).1))
  unfolding rounds round
  seen_strong w =
      let (w', attempt) = t.strong_llm t.session_id messages t.emotion_hint w in
      strong_seen t.user_input messages (rounds t messages n) w'
        (after_attempt t.user_input strong no_draft w' attempt)
        (attempt-Settled t.user_input w' strong attempt)
        (attempt_yields w' t.user_input strong attempt)

  seen_fast :
      (w : World)
      → (let (w', first) = t.fast_llm t.session_id messages t.emotion_hint w in
          seen_by (rounds t messages (suc (suc n)) fast no_draft w)
          ≡ some (
              if is_empty (heard first)
              then heard ((t.strong_llm t.session_id messages t.emotion_hint w').1)
              else heard first))
  unfolding rounds round
  seen_fast w =
      let (w', attempt) = t.fast_llm t.session_id messages t.emotion_hint w in
      fast_seen t.user_input messages (rounds t messages (suc n)) w'
        (after_attempt t.user_input fast no_draft w' attempt)
        (attempt-Settled t.user_input w' fast attempt) (attempt_yields w' t.user_input fast attempt)
        (seen_strong w')

-- What the caller of a chat sees is what the model of the input's tier answered, from its first event
-- with a text to its final event or first error, unaltered and in order; or, where a fast model gave
-- no text before its end, its final event or its first error, the same part of what the strong model
-- answered.
pub seen-chat :
    {World : Type 0} (n : ℕ) (t : Turn World) (history : List Message) (w : World)
    → seen_by (chat (suc (suc n)) t history w)
      ≡ some (to_show t (messages_of history t.user_input) w)
unfolding chat
seen-chat n t history w =
    let messages = messages_of history t.user_input in
    elim (tier-cases (route t.user_input)) [
      | inl e ↦ rw e (seen-prepend (routed fast ∷ []) _ refl ∙ seen_fast t messages n w)
      | inr e ↦ rw e (seen-prepend (routed strong ∷ []) _ refl ∙ seen_strong t messages (suc n) w)
    ]

last_user-append :
    (ms : List ChatMessage) (content : Str)
    → last_user (ms ++ (record { role = as_str user; content = content } ∷ [])) ≡ some content
unfolding last_user
last_user-append [] content = rw (is_refl (as_str user)) refl
last_user-append (m ∷ ms) content = rw (last_user-append ms content) refl

-- The forwarding of messages that end with an input of the user, as those of a chat do, chooses the
-- model that a chat with that input asks first.
pub tier_of-messages_of :
    (history : List Message) (input : Str) → tier_of (messages_of history input) ≡ route input
unfolding tier_of tier_by messages_of
tier_of-messages_of history input =
    ap tier_by (last_user-append (map as_chat_message history) input)
