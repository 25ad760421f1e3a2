-- ===== src/Agent/Chat/Protocol.antt =====
-- crates/voice_server/src/agent/llmagent.rs: the order of the acts of `chat`, as a grammar, and that
-- the loop over the models keeps to it.
use voice_ai.Base.{
  ℕ, suc, ◌≡◌, ◌⊎◌, refl, sym, subst, inl, inr, Bool, true, false, Option, none, some, List, [],
  ◌∷◌, ◌++◌, is_empty, Str, append-nil,
}
use voice_ai.Agent.Memory.{user, assistant, Message}
use voice_ai.Agent.Router.{route}
use voice_ai.Client.{ClientError, Result, ok, err, LlmEvent, ModelTier, fast, strong, ChatMessage}
use voice_ai.Metrics.{EscalationReason, empty_response}
use voice_ai.Agent.Chat.{
  Act, routed, asks, escalated, appends, yields, fails, Draft, Pass, over, stops, hear, conclude,
  read_answer, no_draft, Turn, Round, after_attempt, round, rounds, chat, messages_of, client_for,
  Rounds, go_on, prepend, settle, Left, escalation_reason_for, preceded,
}

abbrev pub by_user : Str → Message
by_user content = record { role = user; content = content }

abbrev pub by_assistant : Str → Message
by_assistant content = record { role = assistant; content = content }

-- After the text `said` has been shown: more events, and the end of the stream, an error, or a final
-- event, before which the whole text is remembered.
pub data Told : Str → List Act → Type 0 where
  cut : {said : Str} → Told said []
  broken : {said : Str} {e : ClientError} → Told said (fails e ∷ [])
  finished :
      {said : Str} {e : LlmEvent}
      → e.is_final ≡ true
      → Told said (appends (by_assistant (said ++ e.delta)) ∷ yields e ∷ [])
  told :
      {said : Str} {e : LlmEvent} {acts : List Act}
      → e.is_final ≡ false
      → Told (said ++ e.delta) acts
      → Told said (yields e ∷ acts)

-- An answer to `u` from its first text on, or, of the strong model, an error in its place.
pub data Answered (u : Str) : ModelTier → List Act → Type 0 where
  refused : {e : ClientError} → Answered u strong (fails e ∷ [])
  opened :
      {tier : ModelTier} {e : LlmEvent} {acts : List Act}
      → is_empty e.delta ≡ false
      → e.is_final ≡ false
      → Told e.delta acts
      → Answered u tier (appends (by_user u) ∷ yields e ∷ acts)
  at_once :
      {tier : ModelTier} {e : LlmEvent}
      → is_empty e.delta ≡ false
      → e.is_final ≡ true
      → Answered u tier (appends (by_user u) ∷ appends (by_assistant e.delta) ∷ yields e ∷ [])

-- One attempt with the tier that is routed to; or one with the fast model, given up before any of
-- its events was shown, and one with the strong model.
pub data Chatted (u : Str) (messages : List ChatMessage) : List Act → Type 0 where
  straight :
      {tier : ModelTier} {acts : List Act}
      → route u ≡ tier
      → Answered u tier acts
      → Chatted u messages (routed tier ∷ asks tier messages ∷ acts)
  raised :
      {reason : EscalationReason} {acts : List Act}
      → route u ≡ fast
      → Answered u strong acts
      → Chatted u messages
          (routed fast ∷ asks fast messages ∷ escalated reason ∷ asks strong messages ∷ acts)

-- The pass over what follows the first text ends the whole stream.
record Closed (said : Str) (p : Pass) : Type 0 where
  acts_told : Told said p.acts
  shown : p.visible ≡ true
  left_open : (p.left ≡ over) ⊎ (p.left ≡ stops)

abbrev pub event : Str → Bool → LlmEvent
event d f = record { delta = d; is_final = f }

-- The variables when `b` has been shown.
abbrev shown_draft : Str → Draft
shown_draft b = record { assistant_buf = b; recorded_user = true }

finished_with : (b d : Str) → Told b (appends (by_assistant (b ++ d)) ∷ yields (event d true) ∷ [])
finished_with b d = finished refl

-- One event after the first text, `rest` being the pass over the others.
visible_event :
    (u : Str) (tier : ModelTier) (b d : Str) (f : Bool) (es : List (Result LlmEvent))
    → ((b' : Str) → Closed b' (read_answer u tier (shown_draft b') true es))
    → Closed b (read_answer u tier (shown_draft b) true (ok (event d f) ∷ es))
unfolding read_answer hear conclude
visible_event u tier b [] true es rest = record {
  acts_told =
      subst (λ s. Told b (appends (by_assistant s) ∷ yields (event [] true) ∷ [])) (append-nil b)
        (finished_with b []);
  shown = refl;
  left_open = inr refl;
}
visible_event u tier b [] false es rest = record {
  acts_told = told refl (
      subst (λ s. Told s (read_answer u tier (shown_draft b) true es).acts) (sym (append-nil b))
        (rest b).acts_told);
  shown = (rest b).shown;
  left_open = (rest b).left_open;
}
visible_event u tier b (c ∷ cs) true es rest = record {
  acts_told = finished_with b (c ∷ cs);
  shown = refl;
  left_open = inr refl;
}
visible_event u tier b (c ∷ cs) false es rest = record {
  acts_told = told refl (rest (b ++ c ∷ cs)).acts_told;
  shown = (rest (b ++ c ∷ cs)).shown;
  left_open = (rest (b ++ c ∷ cs)).left_open;
}

visible_pass :
    (u : Str) (tier : ModelTier) (b : Str) (es : List (Result LlmEvent))
    → Closed b (read_answer u tier (shown_draft b) true es)
visible_pass u tier b [] =
    unfold read_answer in record { acts_told = cut; shown = refl; left_open = inl refl }
visible_pass u fast b (err e ∷ es) =
    unfold read_answer in record { acts_told = broken; shown = refl; left_open = inr refl }
visible_pass u strong b (err e ∷ es) =
    unfold read_answer in record { acts_told = broken; shown = refl; left_open = inr refl }
visible_pass u tier b (ok e ∷ es) =
    visible_event u tier b e.delta e.is_final es (λ b'. visible_pass u tier b' es)

-- How a round that starts with nothing shown leaves the loop, or goes on to the strong model.
pub data Settled (World : Type 0) (u : Str) (w : World) : ModelTier → Round World → Type 0 where
  ends :
      {tier : ModelTier} {acts : List Act} {v : Draft}
      → Answered u tier acts
      → Settled World u w tier (record { acts = acts; draft = v; world = w; next = none })
  goes_on :
      (reason : EscalationReason)
      → Settled World u w fast
          (record { acts = escalated reason ∷ []; draft = no_draft; world = w; next = some strong })

abbrev settled_pass : {World : Type 0} → ModelTier → World → Pass → Round World
settled_pass tier w p = preceded p.acts (settle tier w p.draft p.visible p.left)

module _ {World : Type 0} (u : Str) (w : World) where
  abbrev settled : Draft → Round World
  settled v = record { acts = []; draft = v; world = w; next = none }

  closed_settles :
      (tier : ModelTier) (v : Draft) (visible : Bool) (left : Left)
      → visible ≡ true
      → (left ≡ over) ⊎ (left ≡ stops)
      → settle tier w v visible left ≡ settled v
  closed_settles fast v visible left shown (inl e) = rw (e, shown) refl
  closed_settles strong v visible left shown (inl e) = rw (e, shown) refl
  closed_settles fast v visible left shown (inr e) = rw e refl
  closed_settles strong v visible left shown (inr e) = rw e refl

  -- A text is the first one: the rest of the answer is told after it.
  opened_round :
      (tier : ModelTier) (e : LlmEvent) (p : Pass)
      → is_empty e.delta ≡ false
      → e.is_final ≡ false
      → Closed e.delta p
      → Settled World u w tier (
          preceded
            (appends (by_user u) ∷ yields e ∷ p.acts)
            (settle tier w p.draft p.visible p.left))
  opened_round tier e p text more c =
      let whole = appends (by_user u) ∷ yields e ∷ p.acts in
      let same : settle tier w p.draft p.visible p.left ≡ settled p.draft =
        closed_settles tier p.draft p.visible p.left c.shown c.left_open in
      let as_is : Settled World u w tier
          (record { acts = whole; draft = p.draft; world = w; next = none }) =
        ends (opened text more c.acts_told) in
      subst (λ r. Settled World u w tier (preceded whole r)) (sym same)
        (subst
          (λ as'.
            Settled World u w tier (record { acts = as'; draft = p.draft; world = w; next = none }))
          (sym (append-nil whole)) as_is)

  quiet_event :
      (tier : ModelTier) (d : Str) (f : Bool) (es : List (Result LlmEvent))
      → Settled World u w tier (settled_pass tier w (read_answer u tier no_draft false es))
      → Settled World u w tier
          (settled_pass tier w (read_answer u tier no_draft false (ok (event d f) ∷ es)))
  unfolding read_answer hear conclude
  quiet_event fast [] true es rest = goes_on empty_response
  quiet_event strong [] true es rest = ends refused
  quiet_event tier [] false es rest = rest
  quiet_event tier (c ∷ cs) true es rest = ends (at_once refl refl)
  quiet_event tier (c ∷ cs) false es rest =
      opened_round tier (event (c ∷ cs) false) (read_answer u tier (shown_draft (c ∷ cs)) true es)
        refl refl (visible_pass u tier (c ∷ cs) es)

  pass-Settled :
      (tier : ModelTier) (es : List (Result LlmEvent))
      → Settled World u w tier (settled_pass tier w (read_answer u tier no_draft false es))
  pass-Settled fast [] = unfold read_answer in goes_on empty_response
  pass-Settled strong [] = unfold read_answer in ends refused
  pass-Settled fast (err e ∷ es) = unfold read_answer in goes_on (escalation_reason_for e)
  pass-Settled strong (err e ∷ es) = unfold read_answer in ends refused
  pass-Settled tier (ok e ∷ es) = quiet_event tier e.delta e.is_final es (pass-Settled tier es)

  pub attempt-Settled :
      (tier : ModelTier) (attempt : Result (List (Result LlmEvent)))
      → Settled World u w tier (after_attempt u tier no_draft w attempt)
  unfolding after_attempt
  attempt-Settled tier (ok es) = pass-Settled tier es
  attempt-Settled fast (err e) = goes_on (escalation_reason_for e)
  attempt-Settled strong (err e) = ends refused

-- The end of the loop: `answers tier` has the last answer among its acts.
record Runs {World : Type 0} (u : Str) (messages : List ChatMessage) (pre : List Act)
    (tier : ModelTier) (o : Option (List Act × World)) : Type 0 where
  acts : List Act
  world : World
  gives : o ≡ some (pre ++ (asks tier messages ∷ acts), world)
  answer : Answered u tier acts

module _ {World : Type 0} (u : Str) (messages : List ChatMessage) (next : Rounds World) where
  strong-Runs :
      (w : World) (r : Round World)
      → Settled World u w strong r
      → Runs u messages [] strong (go_on next (preceded (asks strong messages ∷ []) r))
  unfolding go_on
  strong-Runs w _ (ends {acts = acts} a) = record {
    acts = acts;
    world = w;
    gives = refl;
    answer = a;
  }

  fast-Runs :
      (w : World) (r : Round World)
      → Settled World u w fast r
      → Runs u messages [] strong (next strong no_draft w)
      → Runs u messages [] fast (go_on next (preceded (asks fast messages ∷ []) r))
        ⊎ ((reason : EscalationReason) × Runs u messages
              (asks fast messages ∷ escalated reason ∷ [])
              strong
              (go_on next (preceded (asks fast messages ∷ []) r)))
  unfolding go_on
  fast-Runs w _ (ends {acts = acts} a) last =
      inl (record { acts = acts; world = w; gives = refl; answer = a })
  fast-Runs w _ (goes_on reason) last = inr (
    reason,
    record {
      acts = last.acts;
      world = last.world;
      gives = rw last.gives refl;
      answer = last.answer;
    },
  )

module _ {World : Type 0} (t : Turn World) (messages : List ChatMessage) (n : ℕ) where
  rounds_strong :
      (w : World)
      → Runs t.user_input messages [] strong (rounds t messages (suc n) strong no_draft w)
  unfolding rounds round
  rounds_strong w =
      let (w', attempt) = client_for t strong t.session_id messages t.emotion_hint w in
      strong-Runs t.user_input messages (rounds t messages n) w'
        (after_attempt t.user_input strong no_draft w' attempt)
        (attempt-Settled t.user_input w' strong attempt)

  rounds_fast :
      (w : World)
      → Runs t.user_input messages [] fast (rounds t messages (suc (suc n)) fast no_draft w)
        ⊎ ((reason : EscalationReason) × Runs t.user_input messages
              (asks fast messages ∷ escalated reason ∷ [])
              strong
              (rounds t messages (suc (suc n)) fast no_draft w))
  unfolding rounds round
  rounds_fast w =
      let (w', attempt) = client_for t fast t.session_id messages t.emotion_hint w in
      fast-Runs t.user_input messages (rounds t messages (suc n)) w'
        (after_attempt t.user_input fast no_draft w' attempt)
        (attempt-Settled t.user_input w' fast attempt) (rounds_strong w')

abbrev pub Chats : {World : Type 0} → Str → List ChatMessage → Option (List Act × World) → Type 0
Chats u messages none = ⊥
Chats u messages (some (acts, w)) = Chatted u messages acts

module _ {World : Type 0} (u : Str) (messages : List ChatMessage) where
  straight-Chats :
      {tier : ModelTier} (o : Option (List Act × World))
      → route u ≡ tier
      → Runs u messages [] tier o
      → Chats u messages (prepend (routed tier ∷ []) o)
  straight-Chats o choice r = rw r.gives (straight choice r.answer)

  raised-Chats :
      {reason : EscalationReason} (o : Option (List Act × World))
      → route u ≡ fast
      → Runs u messages (asks fast messages ∷ escalated reason ∷ []) strong o
      → Chats u messages (prepend (routed fast ∷ []) o)
  raised-Chats o choice r = rw r.gives (raised choice r.answer)

pub tier-cases : (tier : ModelTier) → (tier ≡ fast) ⊎ (tier ≡ strong)
tier-cases fast = inl refl
tier-cases strong = inr refl

-- Whatever the two clients answer, two rounds of the loop are enough for a chat, and its acts are
-- those of one attempt with the tier of the input, or of an attempt with the fast model that is given
-- up before any event was shown or remembered, followed by one with the strong model; within an
-- answer the user is remembered before the first text, and the whole text before the final event.
pub chat-Chatted :
    {World : Type 0} (n : ℕ) (t : Turn World) (history : List Message) (w : World)
    → Chats t.user_input (messages_of history t.user_input) (chat (suc (suc n)) t history w)
unfolding chat
chat-Chatted n t history w =
    let messages = messages_of history t.user_input in
    elim (tier-cases (route t.user_input)) [
      | inl e ↦ elim (rounds_fast t messages n w) [
        | inl r ↦ rw e (straight-Chats t.user_input messages _ e r)
        | inr (reason, r) ↦ rw e (raised-Chats t.user_input messages _ e r)
      ]
      | inr e ↦ rw e (straight-Chats t.user_input messages _ e (rounds_strong t messages (suc n) w))
    ]
