-- ===== src/TtsWs/Session.antt =====
-- crates/voice_server/src/client/tts_ws.rs: `TtsWsInputSession`. What a call does to the pool, to its
-- connection and to the metrics is the list of its acts. The outcomes of the pool, of sending and of the
-- clock are functions of the number of readings before; a lease is named by that number. What will be
-- read from the connection is a list, and when it ends nothing comes before the time limit.
use voice_ai.Base.{
  ℕ, suc, ◌-◌, Bool, true, false, not, Option, none, some, List, [], ◌∷◌, ◌++◌, length, is_empty,
  if◌then◌else◌, Str, codes,
}
use voice_ai.Client.{ClientError, ws, Result, ok, err}
use voice_ai.TtsWs.Message.{ClientMessage, input_text, input_done, ServerMessage}

pub data Observation : Type 0 where
  input_chars : ℕ → Observation
  input_wait audio_chunk chunk_interval first_audio complete : ℕ → Observation
  audio_duration : (bytes sample_rate channels : ℕ) → Observation
  realtime_factor : (bytes sample_rate channels duration : ℕ) → Observation
  provider_error : Observation

-- A lease that is dropped and not released has its entry invalidated once more, in a task.
pub data Act : Type 0 where
  acquires : (lease : ℕ) (send_config : Bool) → Act
  fails_acquire : (send_config : Bool) → Act
  sends : (lease : ℕ) → ClientMessage → (arrives : Bool) → Act
  invalidates drops releases : (lease : ℕ) → Act
  observes : Observation → Act

pub data UtteranceState : Type 0 where
  collecting waiting_for_done : UtteranceState

abbrev pub is_waiting : UtteranceState → Bool
is_waiting collecting = false
is_waiting waiting_for_done = true

-- A message or an error, or the time limit.
pub data Frame : Type 0 where
  late : Frame
  frame : Result ServerMessage → Frame

pub record Outside : Type 0 where
  pub acquire_error : ℕ → Option ClientError
  pub send_error : ℕ → Option ClientError
  pub clock : ℕ → ℕ

-- `incoming` and `readings` belong to the outside.
pub record TtsWsInputSession : Type 0 where
  pub lease : Option ℕ
  pub config_sent : Bool
  pub utterance_text : Str
  pub utterance_state : UtteranceState
  pub utterance_started_at : Option ℕ
  pub input_started_at : Option ℕ
  pub closed : Bool
  pub seq : ℕ
  pub first_audio_logged : Bool
  pub audio_bytes : ℕ
  pub last_audio_at : Option ℕ
  pub incoming : List Frame
  pub readings : ℕ

abbrev pub new_session : List Frame → TtsWsInputSession
new_session incoming = record {
  lease = none;
  config_sent = false;
  utterance_text = [];
  utterance_state = collecting;
  utterance_started_at = none;
  input_started_at = none;
  closed = false;
  seq = 0;
  first_audio_logged = false;
  audio_bytes = 0;
  last_audio_at = none;
  incoming = incoming;
  readings = 0;
}

-- Code of a session: its acts, the session afterwards, and its value or error.
abbrev pub Call : Type 0 → Type 0
Call A = TtsWsInputSession → List Act × TtsWsInputSession × Result A

abbrev pub and_then :
    {A : Type 0} {B : Type 0}
    → List Act
    → TtsWsInputSession
    → Result A
    → (A → Call B)
    → List Act × TtsWsInputSession × Result B
and_then out s (err e) f = (out, s, err e)
and_then out s (ok a) f = let (more, s', r) = f a s in (out ++ more, s', r)

infixl 5 ◌>>=◌ ◌>>◌
abbrev pub ◌>>=◌ : {A : Type 0} {B : Type 0} → Call A → (A → Call B) → Call B
◌>>=◌ m f = λ s. let (out, s', r) = m s in and_then out s' r f

abbrev pub ◌>>◌ : {A : Type 0} {B : Type 0} → Call A → Call B → Call B
◌>>◌ m n = m >>= λ _. n

abbrev pub pure : {A : Type 0} → A → Call A
pure a = λ s. ([], s, ok a)

abbrev pub fail : {A : Type 0} → ClientError → Call A
fail e = λ s. ([], s, err e)

abbrev pub act : List Act → Call Unit
act l = λ s. (l, s, ok tt)

abbrev pub observe : Observation → Call Unit
observe x = act (observes x ∷ [])

abbrev pub get : {A : Type 0} → (TtsWsInputSession → A) → Call A
get f = λ s. ([], s, ok (f s))

abbrev pub modify : (TtsWsInputSession → TtsWsInputSession) → Call Unit
modify f = λ s. ([], f s, ok tt)

abbrev pub when : Bool → Call Unit → Call Unit
when true m = m
when false m = pure tt

-- The value or the error of a call, which goes on either way.
abbrev pub attempt : {A : Type 0} → Call A → Call (Result A)
attempt m = λ s. let (out, s', r) = m s in (out, s', ok r)

abbrev pub next_reading : TtsWsInputSession → TtsWsInputSession
next_reading s = record s { readings = suc s.readings }

-- `set` writes the fields that hold the lease of a connection that is configured.
abbrev pub set_lease : Option ℕ → Bool → TtsWsInputSession → TtsWsInputSession
set_lease l configured s = record s { lease = l; config_sent = configured }

abbrev pub outcome : {A : Type 0} → A → Option ClientError → Result A
outcome a none = ok a
outcome a (some e) = err e

abbrev pub arrived : Option ClientError → Bool
arrived none = true
arrived (some e) = false

module _ (o : Outside) where
  abbrev pub now : Call ℕ
  now = λ s. ([], next_reading s, ok (o.clock s.readings))

  abbrev pub acquire_act : ℕ → Bool → Option ClientError → Act
  acquire_act lease send_config none = acquires lease send_config
  acquire_act lease send_config (some e) = fails_acquire send_config

  -- `TtsWsClient::acquire`, and the fields written after it.
  unfoldable pub acquire_lease : Bool → Call Unit
  acquire_lease send_config s =
      let lease = s.readings in
      let failed = o.acquire_error s.readings in
      (
        acquire_act lease send_config failed ∷ [],
        (if arrived failed then set_lease (some lease) true (next_reading s) else next_reading s),
        outcome tt failed,
      )

  -- `TtsWsLease::send` on the lease that is held; none is an unwrap that panics.
  unfoldable pub send_on : Option ℕ → ClientMessage → Call Unit
  send_on none message s = ([], s, err (ws (codes "panic")))
  send_on (some lease) message s =
      let failed = o.send_error s.readings in
      (sends lease message (arrived failed) ∷ [], next_reading s, outcome tt failed)

  unfoldable pub send : ClientMessage → Call Unit
  unfolding send_on
  send message s = send_on s.lease message s

  -- The lease is taken out, its entry is invalidated, and it is dropped.
  abbrev pub give_up_acts : Option ℕ → List Act
  give_up_acts none = []
  give_up_acts (some lease) = invalidates lease ∷ drops lease ∷ []

  unfoldable pub give_up : Call Unit
  give_up s = (give_up_acts s.lease, set_lease none false s, ok tt)

  -- What `send_text` and `flush` do where a message did not arrive.
  unfoldable pub reconnect : Call Unit
  unfolding give_up acquire_lease
  reconnect = do give_up; acquire_lease true

  unfoldable pub ensure_held : Option ℕ → Call Unit
  unfolding acquire_lease
  ensure_held (some lease) s = ([], s, ok tt)
  ensure_held none s = acquire_lease (not s.config_sent) s

  unfoldable pub ensure_lease : Call Unit
  unfolding ensure_held
  ensure_lease s = ensure_held s.lease s

  abbrev pub session_closed : ClientError
  session_closed = ws (codes "TTS input session closed")

  unfoldable pub retry_text : Str → Result Unit → Call Unit
  unfolding reconnect send
  retry_text text (ok _) = pure tt
  retry_text text (err e) = do reconnect; send (input_text text)

  abbrev pub note_input : Option ℕ → Call Unit
  note_input (some t) = pure tt
  note_input none = do t ← now; modify (λ s. record s { input_started_at = some t })

  abbrev pub text_accepted : Str → Call Unit
  text_accepted text = do
    started ← get (λ s. s.input_started_at)
    note_input started
    modify (λ s. record s { utterance_text = s.utterance_text ++ text })
    observe (input_chars (length text))

  unfoldable pub send_accepted : Str → Call Unit
  unfolding ensure_lease send retry_text
  send_accepted text = do
    ensure_lease
    result ← attempt (send (input_text text))
    retry_text text result
    text_accepted text

  unfoldable pub send_text : Str → Call Unit
  unfolding send_accepted
  send_text text s =
      if s.closed
      then fail session_closed s
      else if is_waiting s.utterance_state
      then fail (ws (codes "cannot send text before previous utterance session.done")) s
      else send_accepted text s

  -- The whole utterance again, where there is any, and its end.
  abbrev pub resend : Str → Call Unit
  resend pending = do when (not (is_empty pending)) (send (input_text pending)); send input_done

  unfoldable pub retry_done : Result Unit → Call Unit
  unfolding reconnect send
  retry_done (ok _) = pure tt
  retry_done (err e) = do pending ← get (λ s. s.utterance_text); reconnect; resend pending

  abbrev pub note_wait : Option ℕ → Call Unit
  note_wait none = pure tt
  note_wait (some started) = do t ← now; observe (input_wait (t - started))

  abbrev pub begin_wait : TtsWsInputSession → TtsWsInputSession
  begin_wait s = record s {
    first_audio_logged = false;
    audio_bytes = 0;
    last_audio_at = none;
    utterance_state = waiting_for_done;
  }

  abbrev pub await_done : Call Unit
  await_done = do
    t ← now
    modify (λ s. record s { utterance_started_at = some t })
    started ← get (λ s. s.input_started_at)
    modify (λ s. record s { input_started_at = none })
    note_wait started
    modify begin_wait

  unfoldable pub flush_held : Call Unit
  unfolding send retry_done
  flush_held = do result ← attempt (send input_done); retry_done result; await_done

  unfoldable pub flush_lease : Option ℕ → Call Unit
  unfolding flush_held
  flush_lease none = fail (ws (codes "flush called before send_text"))
  flush_lease (some lease) = flush_held

  unfoldable pub flush : Call Unit
  unfolding flush_lease
  flush s = if s.closed then fail session_closed s else flush_lease s.lease s
