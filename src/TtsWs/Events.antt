-- ===== src/TtsWs/Events.antt =====
-- crates/voice_server/src/client/tts_ws.rs: `next_event`, `close` and `finish` of `TtsWsInputSession`, and
-- `synthesize` of the client, which makes a session for one text.
use voice_ai.Base.{
  ℕ, zero, suc, ◌+◌, ◌-◌, ◌^◌, max, min, ltb, ◌==◌, Bool, true, false, not, Option, none, some,
  List, [], ◌∷◌, length, unwrap_or, if◌then◌else◌, Str, codes,
}
use voice_ai.Client.{ClientError, ws, Result, ok, err, TtsEvent}
use voice_ai.TtsWs.Message.{
  TtsWsConfig, session_close, audio_start, audio, audio_done, session_done, error,
}
use voice_ai.TtsWs.Session.{
  Act, invalidates, drops, releases, audio_chunk, chunk_interval, first_audio, complete,
  audio_duration, realtime_factor, provider_error, collecting, Frame, late, frame, Outside,
  TtsWsInputSession, Call, ◌>>=◌, ◌>>◌, pure, act, observe, get, modify, when, attempt, now, send,
  give_up, send_text, flush, new_session,
}

-- `saturating_add` of a number of w bits
abbrev pub saturating_add : (w a b : ℕ) → ℕ
saturating_add w a b = min (a + b) (2 ^ w - 1)

abbrev pub Event : Type 0
Event = Option (Result TtsEvent)

module _ (cfg : TtsWsConfig) (o : Outside) where
  -- The connection is not used any more, and the error is the event.
  unfoldable pub give_error : ClientError → Call Event
  unfolding give_up
  give_error e = do
    give_up o
    modify (λ s. record s { utterance_started_at = none })
    pure (some (err e))

  abbrev pub timed_out : ClientError
  timed_out = ws (codes "TTS WebSocket request timed out")

  abbrev pub note_interval : Option ℕ → ℕ → Call Unit
  note_interval none t = pure tt
  note_interval (some previous) t = observe (chunk_interval (t - previous))

  abbrev pub note_first : Option ℕ → Call Unit
  note_first none = pure tt
  note_first (some started) = do t ← now o; observe (first_audio (t - started))

  unfoldable pub on_audio : List ℕ → Call Event
  on_audio bytes = do
    observe (audio_chunk (length bytes))
    t ← now o
    last ← get (λ s. s.last_audio_at)
    note_interval last t
    modify (λ s. record s {
      last_audio_at = some t;
      audio_bytes = saturating_add 64 s.audio_bytes (length bytes);
      seq = saturating_add 32 s.seq 1;
    })
    logged ← get (λ s. s.first_audio_logged)
    modify (λ s. record s { first_audio_logged = true })
    started ← get (λ s. s.utterance_started_at)
    when (not logged) (note_first started)
    seq ← get (λ s. s.seq)
    pure (some (ok (record { seq = seq; bytes = bytes; is_last = false })))

  abbrev pub rate : ℕ
  rate = max (unwrap_or cfg.sample_rate 24000) 1

  abbrev pub note_complete : Option ℕ → Call Unit
  note_complete none = pure tt
  note_complete (some started) = do
    t ← now o
    observe (complete (t - started))
    bytes ← get (λ s. s.audio_bytes)
    observe (audio_duration bytes rate (max cfg.channels 1))
    when (ltb 0 (t - started))
        (observe (realtime_factor bytes rate (max cfg.channels 1) (t - started)))

  unfoldable pub on_session_done : Call Event
  on_session_done = do
    started ← get (λ s. s.utterance_started_at)
    note_complete started
    modify (λ s. record s {
      utterance_text = [];
      utterance_state = collecting;
      utterance_started_at = none;
      first_audio_logged = false;
      audio_bytes = 0;
      last_audio_at = none;
      seq = saturating_add 32 s.seq 1;
    })
    seq ← get (λ s. s.seq)
    pure (some (ok (record { seq = seq; bytes = []; is_last = true })))

  -- The time left for the utterance at an instant.
  abbrev pub time_left : Option ℕ → ℕ → ℕ
  time_left none t = cfg.timeout
  time_left (some started) t = cfg.timeout - (t - started)

  abbrev pub elapsed_now : Option ℕ → Call ℕ
  elapsed_now none = pure cfg.timeout
  elapsed_now (some started) = do t ← now o; pure (time_left (some started) t)

  -- What a frame means, where `rest` goes on with the loop.
  unfoldable pub on_frame : Frame → Call Event → Call Event
  unfolding give_error on_audio on_session_done
  on_frame late rest = give_error timed_out
  on_frame (frame (ok (audio bytes))) rest = on_audio bytes
  on_frame (frame (ok audio_start)) rest = rest
  on_frame (frame (ok (audio_done false))) rest = rest
  on_frame (frame (ok (audio_done true))) rest = do
    observe provider_error
    give_error (ws (codes "TTS audio generation failed"))
  on_frame (frame (ok session_done)) rest = on_session_done
  on_frame (frame (ok (error message))) rest = do
    observe provider_error
    give_error (ws (codes "TTS WebSocket provider error"))
  on_frame (frame (err e)) rest = give_error e

  -- One round of the loop: no lease, no time, or the next frame.
  unfoldable pub read_round : Option ℕ → Call Event → Call Event
  unfolding give_error
  read_round none more = pure none
  read_round (some lease) more = do
    started ← get (λ s. s.utterance_started_at)
    remaining ← elapsed_now started
    if remaining == 0 then give_error timed_out else more

  unfoldable pub read_loop : List Frame → Call Event
  unfolding read_round on_frame give_error
  read_loop [] = do lease ← get (λ s. s.lease); read_round lease (give_error timed_out)
  read_loop (f ∷ incoming) =
      let rest = read_loop incoming in
      do
        lease ← get (λ s. s.lease)
        read_round lease (modify (λ s. record s { incoming = incoming }) >> on_frame f rest)

  unfoldable pub next_event : Call Event
  unfolding read_loop
  next_event s = read_loop s.incoming s

  abbrev pub close_held : Option ℕ → Call Unit
  close_held none = pure tt
  close_held (some lease) = do
    sent ← attempt (send o session_close)
    modify (λ s. record s { lease = none })
    act (invalidates lease ∷ drops lease ∷ [])

  unfoldable pub close : Call Unit
  unfolding send
  close = do modify (λ s. record s { closed = true }); lease ← get (λ s. s.lease); close_held lease

  abbrev pub finish_held : Option ℕ → Call Unit
  finish_held none = pure tt
  finish_held (some lease) = do modify (λ s. record s { lease = none }); act (releases lease ∷ [])

  unfoldable pub finish : Call Unit
  finish = do
    modify (λ s. record s { closed = true })
    lease ← get (λ s. s.lease)
    finish_held lease

  abbrev pub is_last_event : Result TtsEvent → Bool
  is_last_event (ok event) = event.is_last
  is_last_event (err e) = false

  abbrev pub error_of : Result Unit → List (Result TtsEvent)
  error_of (ok _) = []
  error_of (err e) = err e ∷ []

  -- A round of `while let Some(event) = input.next_event().await` of `synthesize`.
  unfoldable pub after_event : Event → Call (List (Result TtsEvent)) → Call (List (Result TtsEvent))
  unfolding finish
  after_event none rest = pure []
  after_event (some event) rest =
      if is_last_event event
      then (do finished ← attempt finish; pure (event ∷ error_of finished))
      else (do events ← rest; pure (event ∷ events))

  unfoldable pub event_loop : ℕ → Call (List (Result TtsEvent))
  unfolding next_event after_event
  event_loop zero = pure []
  event_loop (suc fuel) =
      let rest = event_loop fuel in do given ← next_event; after_event given rest

  unfoldable pub drop_held : Option ℕ → Call Unit
  drop_held none s = ([], s, ok tt)
  drop_held (some lease) s = (drops lease ∷ [], record s { lease = none }, ok tt)

  unfoldable pub drop_session : Call Unit
  unfolding drop_held
  drop_session s = drop_held s.lease s

  unfoldable pub after_flush : ℕ → Result Unit → Call (List (Result TtsEvent))
  unfolding event_loop
  after_flush fuel (err e) = pure (err e ∷ [])
  after_flush fuel (ok _) = event_loop fuel

  unfoldable pub after_text : ℕ → Result Unit → Call (List (Result TtsEvent))
  unfolding flush after_flush
  after_text fuel (err e) = pure (err e ∷ [])
  after_text fuel (ok _) = do flushed ← attempt (flush o); after_flush fuel flushed

  unfoldable pub speak_whole : ℕ → Str → Call (List (Result TtsEvent))
  unfolding send_text after_text
  speak_whole fuel text = do accepted ← attempt (send_text o text); after_text fuel accepted

  -- Each round of the loop but the last two reads a frame.
  unfoldable pub synthesize :
      List Frame → Str → List Act × TtsWsInputSession × Result (List (Result TtsEvent))
  unfolding speak_whole drop_session
  synthesize incoming text =
      (do
        events ← attempt (speak_whole (length incoming + 2) text)
        drop_session
        (λ s. ([], s, events)))
        (new_session incoming)

-- Calls of the methods of a session, one after the other, whatever they return.
pub data SessionCall : Type 0 where
  sends_text : Str → SessionCall
  flushes reads closes finishes : SessionCall

module _ (cfg : TtsWsConfig) (o : Outside) where
  abbrev pub ignore : {A : Type 0} → Call A → Call Unit
  ignore m = attempt m >> pure tt

  unfoldable pub call : SessionCall → Call Unit
  unfolding send_text flush next_event close finish
  call (sends_text text) = ignore (send_text o text)
  call flushes = ignore (flush o)
  call reads = ignore (next_event cfg o)
  call closes = ignore (close cfg o)
  call finishes = ignore (finish cfg o)

  unfoldable pub calls : List SessionCall → Call Unit
  unfolding call
  calls [] = pure tt
  calls (c ∷ more) = call c >> calls more
