-- ===== src/TtsWs/Fuel.antt =====
-- crates/voice_server/src/client/tts_ws.rs: the loop of `synthesize` over its events ends.
use voice_ai.Base.{
  ℕ, zero, suc, ◌+◌, ◌-◌, ◌==◌, ◌≤◌, ◌<◌, ltb, max, ◌≡◌, refl, ap, ◌∙◌, subst, inl, inr, Bool, true,
  false, not, Option, none, some, List, [], ◌∷◌, ◌++◌, length, Bool-cases, if◌then◌else◌, arith,
}
use native.Mathlib.Nat.{add-suc}
use voice_ai.Client.{ClientError, Result, ok, err, TtsEvent}
use voice_ai.TtsWs.Message.{TtsWsConfig, audio_start, audio, audio_done, session_done, error}
use voice_ai.TtsWs.Session.{
  Act, Observation, audio_chunk, complete, audio_duration, realtime_factor, provider_error,
  collecting, Frame, late, frame, Outside, TtsWsInputSession, Call, and_then, ◌>>=◌, ◌>>◌, pure,
  observe, get, modify, when, now, give_up,
}
use voice_ai.TtsWs.Events.{
  Event, timed_out, saturating_add, rate, is_last_event, give_error, note_interval, note_first,
  on_audio, note_complete, on_session_done, elapsed_now, on_frame, read_round, read_loop,
  next_event, after_event, event_loop,
}

-- How many more events a session can give: none without a lease, else one for each frame and one more.
abbrev pub room : Option ℕ → List Frame → ℕ
room none incoming = 0
room (some lease) incoming = suc (length incoming)

room-le : (l : Option ℕ) (incoming : List Frame) → room l incoming ≤ suc (length incoming)
room-le none incoming = omega arith
room-le (some lease) incoming = omega arith

-- Calls that leave the frames that are still to come.
record Reads {A : Type 0} (m : Call A) : Type 0 where
  kept : (s : TtsWsInputSession) → (m s).1.incoming ≡ s.incoming

Reads-bind :
    {A : Type 0} {B : Type 0} {m : Call A} {f : A → Call B}
    → Reads m
    → ((a : A) → Reads (f a))
    → Reads (m >>= f)
Reads-bind {A} {B} {m} {f} d e = record { kept = λ s. next (m s).0 (m s).1 (m s).2 ∙ d.kept s }
  where
    next :
        (out : List Act) (s : TtsWsInputSession) (r : Result A)
        → (and_then out s r f).1.incoming ≡ s.incoming
    next out s (err x) = refl
    next out s (ok a) = (e a).kept s

Reads-get : {A : Type 0} (f : TtsWsInputSession → A) → Reads (get f)
Reads-get f = record { kept = λ s. refl }

Reads-observe : (x : Observation) → Reads (observe x)
Reads-observe x = record { kept = λ s. refl }

Reads-modify :
    (f : TtsWsInputSession → TtsWsInputSession)
    → ((s : TtsWsInputSession) → (f s).incoming ≡ s.incoming)
    → Reads (modify f)
Reads-modify f e = record { kept = e }

module _ (cfg : TtsWsConfig) (o : Outside) where
  Reads-note_interval : (t : Option ℕ) (n : ℕ) → Reads (note_interval cfg o t n)
  Reads-note_interval none n = record { kept = λ s. refl }
  Reads-note_interval (some t) n = record { kept = λ s. refl }

  Reads-note_first : (b : Bool) (t : Option ℕ) → Reads (when b (note_first cfg o t))
  Reads-note_first false t = record { kept = λ s. refl }
  Reads-note_first true none = record { kept = λ s. refl }
  Reads-note_first true (some t) = record { kept = λ s. refl }

  abbrev heard_audio : List ℕ → ℕ → TtsWsInputSession → TtsWsInputSession
  heard_audio bytes t s = record s {
    last_audio_at = some t;
    audio_bytes = saturating_add 64 s.audio_bytes (length bytes);
    seq = saturating_add 32 s.seq 1;
  }

  Reads-on_audio : (bytes : List ℕ) → Reads (on_audio cfg o bytes)
  unfolding on_audio
  Reads-on_audio bytes = Reads-bind (Reads-observe (audio_chunk (length bytes))) (λ _.
      Reads-bind {m = now o} (record { kept = λ s. refl })
        (λ t. Reads-bind (Reads-get (λ s. s.last_audio_at)) (λ last.
          Reads-bind (Reads-note_interval last t) (λ _.
            Reads-bind (Reads-modify (heard_audio bytes t) (λ s. refl)) (λ _.
              Reads-bind (Reads-get (λ s. s.first_audio_logged)) (λ logged.
                Reads-bind (Reads-modify (λ s. record s { first_audio_logged = true }) (λ s. refl))
                  (λ _. Reads-bind (Reads-get (λ s. s.utterance_started_at)) (λ started.
                    Reads-bind (Reads-note_first (not logged) started) (λ _.
                      Reads-bind
                        {f = λ seq.
                          pure (some (ok (record { seq = seq; bytes = bytes; is_last = false })))}
                        (Reads-get (λ s. s.seq)) (λ seq. record { kept = λ s. refl }))))))))))

  Reads-when : (b : Bool) (x : Observation) → Reads (when b (observe x))
  Reads-when true x = record { kept = λ s. refl }
  Reads-when false x = record { kept = λ s. refl }

  Reads-note_complete : (t : Option ℕ) → Reads (note_complete cfg o t)
  Reads-note_complete none = record { kept = λ s. refl }
  Reads-note_complete (some t) =
      Reads-bind {m = now o} (record { kept = λ s. refl })
        (λ n. Reads-bind (Reads-observe (complete (n - t))) (λ _.
          Reads-bind (Reads-get (λ s. s.audio_bytes)) (λ bytes.
            Reads-bind (Reads-observe (audio_duration bytes (rate cfg o) (max cfg.channels 1)))
              (λ _.
                Reads-when (ltb 0 (n - t))
                  (realtime_factor bytes (rate cfg o) (max cfg.channels 1) (n - t))))))

  abbrev all_done : TtsWsInputSession → TtsWsInputSession
  all_done s = record s {
    utterance_text = [];
    utterance_state = collecting;
    utterance_started_at = none;
    first_audio_logged = false;
    audio_bytes = 0;
    last_audio_at = none;
    seq = saturating_add 32 s.seq 1;
  }

  Reads-on_session_done : Reads (on_session_done cfg o)
  unfolding on_session_done
  Reads-on_session_done = Reads-bind (Reads-get (λ s. s.utterance_started_at)) (λ started.
      Reads-bind (Reads-note_complete started) (λ _.
        Reads-bind (Reads-modify all_done (λ s. refl)) (λ _.
          Reads-bind
            {f = λ seq. pure (some (ok (record { seq = seq; bytes = []; is_last = true })))}
            (Reads-get (λ s. s.seq)) (λ seq. record { kept = λ s. refl }))))

  -- Where a call gives an event, the session has room for at most `n` more.
  abbrev Leaves : ℕ → (List Act × TtsWsInputSession × Result Event) → Type 0
  Leaves n out = (e : Result TtsEvent) → out.2 ≡ ok (some e) → room out.1.lease out.1.incoming ≤ n

  Leaves-error : (n : ℕ) (x : ClientError) (s : TtsWsInputSession) → Leaves n (give_error cfg o x s)
  unfolding give_error give_up
  Leaves-error n x s e k = omega arith

  Leaves-provider_error :
      (n : ℕ) (x : ClientError) (s : TtsWsInputSession)
      → Leaves n ((observe provider_error >> give_error cfg o x) s)
  unfolding give_error give_up
  Leaves-provider_error n x s e k = omega arith

  Leaves-Reads :
      {m : Call Event} → Reads m → (s : TtsWsInputSession) → Leaves (suc (length s.incoming)) (m s)
  Leaves-Reads {m} r s e k =
      subst (λ fs. room (m s).1.lease (m s).1.incoming ≤ suc (length fs)) (r.kept s)
        (room-le (m s).1.lease (m s).1.incoming)

  -- A frame that is not an event leaves the rest of the loop.
  Leaves-on_frame :
      (f : Frame) (rest : Call Event) (s : TtsWsInputSession)
      → ((s' : TtsWsInputSession) → s'.incoming ≡ s.incoming → Leaves (length s.incoming) (rest s'))
      → Leaves (suc (length s.incoming)) (on_frame cfg o f rest s)
  unfolding on_frame
  Leaves-on_frame late rest s h = Leaves-error _ _ s
  Leaves-on_frame (frame (ok (audio bytes))) rest s h = Leaves-Reads (Reads-on_audio bytes) s
  Leaves-on_frame (frame (ok audio_start)) rest s h = λ e k. omega (arith, h s refl e k)
  Leaves-on_frame (frame (ok (audio_done false))) rest s h = λ e k. omega (arith, h s refl e k)
  Leaves-on_frame (frame (ok (audio_done true))) rest s h = Leaves-provider_error _ _ s
  Leaves-on_frame (frame (ok session_done)) rest s h = Leaves-Reads Reads-on_session_done s
  Leaves-on_frame (frame (ok (error message))) rest s h = Leaves-provider_error _ _ s
  Leaves-on_frame (frame (err x)) rest s h = Leaves-error _ _ s

  Leaves-choice :
      (n : ℕ) (b : Bool) (x : ClientError) (more : Call Event) (s : TtsWsInputSession)
      → Leaves n (more s)
      → Leaves n ((if b then give_error cfg o x else more) s)
  Leaves-choice n true x more s h = Leaves-error n x s
  Leaves-choice n false x more s h = h

  Leaves-read_round :
      (n : ℕ) (l : Option ℕ) (more : Call Event) (s : TtsWsInputSession)
      → ((s' : TtsWsInputSession) → s'.incoming ≡ s.incoming → Leaves n (more s'))
      → Leaves n (read_round cfg o l more s)
  unfolding read_round
  Leaves-read_round n none more s h = λ e k. absurd (none_given e k)
    where
      none_given : (e : Result TtsEvent) → ◌≡◌ {A = Result Event} (ok none) (ok (some e)) → ⊥
      none_given e k = cc
  Leaves-read_round n (some lease) more s h = timed s.utterance_started_at
    where
      timed :
          (t : Option ℕ)
          → Leaves n (
              (elapsed_now cfg o t >>= λ remaining.
              if remaining == 0 then give_error cfg o (timed_out cfg o) else more)
                s)
      timed none = Leaves-choice n (cfg.timeout == 0) (timed_out cfg o) more s (h s refl)
      timed (some t) =
          Leaves-choice n (cfg.timeout - (o.clock s.readings - t) == 0) (timed_out cfg o) more _
            (h _ refl)

  Leaves-read_loop :
      (fs : List Frame) (s : TtsWsInputSession)
      → s.incoming ≡ fs
      → Leaves (length fs) (read_loop cfg o fs s)
  unfolding read_loop
  Leaves-read_loop [] s at =
      Leaves-read_round 0 s.lease (give_error cfg o (timed_out cfg o)) s
        (λ s' same. Leaves-error 0 _ s')
  Leaves-read_loop (f ∷ fs) s at =
      Leaves-read_round (suc (length fs)) s.lease
        (modify (λ s. record s { incoming = fs }) >> on_frame cfg o f (read_loop cfg o fs)) s
        (λ s' same.
          Leaves-on_frame f (read_loop cfg o fs) (record s' { incoming = fs })
            (λ s'' rest. Leaves-read_loop fs s'' rest))

  -- Without a lease there is no event.
  held_of_event :
      (s : TtsWsInputSession) (l : Option ℕ) (more : Call Event) (e : Result TtsEvent)
      → (read_round cfg o l more s).2 ≡ ok (some e)
      → room l s.incoming ≡ suc (length s.incoming)
  unfolding read_round
  held_of_event s none more e k = cc
  held_of_event s (some lease) more e k = refl

  held_of_loop :
      (fs : List Frame) (s : TtsWsInputSession) (e : Result TtsEvent)
      → (read_loop cfg o fs s).2 ≡ ok (some e)
      → room s.lease s.incoming ≡ suc (length s.incoming)
  unfolding read_loop
  held_of_loop [] s e k = held_of_event s s.lease (give_error cfg o (timed_out cfg o)) e k
  held_of_loop (f ∷ fs) s e k =
      held_of_event s s.lease
        (modify (λ s. record s { incoming = fs }) >> on_frame cfg o f (read_loop cfg o fs)) e k

  next_event-room :
      (s : TtsWsInputSession) (e : Result TtsEvent)
      → (next_event cfg o s).2 ≡ ok (some e)
      → room (next_event cfg o s).1.lease (next_event cfg o s).1.incoming < room s.lease s.incoming
  unfolding next_event
  next_event-room s e k =
      omega (arith, Leaves-read_loop s.incoming s refl e k, held_of_loop s.incoming s e k)

  after_same :
      (given : Event) (rest rest' : Call (List (Result TtsEvent))) (s : TtsWsInputSession)
      → ((e : Result TtsEvent) → given ≡ some e → rest s ≡ rest' s)
      → after_event cfg o given rest s ≡ after_event cfg o given rest' s
  unfolding after_event
  after_same none rest rest' s h = refl
  after_same (some e) rest rest' s h = elim (Bool-cases (is_last_event cfg o e)) [
    | inl last ↦ rw last refl
    | inr more ↦ rw more (
        ap
          (λ (out : List Act × TtsWsInputSession × Result (List (Result TtsEvent))).
            and_then out.0 out.1 out.2 (λ events. pure (e ∷ events)))
          (h e refl))
  ]

  then_same :
      (out : List Act) (s : TtsWsInputSession) (r : Result Event)
      (f g : Event → Call (List (Result TtsEvent)))
      → ((given : Event) → r ≡ ok given → f given s ≡ g given s)
      → and_then out s r f ≡ and_then out s r g
  then_same out s (err x) f g h = refl
  then_same out s (ok given) f g h =
      ap
        (λ (next : List Act × TtsWsInputSession × Result (List (Result TtsEvent))).
          (out ++ next.0, next.1, next.2))
        (h given refl)

  -- The loop over the events ends by itself: where the fuel is more than the number of frames to come
  -- and one, or just not 0 for a session without a connection, more fuel changes nothing.
  pub event_loop_enough :
      (more fuel : ℕ) (s : TtsWsInputSession)
      → room s.lease s.incoming < fuel
      → event_loop cfg o (more + fuel) s ≡ event_loop cfg o fuel s
  unfolding event_loop
  event_loop_enough more zero s h = absurd (omega arith)
  event_loop_enough more (suc fuel) s h = rw (add-suc more fuel) (
      then_same (next_event cfg o s).0 (next_event cfg o s).1 (next_event cfg o s).2
        (λ given. after_event cfg o given (event_loop cfg o (more + fuel)))
        (λ given. after_event cfg o given (event_loop cfg o fuel))
        (λ given k.
          after_same given (event_loop cfg o (more + fuel)) (event_loop cfg o fuel)
            (next_event cfg o s).1
            (λ e is_some.
              let smaller = next_event-room s e (k ∙ ap ok is_some) in
              event_loop_enough more fuel (next_event cfg o s).1 (omega arith))))
