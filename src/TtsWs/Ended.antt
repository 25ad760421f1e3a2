-- ===== src/TtsWs/Ended.antt =====
-- crates/voice_server/src/client/tts_ws.rs: whatever calls are made of a session, its leases are used one
-- after the other, and none is left when it ends.
use voice_ai.Base.{
  ℕ, ◌+◌, zero, suc, ◌≡◌, refl, sym, subst, ap, ◌∙◌, Bool, true, false, Option, none, some, List,
  [], ◌∷◌, ◌++◌, length, Str,
}
use voice_ai.Client.{Result, ok, err, TtsEvent}
use voice_ai.TtsWs.Message.{TtsWsConfig, session_close}
use voice_ai.TtsWs.Session.{
  invalidates, drops, Frame, Outside, TtsWsInputSession, Call, ◌>>◌, send, send_on,
}
use voice_ai.TtsWs.Events.{
  close_held, close, finish_held, finish, event_loop, drop_session, speak_whole, synthesize,
  is_last_event,
}
use voice_ai.TtsWs.Uses.{
  held_after, held_after-append, Uses, Uses-bind, Uses-pure, Uses-from, Uses-ignored,
}
use voice_ai.TtsWs.Discipline.{send_allowed, self_eq, Uses-send_text, Uses-flush}
use voice_ai.TtsWs.Session.{new_session}
use voice_ai.TtsWs.Events.{
  Event, is_last_event, drop_held, after_event, after_flush, after_text, error_of, call, calls,
  SessionCall, sends_text, flushes, reads, closes, finishes, ignore,
}
use voice_ai.TtsWs.Settled.{Uses-next_event, Uses-choice}

module _ (cfg : TtsWsConfig) (o : Outside) where
  send_close :
      (lease : ℕ) (s : TtsWsInputSession)
      → s.lease ≡ some lease
      → held_after (send o session_close s).0 (some lease) ≡ some (some lease)
  unfolding send
  send_close lease s e =
      subst (λ l. held_after (send_on o l session_close s).0 (some lease) ≡ some (some lease))
        (sym e) (send_allowed o (some lease) session_close s e refl)

  given_up :
      (lease : ℕ) → held_after (invalidates lease ∷ drops lease ∷ []) (some lease) ≡ some none
  given_up lease = rw (self_eq lease, held_after) refl

  close_allowed :
      (l : Option ℕ) (s : TtsWsInputSession)
      → s.lease ≡ l
      → (held_after (close_held cfg o l s).0 l ≡ some none)
        × ((close_held cfg o l s).1.lease ≡ none)
  close_allowed none s e = (refl, e)
  close_allowed (some lease) s e = (
    held_after-append (send o session_close s).0 _ (some lease) (some lease) (send_close lease s e)
        ∙ given_up lease,
    refl,
  )

  finish_allowed :
      (l : Option ℕ) (s : TtsWsInputSession)
      → s.lease ≡ l
      → (held_after (finish_held cfg o l s).0 l ≡ some none)
        × ((finish_held cfg o l s).1.lease ≡ none)
  finish_allowed none s e = (refl, e)
  finish_allowed (some lease) s e = (rw (self_eq lease, held_after) refl, refl)

  -- Both ways to end a session leave it without a lease.
  close_ends :
      (s : TtsWsInputSession)
      → (held_after (close cfg o s).0 s.lease ≡ some none) × ((close cfg o s).1.lease ≡ none)
  unfolding close
  close_ends s = close_allowed s.lease (record s { closed = true }) refl

  finish_ends :
      (s : TtsWsInputSession)
      → (held_after (finish cfg o s).0 s.lease ≡ some none) × ((finish cfg o s).1.lease ≡ none)
  unfolding finish
  finish_ends s = finish_allowed s.lease (record s { closed = true }) refl

  Uses-close : Uses false (close cfg o) false
  Uses-close = Uses-from false (λ s h. (close_ends s).0 ∙ ap some (sym (close_ends s).1))

  Uses-finish : Uses false (finish cfg o) false
  Uses-finish = Uses-from false (λ s h. (finish_ends s).0 ∙ ap some (sym (finish_ends s).1))

  Uses-ignore :
      {A : Type 0} {m : Call A} (b : Bool) → Uses false m b → Uses false (ignore cfg o m) false
  Uses-ignore b u = Uses-bind false (Uses-ignored b u) (λ _. Uses-pure false tt)

  Uses-call : (c : SessionCall) → Uses false (call cfg o c) false
  unfolding call
  Uses-call (sends_text text) = Uses-ignore true (Uses-send_text o text)
  Uses-call flushes = Uses-ignore true (Uses-flush o)
  Uses-call reads = Uses-ignore false (Uses-next_event cfg o)
  Uses-call closes = Uses-ignore false Uses-close
  Uses-call finishes = Uses-ignore false Uses-finish

  Uses-calls : (cs : List SessionCall) → Uses false (calls cfg o cs) false
  unfolding calls
  Uses-calls [] = Uses-pure false tt
  Uses-calls (c ∷ more) = Uses-bind false (Uses-call c) (λ _. Uses-calls more)

  -- Whatever calls are made of a session and whatever the pool, the connections and the clock do, each
  -- message goes over a connection whose lease is held, a lease is acquired only when the one before
  -- was invalidated, released or dropped, and after `close` or `finish` none is held.
  pub calls-end :
      (cs : List SessionCall) (incoming : List Frame)
      → (let s = (calls cfg o cs (new_session incoming)).1 in
          let acts = (calls cfg o cs (new_session incoming)).0 in
          (held_after (acts ++ (finish cfg o s).0) none ≡ some none)
          × (held_after (acts ++ (close cfg o s).0) none ≡ some none))
  calls-end cs incoming =
      let s = (calls cfg o cs (new_session incoming)).1 in
      let acts = (calls cfg o cs (new_session incoming)).0 in
      let used = (Uses-calls cs).allowed (new_session incoming) refl in
      (
        held_after-append acts (finish cfg o s).0 none s.lease used ∙ (finish_ends s).0,
        held_after-append acts (close cfg o s).0 none s.lease used ∙ (close_ends s).0,
      )

  Uses-after_event :
      (given : Event) {rest : Call (List (Result TtsEvent))}
      → Uses false rest false
      → Uses false (after_event cfg o given rest) false
  unfolding after_event
  Uses-after_event none u = Uses-pure false []
  Uses-after_event (some event) {rest} u =
      Uses-choice cfg o (is_last_event cfg o event)
        (Uses-bind false (Uses-ignored false Uses-finish)
          (λ r. Uses-pure false (event ∷ error_of cfg o r)))
        (Uses-bind false u (λ events. Uses-pure false (event ∷ events)))

  Uses-event_loop : (fuel : ℕ) → Uses false (event_loop cfg o fuel) false
  unfolding event_loop
  Uses-event_loop zero = Uses-pure false []
  Uses-event_loop (suc fuel) =
      Uses-bind false (Uses-next_event cfg o)
        (λ given. Uses-after_event given (Uses-event_loop fuel))

  Uses-after_flush : (fuel : ℕ) (r : Result Unit) → Uses false (after_flush cfg o fuel r) false
  unfolding after_flush
  Uses-after_flush fuel (err e) = Uses-pure false (err e ∷ [])
  Uses-after_flush fuel (ok a) = Uses-event_loop fuel

  Uses-after_text : (fuel : ℕ) (r : Result Unit) → Uses false (after_text cfg o fuel r) false
  unfolding after_text
  Uses-after_text fuel (err e) = Uses-pure false (err e ∷ [])
  Uses-after_text fuel (ok a) =
      Uses-bind false (Uses-ignored true (Uses-flush o)) (λ r. Uses-after_flush fuel r)

  Uses-speak_whole : (fuel : ℕ) (text : Str) → Uses false (speak_whole cfg o fuel text) false
  unfolding speak_whole
  Uses-speak_whole fuel text =
      Uses-bind false (Uses-ignored true (Uses-send_text o text)) (λ r. Uses-after_text fuel r)

  dropped :
      {A : Type 0} (l : Option ℕ) (s : TtsWsInputSession) (r : Result A)
      → held_after (◌>>◌ (drop_held cfg o l) (λ s. ([], s, r)) s).0 l ≡ some none
  unfolding drop_held
  dropped none s r = refl
  dropped (some lease) s r = rw (self_eq lease, held_after) refl

  -- A synthesis of a whole text uses only connections whose lease it holds, and keeps no lease.
  pub synthesize-ends :
      (incoming : List Frame) (text : Str)
      → held_after (synthesize cfg o incoming text).0 none ≡ some none
  unfolding synthesize drop_session
  synthesize-ends incoming text =
      let (acts, s, r) = speak_whole cfg o (length incoming + 2) text (new_session incoming) in
      let used =
        (Uses-speak_whole (length incoming + 2) text).allowed (new_session incoming) refl in
      held_after-append acts _ none s.lease used ∙ dropped s.lease s r
