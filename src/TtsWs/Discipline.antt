-- ===== src/TtsWs/Discipline.antt =====
-- crates/voice_server/src/client/tts_ws.rs: sending and flushing use a connection only while its lease is
-- held.
use voice_ai.Base.{
  ℕ, ◌-◌, ◌==◌, ==_iff, ◌≡◌, refl, sym, ap, ◌∙◌, inl, inr, Bool, true, false, not, Option, none,
  some, Option-cases, ◌++◌, is_empty, length, Str,
}
use voice_ai.Client.{Result, ok, err}
use voice_ai.TtsWs.Message.{ClientMessage, input_text, input_done}
use voice_ai.TtsWs.Session.{
  input_chars, input_wait, waiting_for_done, Outside, TtsWsInputSession, acquire_lease, send,
  send_on, ensure_held, give_up_acts, set_lease, flush_lease, give_up, reconnect, ensure_lease,
  retry_text, note_input, send_accepted, send_text, retry_done, note_wait, flush_held, flush, now,
  is_waiting,
}
use voice_ai.TtsWs.Uses.{
  held_after, held_after-append, allows, holds_if_ok, Uses, Uses-bind, Uses-quiet, Uses-observe,
  Uses-pure, Uses-get, Uses-modify, Uses-when, Uses-weaken, Uses-attempt, Uses-fail, Uses-if,
}

pub self_eq : (n : ℕ) → (n == n) ≡ true
self_eq n = (==_iff n n).1 refl

module _ (o : Outside) where
  -- The session has no lease.
  acquire_allowed :
      (c : Bool) (s : TtsWsInputSession)
      → s.lease ≡ none
      → (held_after (acquire_lease o c s).0 none ≡ some (acquire_lease o c s).1.lease)
        × (holds_if_ok true (acquire_lease o c s).1.lease (acquire_lease o c s).2 ≡ true)
  unfolding acquire_lease
  acquire_allowed c s h = elim (Option-cases (o.acquire_error s.readings)) [
    | inl e ↦ rw e (refl, refl)
    | inr (x, e) ↦ rw e (ap some (sym h), refl)
  ]

  pub send_lease : (m : ClientMessage) (s : TtsWsInputSession) → (send o m s).1.lease ≡ s.lease
  unfolding send
  send_lease m s = on s.lease
    where
      on : (l : Option ℕ) → (send_on o l m s).1.lease ≡ s.lease
      on none = refl
      on (some lease) = refl

  pub send_allowed :
      (l : Option ℕ) (m : ClientMessage) (s : TtsWsInputSession)
      → s.lease ≡ l
      → allows true l ≡ true
      → held_after (send_on o l m s).0 l ≡ some l
  unfolding send_on
  send_allowed none m s e h = cc
  send_allowed (some lease) m s e h = rw (self_eq lease, held_after) refl

  pub Uses-send : (m : ClientMessage) → Uses true (send o m) true
  unfolding send
  Uses-send m = record {
    allowed = λ s h. rw (send_lease m s) (send_allowed s.lease m s refl h);
    holds = λ s h. ok_held (send o m s).1.lease (send o m s).2 (rw (send_lease m s) h);
  }
    where
      ok_held :
          (l : Option ℕ) (r : Result Unit) → allows true l ≡ true → holds_if_ok true l r ≡ true
      ok_held l (ok a) h = h
      ok_held l (err e) h = refl

  pub reconnect_allowed :
      (l : Option ℕ) (s : TtsWsInputSession)
      → s.lease ≡ l
      → (held_after (give_up_acts o l) l ≡ some none)
  reconnect_allowed none s e = refl
  reconnect_allowed (some lease) s e = rw (self_eq lease, held_after) refl

  pub Uses-reconnect : Uses false (reconnect o) true
  unfolding reconnect give_up
  Uses-reconnect = record {
    allowed = λ s h.
        held_after-append (give_up_acts o s.lease) _ s.lease none (reconnect_allowed s.lease s refl)
        ∙ (acquire_allowed true (set_lease none false s) refl).0;
    holds = λ s h. (acquire_allowed true (set_lease none false s) refl).1;
  }

  pub Uses-ensure : Uses false (ensure_lease o) true
  unfolding ensure_lease
  Uses-ensure = record {
    allowed = λ s h. (at s.lease s refl).0;
    holds = λ s h. (at s.lease s refl).1;
  }
    where
      at :
          (l : Option ℕ) (s : TtsWsInputSession)
          → s.lease ≡ l
          → (held_after (ensure_held o l s).0 l ≡ some (ensure_held o l s).1.lease)
            × (holds_if_ok true (ensure_held o l s).1.lease (ensure_held o l s).2 ≡ true)
      at none s e = acquire_allowed (not s.config_sent) s e
      at (some lease) s e = (ap some (sym e), rw e refl)

  pub Uses-now : (b : Bool) → Uses b (now o) b
  Uses-now b = Uses-quiet b (λ s. refl) (λ s. refl)

  pub Uses-retry_text : (text : Str) (r : Result Unit) → Uses true (retry_text o text r) true
  unfolding retry_text
  Uses-retry_text text (ok a) = Uses-pure true a
  Uses-retry_text text (err e) =
      Uses-bind true (Uses-weaken true Uses-reconnect) (λ _. Uses-send (input_text text))

  pub Uses-note_input : (b : Bool) (t : Option ℕ) → Uses b (note_input o t) b
  Uses-note_input b (some t) = Uses-pure b tt
  Uses-note_input b none =
      Uses-bind b (Uses-now b)
        (λ t. Uses-modify b (λ s. record s { input_started_at = some t }) (λ s. refl))

  pub Uses-send_accepted : (text : Str) → Uses false (send_accepted o text) true
  unfolding send_accepted
  Uses-send_accepted text = Uses-bind true Uses-ensure (λ _.
      Uses-bind true (Uses-attempt (Uses-send (input_text text)) (send_lease (input_text text)))
        (λ r. Uses-bind true (Uses-retry_text text r) (λ _.
          Uses-bind true (Uses-get true (λ s. s.input_started_at)) (λ t.
            Uses-bind true (Uses-note_input true t) (λ _.
              Uses-bind true
                (Uses-modify true (λ s. record s { utterance_text = s.utterance_text ++ text })
                  (λ s. refl))
                (λ _. Uses-observe true (input_chars (length text))))))))

  pub Uses-send_text : (text : Str) → Uses false (send_text o text) true
  unfolding send_text
  Uses-send_text text =
      Uses-if (λ s. s.closed) (Uses-fail false true _)
        (Uses-if (λ s. is_waiting s.utterance_state) (Uses-fail false true _)
          (Uses-send_accepted text))

  pub Uses-retry_done : (r : Result Unit) → Uses true (retry_done o r) true
  unfolding retry_done
  Uses-retry_done (ok a) = Uses-pure true a
  Uses-retry_done (err e) = Uses-bind true (Uses-get true (λ s. s.utterance_text)) (λ pending.
      Uses-bind true (Uses-weaken true Uses-reconnect) (λ _.
        Uses-bind true (Uses-when true (not (is_empty pending)) (Uses-send (input_text pending)))
          (λ _. Uses-send input_done)))

  pub Uses-note_wait : (b : Bool) (t : Option ℕ) → Uses b (note_wait o t) b
  Uses-note_wait b none = Uses-pure b tt
  Uses-note_wait b (some t) =
      Uses-bind b (Uses-now b) (λ now. Uses-observe b (input_wait (now - t)))

  pub Uses-flush_held : Uses true (flush_held o) true
  unfolding flush_held
  Uses-flush_held =
      Uses-bind true (Uses-attempt (Uses-send input_done) (send_lease input_done)) (λ r.
        Uses-bind true (Uses-retry_done r) (λ _. Uses-bind true (Uses-now true) (λ t.
          Uses-bind true
            (Uses-modify true (λ s. record s { utterance_started_at = some t }) (λ s. refl))
            (λ _. Uses-bind true (Uses-get true (λ s. s.input_started_at)) (λ started.
              Uses-bind true
                (Uses-modify true (λ s. record s { input_started_at = none }) (λ s. refl))
                (λ _. Uses-bind true (Uses-note_wait true started) (λ _.
                  Uses-modify true
                    (λ s. record s {
                      first_audio_logged = false;
                      audio_bytes = 0;
                      last_audio_at = none;
                      utterance_state = waiting_for_done;
                    })
                    (λ s. refl))))))))

  pub Uses-flush : Uses false (flush o) true
  unfolding flush flush_lease
  Uses-flush =
      Uses-if (λ s. s.closed) (Uses-fail false true _)
        (record { allowed = λ s h. (at s.lease s refl).0; holds = λ s h. (at s.lease s refl).1 })
    where
      at :
          (l : Option ℕ) (s : TtsWsInputSession)
          → s.lease ≡ l
          → (held_after (flush_lease o l s).0 s.lease ≡ some (flush_lease o l s).1.lease)
            × (holds_if_ok true (flush_lease o l s).1.lease (flush_lease o l s).2 ≡ true)
      at none s e = (refl, refl)
      at (some lease) s e =
          let held : allows true s.lease ≡ true = rw e refl in
          (Uses-flush_held.allowed s held, Uses-flush_held.holds s held)
