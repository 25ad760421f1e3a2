-- ===== src/TtsWs/Delivered.antt =====
-- crates/voice_server/src/client/tts_ws.rs: the text that a connection hears by `send_text`.
use voice_ai.Base.{
  ℕ, ◌≡◌, refl, sym, ap, ◌∙◌, subst, ◌⊎◌, inl, inr, Bool, true, false, Option, none, some, ◌++◌,
  length, Bool-cases, if◌then◌else◌, Str,
}
use voice_ai.Client.{ClientError, Result, ok, err}
use voice_ai.TtsWs.Message.{input_text}
use voice_ai.TtsWs.Session.{
  input_chars, Outside, TtsWsInputSession, Call, fail, ◌>>=◌, ◌>>◌, is_waiting, send_text,
  send_accepted, text_accepted, attempt, get, modify, observe, send, retry_text, note_input,
}
use voice_ai.TtsWs.Texts.{
  err-ne-ok, Heard, nothing, hear, heard, Post, Leads, Leads-bind, Same, Leads-then, Leads-goes,
  heard_by, Leads-send, Leads-attempt, Leads-reconnect, Leads-ensure,
}

module _ (o : Outside) (text u : Str) where
  -- What the connection has heard when the message was retried if it did not arrive.
  Leads-retry_text :
      (h : Heard) (r : Result Unit)
      → Leads (heard_by (input_text text) h r) u (retry_text o text r) (λ _ k v.
        ((k ≡ hear (input_text text) h) ⊎ (k ≡ hear (input_text text) nothing)) × (v ≡ u))
  unfolding retry_text
  Leads-retry_text h (ok a) = record { leads = λ s b at k. (inl refl, at) }
  Leads-retry_text h (err e) = Leads-goes nothing (Leads-reconnect o h) (λ _. record {
    leads = λ s a at k.
        let sent = (Leads-send o (input_text text) nothing).leads s a at k in (inr sent.0, sent.1);
  })

  Leads-get : {A : Type 0} (f : TtsWsInputSession → A) (h : Heard) → Leads h u (get f) (Same h u)
  Leads-get f h = record { leads = λ s a at k. (refl, at) }

  Leads-note_input : (h : Heard) (t : Option ℕ) → Leads h u (note_input o t) (Same h u)
  Leads-note_input h none = record { leads = λ s a at k. (refl, at) }
  Leads-note_input h (some t) = record { leads = λ s a at k. (refl, at) }

  Leads-text_accepted :
      (k : Heard) → Leads k u (text_accepted o text) (λ _ k' v. (k' ≡ k) × (v ≡ u ++ text))
  Leads-text_accepted k = Leads-then (Leads-get (λ s. s.input_started_at) k) (λ started.
      Leads-then
        {f = λ _.
          modify (λ s. record s { utterance_text = s.utterance_text ++ text })
          >> observe (input_chars (length text))}
        (Leads-note_input k started)
        (λ _. record { leads = λ s a at e. (refl, ap (λ w. w ++ text) at) }))

  -- Where the connection is the same or a new one, it then has the text too.
  abbrev Accepted : Heard → Post Unit
  Accepted h a k v =
      ((k ≡ hear (input_text text) h) ⊎ (k ≡ hear (input_text text) nothing)) × (v ≡ u ++ text)

  Leads-accepted :
      (h k : Heard)
      → ((k ≡ hear (input_text text) h) ⊎ (k ≡ hear (input_text text) nothing))
      → Leads k u (text_accepted o text) (Accepted h)
  Leads-accepted h k e = record {
    leads = λ s a at ok_a.
        let done = (Leads-text_accepted k).leads s a at ok_a in (rw done.0 e, done.1);
  }

  Leads-retried :
      (h : Heard)
      → Leads h u
          (do
            result ← attempt (send o (input_text text))
            retry_text o text result
            text_accepted o text)
          (Accepted h)
  Leads-retried h =
      Leads-bind (λ r k v. (k ≡ heard_by (input_text text) h r) × (v ≡ u))
        (Leads-attempt o (input_text text) h)
        (λ r k v e.
          at (λ k' v'. Leads k' v' (retry_text o text r >>= λ _. text_accepted o text) (Accepted h))
            e
            (Leads-bind
              (λ a k' v'.
                ((k' ≡ hear (input_text text) h) ⊎ (k' ≡ hear (input_text text) nothing))
                × (v' ≡ u))
              (Leads-retry_text h r)
              (λ a k' v' f.
                subst (λ w. Leads k' w (text_accepted o text) (Accepted h)) (sym f.1)
                  (Leads-accepted h k' f.0))))
    where
      at :
          (P : Heard → Str → Type 0) {k k' : Heard} {v v' : Str}
          → (k ≡ k') × (v ≡ v')
          → P k' v'
          → P k v
      at P {k} {k'} {v} {v'} e x = subst (λ w. P w v) (sym e.0) (subst (λ w. P k' w) (sym e.1) x)

  either_new :
      (h k : Heard) {w : Heard} {v : Str}
      → ((k ≡ h) ⊎ (k ≡ nothing))
      → Accepted k tt w v
      → Accepted h tt w v
  either_new h k {w} {v} (inl e) x = subst (λ k'. Accepted k' tt w v) e x
  either_new h k (inr e) (inl f, g) = (inr (f ∙ ap (hear (input_text text)) e), g)
  either_new h k (inr e) (inr f, g) = (inr f, g)

  pub Leads-send_accepted : (h : Heard) → Leads h u (send_accepted o text) (Accepted h)
  unfolding send_accepted
  Leads-send_accepted h =
      Leads-bind (λ a k v. ((k ≡ h) ⊎ (k ≡ nothing)) × (v ≡ u)) (Leads-ensure o h)
        (λ a k v e.
          subst
            (λ w.
              Leads k w
                (do
                  result ← attempt (send o (input_text text))
                  retry_text o text result
                  text_accepted o text)
                (Accepted h))
            (sym e.1)
            (record { leads = λ s b at f. either_new h k e.0 ((Leads-retried k).leads s b at f) }))

pub Leads-if :
    {h : Heard} {u : Str} {A : Type 0} {Q : Post A} (test : TtsWsInputSession → Bool) {m n : Call A}
    → Leads h u m Q
    → Leads h u n Q
    → Leads h u (λ s. if test s then m s else n s) Q
Leads-if {h} {u} {A} {Q} test {m} {n} d e = record {
  leads = λ s a at k. elim (Bool-cases (test s)) [
    | inl t ↦ rw t (d.leads s a at (rw t at k))
    | inr t ↦ rw t (e.leads s a at (rw t at k))
  ];
}

pub Leads-fail : {h : Heard} {u : Str} {Q : Post Unit} (x : ClientError) → Leads h u (fail x) Q
Leads-fail x = record { leads = λ s a at k. absurd (err-ne-ok x a k) }

-- A text that is accepted is appended to the utterance. The connection that the session then has is the
-- one it had, which has heard the text after all that it had heard, or a new one that has heard this
-- text and nothing else of the utterance.
pub send_text-heard :
    (o : Outside) (text : Str) (s : TtsWsInputSession) (said : Str)
    → (send_text o text s).2 ≡ ok tt
    → (let k = heard (send_text o text s).0 (said, false, false) in
        ((k ≡ (said ++ text, false, false)) ⊎ (k ≡ (text, false, true)))
        × ((send_text o text s).1.utterance_text ≡ s.utterance_text ++ text))
unfolding send_text
send_text-heard o text s said h =
    let call : Leads (said, false, false) s.utterance_text (send_text o text)
        (Accepted o text s.utterance_text (said, false, false)) =
      Leads-if (λ s. s.closed) (Leads-fail _)
        (Leads-if (λ s. is_waiting s.utterance_state) (Leads-fail _)
          (Leads-send_accepted o text s.utterance_text (said, false, false))) in
    call.leads s tt refl h
