-- ===== src/TtsWs/Flushed.antt =====
-- crates/voice_server/src/client/tts_ws.rs: a `flush` that succeeds ends the utterance on a connection that
-- has heard all of it.
use voice_ai.Base.{
  ℕ, ◌≡◌, refl, sym, ap, ◌∙◌, subst, Bool, true, not, Option, none, some, [], ◌∷◌, is_empty, Str,
}
use voice_ai.Client.{Result, ok, err}
use voice_ai.TtsWs.Message.{input_text, input_done}
use voice_ai.TtsWs.Session.{
  Outside, TtsWsInputSession, ◌>>=◌, ◌>>◌, when, get, modify, now, send, reconnect, flush,
  flush_lease, flush_held, retry_done, resend, await_done, begin_wait, note_wait,
}
use voice_ai.TtsWs.Texts.{
  err-ne-ok, Heard, nothing, heard, Post, Leads, Leads-bind, Same, Leads-quiet, Leads-then,
  Leads-goes, heard_by, Leads-send, Leads-attempt, Leads-reconnect,
}
use voice_ai.TtsWs.Delivered.{Leads-if, Leads-fail}

-- The connection has heard the utterance, and that it is done.
abbrev IsTold : Str → {A : Type 0} → Post A
IsTold u a k v = (k.0 ≡ u) × (k.1 ≡ true)

ok_inj : {x y : Str} → ◌≡◌ {A = Result Str} (ok x) (ok y) → x ≡ y
ok_inj e = cc

module _ (o : Outside) (u : Str) where
  Leads-done : (h : Heard) → h.0 ≡ u → Leads h u (send o input_done) (IsTold u)
  Leads-done h e = record {
    leads = λ s a at k.
        let sent = (Leads-send o input_done h).leads s a at k in
        (ap (λ (w : Heard). w.0) sent.0 ∙ e, ap (λ (w : Heard). w.1) sent.0);
  }

  -- The utterance is sent again where it is not empty.
  Leads-pending :
      Leads nothing u
        (when (not (is_empty u)) (send o (input_text u)))
        (λ a k v. (k.0 ≡ u) × (v ≡ u))
  Leads-pending = again u refl
    where
      again :
          (w : Str)
          → w ≡ u
          → Leads nothing u
              (when (not (is_empty w)) (send o (input_text w)))
              (λ a k v. (k.0 ≡ u) × (v ≡ u))
      again [] e = record { leads = λ s a at k. (e, at) }
      again (c ∷ w) e = record {
        leads = λ s a at k.
            let sent = (Leads-send o (input_text (c ∷ w)) nothing).leads s a at k in
            (ap (λ (x : Heard). x.0) sent.0 ∙ e, sent.1);
      }

  Leads-resend :
      Leads nothing u
        (do when (not (is_empty u)) (send o (input_text u)); send o input_done)
        (IsTold u)
  Leads-resend =
      Leads-bind (λ a k v. (k.0 ≡ u) × (v ≡ u)) Leads-pending
        (λ a k v e.
          subst (λ w. Leads k w (send o input_done) (IsTold u)) (sym e.1) (Leads-done k e.0))

  Leads-retry_done :
      (h : Heard) (r : Result Unit)
      → h.0 ≡ u
      → Leads (heard_by input_done h r) u (retry_done o r) (IsTold u)
  unfolding retry_done
  Leads-retry_done h (ok a) e = record { leads = λ s b at k. (e, refl) }
  Leads-retry_done h (err x) e =
      Leads-bind {f = λ pending. reconnect o >>= λ _. resend o pending}
        (λ w k v. (w ≡ u) × ((k ≡ h) × (v ≡ u))) Leads-utterance
        (λ w k v f.
          subst (λ w'. Leads k v (reconnect o >>= λ _. resend o w') (IsTold u)) (sym f.0)
            (subst (λ v'. Leads k v' (reconnect o >>= λ _. resend o u) (IsTold u)) (sym f.1.1)
              (Leads-goes nothing (Leads-reconnect o k) (λ _. Leads-resend))))
    where
      Leads-utterance :
          Leads h u (get (λ s. s.utterance_text)) (λ w k v. (w ≡ u) × ((k ≡ h) × (v ≡ u)))
      Leads-utterance = record { leads = λ s w at k. (sym (ok_inj k) ∙ at, (refl, at)) }

  Leads-note_wait : (h : Heard) (v : Str) (t : Option ℕ) → Leads h v (note_wait o t) (Same h v)
  Leads-note_wait h v none = Leads-quiet (λ s. refl) (λ s. refl)
  Leads-note_wait h v (some t) = Leads-quiet (λ s. refl) (λ s. refl)

  Leads-modify :
      (h : Heard) (v : Str) (f : TtsWsInputSession → TtsWsInputSession)
      → ((s : TtsWsInputSession) → (f s).utterance_text ≡ s.utterance_text)
      → Leads h v (modify f) (Same h v)
  Leads-modify h v f e = Leads-quiet (λ s. refl) e

  Leads-await_done : (h : Heard) (v : Str) → Leads h v (await_done o) (Same h v)
  Leads-await_done h v = Leads-then {m = now o} (Leads-quiet (λ s. refl) (λ s. refl)) (λ t.
      Leads-then (Leads-modify h v (λ s. record s { utterance_started_at = some t }) (λ s. refl))
        (λ _.
          Leads-then {m = get (λ s. s.input_started_at)} (Leads-quiet (λ s. refl) (λ s. refl))
            (λ started.
              Leads-then (Leads-modify h v (λ s. record s { input_started_at = none }) (λ s. refl))
                (λ _.
                  Leads-then (Leads-note_wait h v started)
                    (λ _. Leads-modify h v (begin_wait o) (λ s. refl))))))

  Leads-flush_held : (h : Heard) → h.0 ≡ u → Leads h u (flush_held o) (IsTold u)
  unfolding flush_held
  Leads-flush_held h e =
      Leads-bind {f = λ r. retry_done o r >>= λ _. await_done o}
        (λ r k v. (k ≡ heard_by input_done h r) × (v ≡ u)) (Leads-attempt o input_done h)
        (λ r k v f.
          subst (λ k'. Leads k' v (retry_done o r >>= λ _. await_done o) (IsTold u)) (sym f.0)
            (subst
              (λ v'.
                Leads (heard_by input_done h r) v' (retry_done o r >>= λ _. await_done o)
                  (IsTold u))
              (sym f.1)
              (Leads-bind (IsTold u) (Leads-retry_done h r e) (λ a k' v' told. record {
                leads = λ s b at g.
                    let same = (Leads-await_done k' v').leads s b at g in rw same.0 told;
              }))))

-- Where the connection of a session has heard the utterance so far, a call of `flush` that succeeds ends
-- it on a connection that has heard exactly this utterance: the same one, or a new one after a failure.
pub flush-heard :
    (o : Outside) (s : TtsWsInputSession) (done new : Bool)
    → (flush o s).2 ≡ ok tt
    → (let k = heard (flush o s).0 (s.utterance_text, done, new) in
        (k.0 ≡ s.utterance_text) × (k.1 ≡ true))
unfolding flush flush_lease
flush-heard o s done new h =
    let start : Heard = (s.utterance_text, done, new) in
    let held = Leads-flush_held o s.utterance_text start refl in
    let call : Leads start s.utterance_text (flush o) (IsTold s.utterance_text) =
      Leads-if (λ s. s.closed) (Leads-fail _)
        (record { leads = λ s' a at k. on s.utterance_text start held s'.lease s' a at k }) in
    call.leads s tt refl h
  where
    on :
        (u : Str) (h : Heard)
        → Leads h u (flush_held o) (IsTold u)
        → (l : Option ℕ) (s : TtsWsInputSession) (a : Unit) → s.utterance_text ≡ u
        → (flush_lease o l s).2 ≡ ok a
        → IsTold u a (heard (flush_lease o l s).0 h) (flush_lease o l s).1.utterance_text
    on u h d none s a at k = absurd (err-ne-ok _ a k)
    on u h d (some lease) s a at k = d.leads s a at k
