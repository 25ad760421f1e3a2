-- ===== src/TtsWs/Texts.antt =====
-- crates/voice_server/src/client/tts_ws.rs: what a connection has received of an utterance.
use voice_ai.Base.{
  ℕ, ◌≡◌, refl, sym, ap, ◌∙◌, subst, ◌⊎◌, inl, inr, Bool, true, false, not, Option, none, some,
  Option-cases, List, [], ◌∷◌, ◌++◌, Str,
}
use voice_ai.Client.{ClientError, Result, ok, err}
use voice_ai.TtsWs.Message.{ClientMessage, input_text, input_done}
use voice_ai.TtsWs.Session.{
  Act, acquires, fails_acquire, sends, invalidates, drops, releases, observes, Outside,
  TtsWsInputSession, Call, and_then, ◌>>=◌, ensure_lease, ensure_held, acquire_lease, attempt, pure,
  give_up_acts, send, send_on, reconnect, give_up,
}

-- The text that a connection has received, whether it was told after it that the utterance is done, and
-- whether it is a connection acquired by the acts that one looks at.
abbrev pub Heard : Type 0
Heard = Str × Bool × Bool

abbrev pub nothing : Heard
nothing = ([], false, true)

abbrev pub hear : ClientMessage → Heard → Heard
hear (input_text t) h = (h.0 ++ t, false, h.2)
hear input_done h = (h.0, true, h.2)
hear _ h = h

-- What the connection of the session has heard after these acts; a new connection begins anew.
abbrev pub heard : List Act → Heard → Heard
heard [] h = h
heard (acquires lease c ∷ more) h = heard more nothing
heard (sends lease m true ∷ more) h = heard more (hear m h)
heard (_ ∷ more) h = heard more h

pub heard-append : (xs ys : List Act) (h : Heard) → heard (xs ++ ys) h ≡ heard ys (heard xs h)
heard-append [] ys h = refl
heard-append (acquires lease c ∷ xs) ys h = heard-append xs ys nothing
heard-append (sends lease m true ∷ xs) ys h = heard-append xs ys (hear m h)
heard-append (sends lease m false ∷ xs) ys h = heard-append xs ys h
heard-append (fails_acquire c ∷ xs) ys h = heard-append xs ys h
heard-append (invalidates lease ∷ xs) ys h = heard-append xs ys h
heard-append (drops lease ∷ xs) ys h = heard-append xs ys h
heard-append (releases lease ∷ xs) ys h = heard-append xs ys h
heard-append (observes x ∷ xs) ys h = heard-append xs ys h

-- From a connection that heard `h` and a session whose utterance is `u`, a call that returns a value
-- leads to what `Q` says of the value, of what was heard, and of the utterance.
abbrev pub Post : Type 0 → Type 1
Post A = A → Heard → Str → Type 0

pub record Leads (h : Heard) (u : Str) {A : Type 0} (m : Call A) (Q : Post A) : Type 0 where
  pub leads :
      (s : TtsWsInputSession) (a : A)
      → s.utterance_text ≡ u
      → (m s).2 ≡ ok a
      → Q a (heard (m s).0 h) (m s).1.utterance_text

module _ {h : Heard} {u : Str} {A : Type 0} {B : Type 0} {m : Call A} {f : A → Call B} (M : Post A)
    {Q : Post B} where
  pub Leads-bind :
      Leads h u m M
      → ((a : A) (k : Heard) (v : Str) → M a k v → Leads k v (f a) Q)
      → Leads h u (m >>= f) Q
  Leads-bind d e = record { leads = λ s b at. next (m s).0 (m s).1 (m s).2 b (λ a. d.leads s a at) }
    where
      next :
          (out : List Act) (s : TtsWsInputSession) (r : Result A) (b : B)
          → ((a : A) → r ≡ ok a → M a (heard out h) s.utterance_text)
          → (and_then out s r f).2 ≡ ok b
          → Q b (heard (and_then out s r f).0 h) (and_then out s r f).1.utterance_text
      next out s (err x) b g k = absurd (cc)
      next out s (ok a) b g k =
          rw (heard-append out (f a s).0 h)
            ((e a (heard out h) s.utterance_text (g a refl)).leads s b refl k)

-- The call hears nothing and keeps the utterance.
abbrev pub Same : (h : Heard) (u : Str) {A : Type 0} → Post A
Same h u a k v = (k ≡ h) × (v ≡ u)

pub Leads-quiet :
    {h : Heard} {u : Str} {A : Type 0} {m : Call A}
    → ((s : TtsWsInputSession) → heard (m s).0 h ≡ h)
    → ((s : TtsWsInputSession) → (m s).1.utterance_text ≡ s.utterance_text)
    → Leads h u m (Same h u)
Leads-quiet e f = record { leads = λ s a at g. (e s, f s ∙ at) }

pub Leads-then :
    {h : Heard} {u : Str} {A : Type 0} {B : Type 0} {m : Call A} {f : A → Call B} {Q : Post B}
    → Leads h u m (Same h u)
    → ((a : A) → Leads h u (f a) Q)
    → Leads h u (m >>= f) Q
Leads-then {h} {u} {f = f} {Q = Q} d e = Leads-bind (Same h u) d (λ a k v same.
    subst (λ k'. Leads k' v (f a) Q) (sym same.0)
      (subst (λ v'. Leads h v' (f a) Q) (sym same.1) (e a)))

-- The utterance is kept, and what is heard is known.
abbrev pub Now : Heard → Str → {A : Type 0} → Post A
Now h u a k v = (k ≡ h) × (v ≡ u)

pub Leads-goes :
    {h : Heard} (g : Heard) {u : Str} {A : Type 0} {B : Type 0} {m : Call A} {f : A → Call B}
    {Q : Post B}
    → Leads h u m (Now g u)
    → ((a : A) → Leads g u (f a) Q)
    → Leads h u (m >>= f) Q
Leads-goes g {u} {f = f} {Q = Q} d e = Leads-bind (Now g u) d (λ a k v same.
    subst (λ k'. Leads k' v (f a) Q) (sym same.0)
      (subst (λ v'. Leads g v' (f a) Q) (sym same.1) (e a)))

pub err-ne-ok : (x : ClientError) (a : Unit) → ◌≡◌ {A = Result Unit} (err x) (ok a) → ⊥
err-ne-ok x a e = cc

-- A message that did not arrive is not heard.
abbrev pub heard_by : ClientMessage → Heard → Result Unit → Heard
heard_by m h (ok _) = hear m h
heard_by m h (err e) = h

module _ (o : Outside) where
  pub send_heard :
      (l : Option ℕ) (m : ClientMessage) (s : TtsWsInputSession) (h : Heard)
      → (heard (send_on o l m s).0 h ≡ heard_by m h (send_on o l m s).2)
        × ((send_on o l m s).1.utterance_text ≡ s.utterance_text)
  unfolding send_on
  send_heard none m s h = (refl, refl)
  send_heard (some lease) m s h = elim (Option-cases (o.send_error s.readings)) [
    | inl e ↦ rw e (refl, refl)
    | inr (y, e) ↦ rw e (refl, refl)
  ]

  pub give_up_heard : (l : Option ℕ) (h : Heard) → heard (give_up_acts o l) h ≡ h
  give_up_heard none h = refl
  give_up_heard (some lease) h = refl

  module _ {u : Str} where
    pub Leads-send : (m : ClientMessage) (h : Heard) → Leads h u (send o m) (Now (hear m h) u)
    unfolding send
    Leads-send m h = record {
      leads = λ s a at k.
          let sent = send_heard s.lease m s h in (sent.0 ∙ ap (heard_by m h) k, sent.1 ∙ at);
    }

    -- Where the error is caught, what was heard depends on it.
    pub Leads-attempt :
        (m : ClientMessage) (h : Heard)
        → Leads h u (attempt (send o m)) (λ r k v. (k ≡ heard_by m h r) × (v ≡ u))
    unfolding send
    Leads-attempt m h = record {
      leads = λ s a at k.
          let sent = send_heard s.lease m s h in
          (sent.0 ∙ ap (heard_by m h) (ok_inj (send_on o s.lease m s).2 a k), sent.1 ∙ at);
    }
      where
        ok_inj : (x y : Result Unit) → ◌≡◌ {A = Result (Result Unit)} (ok x) (ok y) → x ≡ y
        ok_inj x y e = cc

    pub Leads-acquire : (c : Bool) (h : Heard) → Leads h u (acquire_lease o c) (Now nothing u)
    unfolding acquire_lease
    Leads-acquire c h = record {
      leads = λ s a at k. elim (Option-cases (o.acquire_error s.readings)) [
        | inl e ↦ rw e (refl, at)
        | inr (x, e) ↦ absurd (err-ne-ok x a (rw e at k))
      ];
    }

    pub Leads-give_up : (h : Heard) → Leads h u (give_up o) (Same h u)
    unfolding give_up
    Leads-give_up h = Leads-quiet (λ s. give_up_heard s.lease h) (λ s. refl)

    pub Leads-reconnect : (h : Heard) → Leads h u (reconnect o) (Now nothing u)
    unfolding reconnect
    Leads-reconnect h = Leads-then (Leads-give_up h) (λ _. Leads-acquire true h)

    pub Leads-pure : {A : Type 0} (a : A) (h : Heard) → Leads h u (pure a) (Now h u)
    Leads-pure a h = record { leads = λ s b at k. (refl, at) }

    pub Leads-ensure :
        (h : Heard) → Leads h u (ensure_lease o) (λ _ k v. ((k ≡ h) ⊎ (k ≡ nothing)) × (v ≡ u))
    unfolding ensure_lease
    Leads-ensure h = record { leads = λ s a at k. on s.lease s a at k }
      where
        on :
            (l : Option ℕ) (s : TtsWsInputSession) (a : Unit)
            → s.utterance_text ≡ u
            → (ensure_held o l s).2 ≡ ok a
            → ((heard (ensure_held o l s).0 h ≡ h) ⊎ (heard (ensure_held o l s).0 h ≡ nothing))
              × ((ensure_held o l s).1.utterance_text ≡ u)
        on (some lease) s a at k = (inl refl, at)
        on none s a at k =
            let got = (Leads-acquire (not s.config_sent) h).leads s a at k in (inr got.0, got.1)
