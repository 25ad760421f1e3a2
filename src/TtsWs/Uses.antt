-- ===== src/TtsWs/Uses.antt =====
-- crates/voice_server/src/client/tts_ws.rs: a session uses its connection only while it holds the lease,
-- and each lease is given up before the next one is acquired.
use voice_ai.Base.{
  ℕ, ◌==◌, ◌≡◌, refl, ◌∙◌, inl, inr, Bool, true, false, not, ◌||◌, Option, none, some, List, [],
  ◌∷◌, ◌++◌, Bool-cases, if◌then◌else◌, arith,
}
use voice_ai.Client.{ClientError, Result, ok, err}
use voice_ai.TtsWs.Session.{
  Act, acquires, fails_acquire, sends, invalidates, drops, releases, observes, Observation,
  TtsWsInputSession, Call, and_then, ◌>>=◌, pure, fail, observe, get, modify, when, attempt,
}

-- The lease that is held after an act, where the act is allowed.
abbrev pub after_act : Act → Option ℕ → Option (Option ℕ)
after_act (acquires lease c) none = some (some lease)
after_act (acquires lease c) (some held) = none
after_act (fails_acquire c) none = some none
after_act (fails_acquire c) (some held) = none
after_act (sends lease m b) none = none
after_act (sends lease m b) (some held) = if held == lease then some (some held) else none
after_act (invalidates lease) none = none
after_act (invalidates lease) (some held) = if held == lease then some none else none
after_act (releases lease) none = none
after_act (releases lease) (some held) = if held == lease then some none else none
after_act (drops lease) none = some none
after_act (drops lease) (some held) = if held == lease then some none else none
after_act (observes x) held = some held

abbrev pub held_after : List Act → Option ℕ → Option (Option ℕ)
held_after [] held = some held
held_after (a ∷ more) held = elim (after_act a held) [
  | none ↦ none
  | some held' ↦ held_after more held'
]

append_from :
    (xs ys : List Act) (k : Option ℕ) (next : Option (Option ℕ))
    → ((h : Option ℕ) → held_after xs h ≡ some k → held_after (xs ++ ys) h ≡ held_after ys k)
    → (elim next as (λ _. Option (Option ℕ)) [ none ↦ none | some h ↦ held_after xs h ]) ≡ some k
    → (elim next as (λ _. Option (Option ℕ)) [ none ↦ none | some h ↦ held_after (xs ++ ys) h ])
      ≡ held_after ys k
append_from xs ys k none ih e = cc
append_from xs ys k (some h) ih e = ih h e

pub held_after-append :
    (xs ys : List Act) (h k : Option ℕ)
    → held_after xs h ≡ some k
    → held_after (xs ++ ys) h ≡ held_after ys k
held_after-append [] ys h k e = ground arith
held_after-append (x ∷ xs) ys h k e =
    append_from xs ys k (after_act x h) (λ h' f. held_after-append xs ys h' k f) e

abbrev pub is_held : Option ℕ → Bool
is_held none = false
is_held (some lease) = true

-- True where the flag asks for no lease, or one is held.
abbrev pub allows : Bool → Option ℕ → Bool
allows needed l = not needed || is_held l

abbrev pub holds_if_ok : {A : Type 0} → Bool → Option ℕ → Result A → Bool
holds_if_ok needed l (ok a) = allows needed l
holds_if_ok needed l (err e) = true

-- From a session that holds a lease if `pre` asks for it, the acts are allowed and lead to the lease that
-- the session then holds; a value comes with a held lease if `post` asks for it.
pub record Uses (pre : Bool) {A : Type 0} (m : Call A) (post : Bool) : Type 0 where
  pub allowed :
      (s : TtsWsInputSession)
      → allows pre s.lease ≡ true
      → held_after (m s).0 s.lease ≡ some (m s).1.lease
  pub holds :
      (s : TtsWsInputSession)
      → allows pre s.lease ≡ true
      → holds_if_ok post (m s).1.lease (m s).2 ≡ true

module _ {A : Type 0} {B : Type 0} (mid post : Bool) (f : A → Call B) where
  then_allowed :
      (out : List Act) (before : Option ℕ) (s : TtsWsInputSession) (r : Result A)
      → held_after out before ≡ some s.lease
      → holds_if_ok mid s.lease r ≡ true
      → ((a : A) → Uses mid (f a) post)
      → held_after (and_then out s r f).0 before ≡ some (and_then out s r f).1.lease
  then_allowed out before s (err e) h k u = h
  then_allowed out before s (ok a) h k u =
      held_after-append out (f a s).0 before s.lease h ∙ (u a).allowed s k

  then_holds :
      (out : List Act) (s : TtsWsInputSession) (r : Result A)
      → holds_if_ok mid s.lease r ≡ true
      → ((a : A) → Uses mid (f a) post)
      → holds_if_ok post (and_then out s r f).1.lease (and_then out s r f).2 ≡ true
  then_holds out s (err e) k u = refl
  then_holds out s (ok a) k u = (u a).holds s k

pub Uses-bind :
    {A : Type 0} {B : Type 0} {pre : Bool} (mid : Bool) {post : Bool} {m : Call A} {f : A → Call B}
    → Uses pre m mid
    → ((a : A) → Uses mid (f a) post)
    → Uses pre (m >>= f) post
Uses-bind mid {post} {m} {f} u v = record {
  allowed = λ s h.
      then_allowed mid post f (m s).0 s.lease (m s).1 (m s).2 (u.allowed s h) (u.holds s h) v;
  holds = λ s h. then_holds mid post f (m s).0 (m s).1 (m s).2 (u.holds s h) v;
}

-- What keeps the lease, and does nothing with it.
pub Uses-quiet :
    {A : Type 0} {m : Call A} (b : Bool)
    → ((s : TtsWsInputSession) → held_after (m s).0 s.lease ≡ some s.lease)
    → ((s : TtsWsInputSession) → (m s).1.lease ≡ s.lease)
    → Uses b m b
Uses-quiet {m = m} b h e = record {
  allowed = λ s k. rw (e s) (h s);
  holds = λ s k. kept (m s).1.lease (m s).2 s.lease (e s) k;
}
  where
    kept :
        {A : Type 0} (l : Option ℕ) (r : Result A) (l' : Option ℕ)
        → l ≡ l'
        → allows b l' ≡ true
        → holds_if_ok b l r ≡ true
    kept l (ok a) l' f k = rw f k
    kept l (err x) l' f k = refl

pub Uses-quiet_acts :
    {A : Type 0} (b : Bool) (f : TtsWsInputSession → TtsWsInputSession)
    (r : TtsWsInputSession → Result A)
    → ((s : TtsWsInputSession) → (f s).lease ≡ s.lease)
    → Uses b (λ s. ([], f s, r s)) b
Uses-quiet_acts b f r e = Uses-quiet b (λ s. refl) e

pub Uses-observe : (b : Bool) (x : Observation) → Uses b (observe x) b
Uses-observe b x = Uses-quiet b (λ s. refl) (λ s. refl)

pub Uses-pure : {A : Type 0} (b : Bool) (a : A) → Uses b (pure a) b
Uses-pure b a = Uses-quiet b (λ s. refl) (λ s. refl)

pub Uses-get : {A : Type 0} (b : Bool) (f : TtsWsInputSession → A) → Uses b (get f) b
Uses-get b f = Uses-quiet b (λ s. refl) (λ s. refl)

pub Uses-modify :
    (b : Bool) (f : TtsWsInputSession → TtsWsInputSession)
    → ((s : TtsWsInputSession) → (f s).lease ≡ s.lease)
    → Uses b (modify f) b
Uses-modify b f e = Uses-quiet b (λ s. refl) e

pub Uses-when : (b c : Bool) {m : Call Unit} → Uses b m b → Uses b (when c m) b
Uses-when b true u = u
Uses-when b false u = Uses-pure b tt

-- What asks for less, and what promises less.
pub Uses-weaken : {A : Type 0} {m : Call A} (b : Bool) → Uses false m b → Uses true m b
Uses-weaken b u = record { allowed = λ s h. u.allowed s refl; holds = λ s h. u.holds s refl }

holds_any : {A : Type 0} (l : Option ℕ) (r : Result A) → holds_if_ok false l r ≡ true
holds_any l (ok a) = refl
holds_any l (err e) = refl

pub Uses-from :
    {A : Type 0} {m : Call A} (b : Bool)
    → ((s : TtsWsInputSession)
        → allows b s.lease ≡ true
        → held_after (m s).0 s.lease ≡ some (m s).1.lease)
    → Uses b m false
Uses-from {m = m} b h = record { allowed = h; holds = λ s k. holds_any (m s).1.lease (m s).2 }

pub Uses-ignored :
    {A : Type 0} {m : Call A} (b : Bool) → Uses false m b → Uses false (attempt m) false
Uses-ignored b u = Uses-from false (λ s h. u.allowed s h)

-- A call whose error is caught keeps the lease on both ways.
pub Uses-attempt :
    {A : Type 0} {m : Call A}
    → Uses true m true
    → ((s : TtsWsInputSession) → (m s).1.lease ≡ s.lease)
    → Uses true (attempt m) true
Uses-attempt u e = record { allowed = λ s h. u.allowed s h; holds = λ s h. rw (e s) h }

pub Uses-fail : {A : Type 0} (b c : Bool) (e : ClientError) → Uses b (fail {A = A} e) c
Uses-fail b c e = record { allowed = λ s h. refl; holds = λ s h. refl }

pub Uses-if :
    {A : Type 0} {b c : Bool} (test : TtsWsInputSession → Bool) {m n : Call A}
    → Uses b m c
    → Uses b n c
    → Uses b (λ s. if test s then m s else n s) c
Uses-if {b = b} {c = c} test {m} {n} u v = record {
  allowed = λ s h. elim (Bool-cases (test s)) [
    | inl e ↦ rw e (u.allowed s h)
    | inr e ↦ rw e (v.allowed s h)
  ];
  holds =
      λ s h. elim (Bool-cases (test s)) [ inl e ↦ rw e (u.holds s h) | inr e ↦ rw e (v.holds s h) ];
}
