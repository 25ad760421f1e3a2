-- ===== src/Pipeline/LlmTts/FuelParts.antt =====
-- The loop over a delta that is sent in parts ends: the length of the delta is enough fuel.
use voice_ai.Base.{
  ℕ, zero, suc, ◌≤◌, ◌<◌, ◌≡◌, refl, sym, ap, ◌∙◌, true, not, Option, none, some, List, [], ◌∷◌,
  ◌++◌, length, length-append, is_empty, all, &&_split, if◌then◌else◌, Str, arith,
}
use voice_ai.Client.{ClientError, Result, ok, err, TtsEvent, TtsClient}
use voice_ai.Pipeline.Sentence.{
  is_sentence_end, next_sentence_end, split_at, str_len, IsFirstEnd, next_sentence_end-IsFirstEnd,
}
use voice_ai.Pipeline.Stream.{Flow, goes, returned, panicked, ◌>>=◌, then_do, pure, or_panic}
use voice_ai.Pipeline.LlmTts.{
  LlmTtsItem, Libraries, Vars, Code, call, set_sentence_buf, fail, tts_error, feed_events,
  speak_events, read_utterance, flush_incremental_sentence, close_and_fail, send_text, slice,
  speak_segment, send_remaining,
}
use voice_ai.Pipeline.LlmTts.Fuel.{
  KeepsBuffer, ◌next◌, begin_keeps, feed_keeps, end_keeps, pure_keeps,
}

abbrev pub HasNoEnd : Str → Type 0
HasNoEnd s = all (λ c. not (is_sentence_end c)) s ≡ true

-- The first end of a text is not in a part before it that has none.
before_end :
    (buf a r b : Str) (c : ℕ)
    → HasNoEnd buf
    → is_sentence_end c ≡ true
    → buf ++ r ≡ a ++ (c ∷ b)
    → length buf ≤ length a
before_end [] a r b c h ends e = omega arith
before_end (x ∷ buf) [] r b c h ends e =
    let same : x ≡ c = cc e in
    let (here, there) =
      &&_split {a = not (is_sentence_end x)} {b = all (λ d. not (is_sentence_end d)) buf} h in
    absurd (cc (ap is_sentence_end same, ends, here))
before_end (x ∷ buf) (y ∷ a) r b c h ends e =
    let (here, there) =
      &&_split {a = not (is_sentence_end x)} {b = all (λ d. not (is_sentence_end d)) buf} h in
    let less = before_end buf a r b c there ends (cc e) in omega (arith, less)

module _ (lib : Libraries) (tc : TtsClient) (sid : Str) (voice : Option Str) where
  events_keep :
      (ts : List TtsEvent) → KeepsBuffer lib tc sid voice (feed_events lib tc sid voice ts)
  unfolding feed_events
  events_keep [] = pure_keeps lib tc sid voice
  events_keep (t ∷ ts) =
      ◌next◌ lib tc sid voice (feed_keeps lib tc sid voice t.bytes) (λ _. events_keep ts)

  spoken_keeps :
      (ts : List TtsEvent) → KeepsBuffer lib tc sid voice (speak_events lib tc sid voice ts)
  unfolding speak_events
  spoken_keeps ts =
      ◌next◌ lib tc sid voice (begin_keeps lib tc sid voice)
        (λ _. ◌next◌ lib tc sid voice (events_keep ts) (λ _. end_keeps lib tc sid voice))

  call_keeps :
      {A : Type 0} (f : tc.World → tc.World × A)
      → KeepsBuffer lib tc sid voice (call lib tc sid voice f)
  call_keeps f = record { kept = λ s. refl }

  result_keeps :
      {A : Type 0} {B : Type 0} {f : A → Code lib tc sid voice B}
      {g : ClientError → Code lib tc sid voice B} (r : Result A)
      → ((a : A) → KeepsBuffer lib tc sid voice (f a))
      → ((e : ClientError) → KeepsBuffer lib tc sid voice (g e))
      → KeepsBuffer lib tc sid voice (elim r [ ok a ↦ f a | err e ↦ g e ])
  result_keeps (ok a) h k = h a
  result_keeps (err e) h k = k e

  error_keeps :
      (A : Type 0) (e : ClientError) → KeepsBuffer lib tc sid voice {A = Result A} (pure (err e))
  error_keeps A e = record { kept = λ s. refl }

  flush_keeps :
      (i : tc.Input) → KeepsBuffer lib tc sid voice (flush_incremental_sentence lib tc sid voice i)
  unfolding flush_incremental_sentence
  flush_keeps i = ◌next◌ lib tc sid voice (call_keeps (λ w. tc.flush w i)) (λ flushed.
      result_keeps flushed (λ _. call_keeps (read_utterance lib tc sid voice i))
        (error_keeps (List TtsEvent)))

  closed_keeps :
      (i : tc.Input) (e : Str) (c : ℕ)
      → KeepsBuffer lib tc sid voice (close_and_fail lib tc sid voice {A = Unit} i e c)
  unfolding close_and_fail fail
  closed_keeps i e c = record { kept = λ s. refl }

  -- Where the code goes on, the buffer is empty.
  abbrev Cleared : {A : Type 0} → Vars tc → Flow A → Type 0
  Cleared s (goes a) = s.sentence_buf ≡ []
  Cleared s returned = Unit
  Cleared s panicked = Unit

  Cleared-empty : {A : Type 0} (s : Vars tc) (flow : Flow A) → s.sentence_buf ≡ [] → Cleared s flow
  Cleared-empty s (goes a) h = h
  Cleared-empty s returned h = tt
  Cleared-empty s panicked h = tt

  Cleared-then :
      {A : Type 0} {B : Type 0} (out : List LlmTtsItem) (s : Vars tc) (flow : Flow A)
      (f : A → Code lib tc sid voice B)
      → ((a : A) → Cleared (f a s).1 (f a s).2)
      → Cleared (then_do out s flow f).1 (then_do out s flow f).2
  Cleared-then out s (goes a) f h = h a
  Cleared-then out s returned f h = tt
  Cleared-then out s panicked f h = tt

  then_same_if :
      {A : Type 0} (out : List LlmTtsItem) (s : Vars tc) (flow : Flow A)
      (f g : A → Code lib tc sid voice Unit)
      → Cleared s flow
      → (s.sentence_buf ≡ [] → (a : A) → f a s ≡ g a s)
      → then_do out s flow f ≡ then_do out s flow g
  then_same_if out s (goes a) f g c h = ap (λ r. (out ++ r.0, r.1, r.2)) (h c a)
  then_same_if out s returned f g c h = refl
  then_same_if out s panicked f g c h = refl

  abbrev after_sending : tc.Input → Code lib tc sid voice Unit
  after_sending i = flush_incremental_sentence lib tc sid voice i >>= λ flushed. elim flushed [
    | ok events ↦ speak_events lib tc sid voice events
    | err e ↦ close_and_fail lib tc sid voice i (tts_error lib tc sid voice e) 1004
  ]

  flushed_keeps : (i : tc.Input) → KeepsBuffer lib tc sid voice (after_sending i)
  flushed_keeps i = ◌next◌ lib tc sid voice (flush_keeps i) (λ flushed.
      result_keeps flushed spoken_keeps (λ e. closed_keeps i (tts_error lib tc sid voice e) 1004))

  speak_segment-Cleared :
      (i : tc.Input) (segment : Str) (s : Vars tc)
      → Cleared
          (speak_segment lib tc sid voice i segment s).1
          (speak_segment lib tc sid voice i segment s).2
  unfolding speak_segment
  speak_segment-Cleared i segment s =
      let sent : Code lib tc sid voice Unit =
        if is_empty segment then pure tt else send_text lib tc sid voice i segment in
      Cleared-then (sent s).0 (sent s).1 (sent s).2 _ (λ _.
        let cleared : Vars tc = record (sent s).1 { sentence_buf = [] } in
        Cleared-empty (after_sending i cleared).1 (after_sending i cleared).2
          ((flushed_keeps i).kept cleared))

  -- What a round does with the parts of the text.
  abbrev parts_round : ℕ → tc.Input → Option (Str × Str) → Code lib tc sid voice Unit
  parts_round fuel i parts = or_panic parts >>= λ (segment, rest).
      (speak_segment lib tc sid voice i segment >>= λ _.
      send_remaining lib tc sid voice fuel i rest)

  abbrev part_of : Str → Option (Str × Str) → Option (Str × Str)
  part_of b none = none
  part_of b (some (skipped, part)) = some (part, b)

  parts_same :
      (n m : ℕ) (i : tc.Input) (s : Vars tc) (b : Str) (o : Option (Str × Str))
      → ((s' : Vars tc)
          → s'.sentence_buf ≡ []
          → send_remaining lib tc sid voice n i b s' ≡ send_remaining lib tc sid voice m i b s')
      → parts_round n i (part_of b o) s ≡ parts_round m i (part_of b o) s
  parts_same n m i s b none rest_same = refl
  parts_same n m i s b (some (skipped, part)) rest_same =
      let said = speak_segment lib tc sid voice i part s in
      then_same_if said.0 said.1 said.2 (λ _. send_remaining lib tc sid voice n i b)
        (λ _. send_remaining lib tc sid voice m i b) (speak_segment-Cleared i part s)
        (λ empty _. rest_same said.1 empty)

  sliced :
      (start end : ℕ) (s a b : Str)
      → split_at end s ≡ some (a, b)
      → slice lib tc sid voice start end s ≡ part_of b (split_at start a)
  unfolding slice
  sliced start end s a b cut =
      ap
        (λ (o : Option (Str × Str)). elim o as (λ _. Option (Str × Str)) [
          | none ↦ none
          | some (front, rest) ↦ elim (split_at start front) [
            | none ↦ none
            | some (skipped, part) ↦ some (part, rest)
          ]
        ])
        cut
      ∙ part (split_at start a)
    where
      part :
          (o : Option (Str × Str))
          → elim o as (λ _. Option (Str × Str)) [ none ↦ none | some (skipped, p) ↦ some (p, b) ]
            ≡ part_of b o
      part none = refl
      part (some (skipped, p)) = refl

  abbrev round : ℕ → tc.Input → (buf remaining : Str) → Option ℕ → Code lib tc sid voice Unit
  round fuel i buf remaining o = elim o [
    | some end ↦ parts_round fuel i (slice lib tc sid voice (str_len buf) end (buf ++ remaining))
    | none ↦ send_text lib tc sid voice i remaining >>= λ _.
        set_sentence_buf lib tc sid voice (buf ++ remaining)
  ]

  round_same :
      (n m : ℕ) (i : tc.Input) (s : Vars tc) (r : Str) (o : Option ℕ)
      → IsFirstEnd (s.sentence_buf ++ r) 0 o
      → HasNoEnd s.sentence_buf
      → length r ≤ suc n
      → length r ≤ suc m
      → ((s' : Vars tc) (r' : Str)
          → HasNoEnd s'.sentence_buf
          → length r' ≤ n
          → length r' ≤ m
          → send_remaining lib tc sid voice n i r' s' ≡ send_remaining lib tc sid voice m i r' s')
      → round n i s.sentence_buf r o s ≡ round m i s.sentence_buf r o s
  round_same n m i s r none found clean h k rest_same = refl
  round_same n m i s r (some end) (a, c, b, whole, none_before, ends, cut, le) clean h k rest_same =
      let place = before_end s.sentence_buf a r b c clean ends whole in
      let shorter : length b < length r =
        omega (
          arith,
          place,
          ap length whole,
          length-append s.sentence_buf r,
          length-append a (c ∷ b),
        ) in
      let here : split_at end (s.sentence_buf ++ r) ≡ some (a ++ (c ∷ []), b) =
        ap (λ j. split_at j (s.sentence_buf ++ r)) (omega arith) ∙ cut in
      let parts =
        sliced (str_len s.sentence_buf) end (s.sentence_buf ++ r) (a ++ (c ∷ [])) b here in
      ap (λ p. parts_round n i p s) parts
      ∙ parts_same n m i s b (split_at (str_len s.sentence_buf) (a ++ (c ∷ []))) (λ s' empty.
        rest_same s' b (ap (all (λ d. not (is_sentence_end d))) empty) (omega (arith, shorter, h))
          (omega (arith, shorter, k)))
      ∙ sym (ap (λ p. parts_round m i p s) parts)

  -- The length of the text that remains is enough fuel, where the buffer holds no end of a sentence:
  -- more gives the same run.
  pub send_remaining_enough :
      (n m : ℕ) (i : tc.Input) (r : Str) (s : Vars tc)
      → HasNoEnd s.sentence_buf
      → length r ≤ n
      → length r ≤ m
      → send_remaining lib tc sid voice n i r s ≡ send_remaining lib tc sid voice m i r s
  unfolding send_remaining
  send_remaining_enough zero zero i r s clean h k = refl
  send_remaining_enough zero (suc m) i [] s clean h k = refl
  send_remaining_enough (suc n) zero i [] s clean h k = refl
  send_remaining_enough (suc n) (suc m) i [] s clean h k = refl
  send_remaining_enough zero (suc m) i (c ∷ r) s clean h k = absurd (omega (arith, h))
  send_remaining_enough (suc n) zero i (c ∷ r) s clean h k = absurd (omega (arith, k))
  send_remaining_enough (suc n) (suc m) i (c ∷ r) s clean h k =
      round_same n m i s (c ∷ r) (next_sentence_end (s.sentence_buf ++ (c ∷ r)))
        (next_sentence_end-IsFirstEnd (s.sentence_buf ++ (c ∷ r))) clean h k
        (λ s' r' clean'. send_remaining_enough n m i r' s' clean')
