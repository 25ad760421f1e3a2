-- ===== src/Pipeline/LlmTts/Fuel.antt =====
-- The loop over the sentences of a buffer ends: the length of the buffer is enough fuel.
use voice_ai.Base.{
  ℕ, zero, suc, ◌≤◌, ◌<◌, ◌≡◌, refl, sym, ap, ◌∙◌, Bool, true, false, Option, none, some, List, [],
  ◌∷◌, ◌++◌, length, length-append, if◌then◌else◌, Str, codes, arith,
}
use voice_ai.Crossfade.{SentenceCrossfader, begin_sentence, feed, end_sentence}
use voice_ai.Client.{show_error, Result, ok, err, TtsEvent, TtsClient}
use voice_ai.Pipeline.Sentence.{
  next_sentence_end, split_at, IsFirstEnd, next_sentence_end-IsFirstEnd,
}
use voice_ai.Pipeline.Stream.{Flow, goes, returned, panicked, ◌>>=◌, then_do, pure, or_panic}
use voice_ai.Pipeline.Text.{to_tts_text}
use voice_ai.Pipeline.Text.Buffer as Buffer
use voice_ai.Pipeline.LlmTts.{
  LlmTtsItem, Libraries, Vars, Code, set_sentence_buf, short_sentences, fade, emit_pcm, overflows,
  numbered, begin_fade, feed_fade, end_fade, fail, tts_error, speak_stream, synthesize,
  speak_sentence, sentence_loop,
}

module _ (lib : Libraries) (tc : TtsClient) (sid : Str) (voice : Option Str) where
  -- The code leaves the buffer as it is.
  pub record KeepsBuffer {A : Type 0} (m : Code lib tc sid voice A) : Type 0 where
    pub kept : (s : Vars tc) → (m s).1.sentence_buf ≡ s.sentence_buf

  infixl 5 ◌next◌
  pub ◌next◌ :
      {A : Type 0} {B : Type 0} {m : Code lib tc sid voice A} {f : A → Code lib tc sid voice B}
      → KeepsBuffer m
      → ((a : A) → KeepsBuffer (f a))
      → KeepsBuffer (m >>= f)
  ◌next◌ {A = A} {m = m} {f = f} h k = record { kept = λ s. go (m s).0 (m s).1 (m s).2 ∙ h.kept s }
    where
      go :
          (out : List LlmTtsItem) (s' : Vars tc) (flow : Flow A)
          → (then_do out s' flow f).1.sentence_buf ≡ s'.sentence_buf
      go out s' (goes a) = (k a).kept s'
      go out s' returned = refl
      go out s' panicked = refl

  fade_keeps :
      (f : SentenceCrossfader → Option (SentenceCrossfader × List ℕ))
      → KeepsBuffer (fade lib tc sid voice f)
  fade_keeps f = record {
    kept = λ s. elim (f s.fader) as (λ o. (faded s o).1.sentence_buf ≡ s.sentence_buf) [
      | none ↦ refl
      | some (g, pcm) ↦ refl
    ];
  }
    where
      faded :
          (s : Vars tc)
          → Option (SentenceCrossfader × List ℕ)
          → List LlmTtsItem × Vars tc × Flow (List ℕ)
      faded s o = elim o [
        | none ↦ or_panic none s
        | some (g, pcm) ↦ ([], record s { fader = g }, goes pcm)
      ]

  numbered_keeps :
      (b : Bool) (audio : Str) (is_last : Bool) (s : Vars tc)
      → (numbered lib tc sid voice b audio is_last s).1.sentence_buf ≡ s.sentence_buf
  numbered_keeps true audio is_last s = refl
  numbered_keeps false audio is_last s = refl

  emit_keeps : (pcm : List ℕ) → KeepsBuffer (emit_pcm lib tc sid voice pcm)
  unfolding emit_pcm
  emit_keeps [] = record { kept = λ s. refl }
  emit_keeps (b ∷ pcm) = record {
    kept = λ s.
        numbered_keeps (overflows lib tc sid voice s.global_seq) (lib.base64 (b ∷ pcm)) false s;
  }

  pub feed_keeps : (bytes : List ℕ) → KeepsBuffer (feed_fade lib tc sid voice bytes)
  unfolding feed_fade
  feed_keeps bytes = fade_keeps (λ f. feed lib.float lib.debug f bytes) next emit_keeps

  pub end_keeps : KeepsBuffer (end_fade lib tc sid voice)
  unfolding end_fade
  end_keeps = fade_keeps (λ f. end_sentence lib.float lib.debug f) next emit_keeps

  pub begin_keeps : KeepsBuffer (begin_fade lib tc sid voice)
  unfolding begin_fade
  begin_keeps = fade_keeps (λ f. some (begin_sentence f, []))

  pub pure_keeps : KeepsBuffer (pure tt)
  pure_keeps = record { kept = λ s. refl }

  if_keeps :
      {m n : Code lib tc sid voice Unit} (b : Bool)
      → KeepsBuffer m
      → KeepsBuffer n
      → KeepsBuffer (if b then m else n)
  if_keeps true h k = h
  if_keeps false h k = k

  fail_keeps : (e : Str) (c : ℕ) → KeepsBuffer (fail lib tc sid voice {A = Unit} e c)
  unfolding fail
  fail_keeps e c = record { kept = λ s. refl }

  stream_keeps :
      (stream : List (Result TtsEvent)) → KeepsBuffer (speak_stream lib tc sid voice stream)
  unfolding speak_stream
  stream_keeps [] = pure_keeps
  stream_keeps (err e ∷ more) = fail_keeps (codes "tts stream: " ++ show_error e) 1005
  stream_keeps (ok t ∷ more) =
      feed_keeps t.bytes next λ _. if_keeps t.is_last pure_keeps (stream_keeps more)

  called_keeps :
      (called : Result (List (Result TtsEvent)))
      → KeepsBuffer (elim called [
        | err e ↦ fail lib tc sid voice (tts_error lib tc sid voice e) 1004
        | ok stream ↦ begin_fade lib tc sid voice >>= λ _.
            (speak_stream lib tc sid voice stream >>= λ _. end_fade lib tc sid voice)
      ])
  called_keeps (err e) = fail_keeps (tts_error lib tc sid voice e) 1004
  called_keeps (ok stream) = begin_keeps next λ _. (stream_keeps stream next λ _. end_keeps)

  synthesize_keeps : (text : Str) → KeepsBuffer (synthesize lib tc sid voice text)
  unfolding synthesize
  synthesize_keeps text = record { kept = λ s. refl }

  short_keeps : (f : Str → Str × Option Str) → KeepsBuffer (short_sentences lib tc sid voice f)
  short_keeps f = record { kept = λ s. refl }

  merged_keeps :
      (merged : Option Str)
      → KeepsBuffer (elim merged [
        | none ↦ pure tt
        | some sent ↦ synthesize lib tc sid voice sent >>= λ called. elim called [
          | err e ↦ fail lib tc sid voice (tts_error lib tc sid voice e) 1004
          | ok stream ↦ begin_fade lib tc sid voice >>= λ _.
              (speak_stream lib tc sid voice stream >>= λ _. end_fade lib tc sid voice)
        ]
      ])
  merged_keeps none = pure_keeps
  merged_keeps (some sent) = synthesize_keeps sent next called_keeps

  sentence_keeps : (raw : Str) → KeepsBuffer (speak_sentence lib tc sid voice raw)
  unfolding speak_sentence
  sentence_keeps raw =
      short_keeps (λ b. Buffer.push lib.is_alphanumeric b (to_tts_text raw)) next merged_keeps

  then_same :
      {A : Type 0} (out : List LlmTtsItem) (s : Vars tc) (flow : Flow A)
      (f g : A → Code lib tc sid voice Unit)
      → ((a : A) → f a s ≡ g a s)
      → then_do out s flow f ≡ then_do out s flow g
  then_same out s (goes a) f g h = ap (λ r. (out ++ r.0, r.1, r.2)) (h a)
  then_same out s returned f g h = refl
  then_same out s panicked f g h = refl

  cut_shorter : (a b : Str) (c : ℕ) (s : Str) → s ≡ a ++ (c ∷ b) → length b < length s
  cut_shorter a b c s h = omega (arith, ap length h, length-append a (c ∷ b))

  -- What a round does with the parts of the buffer, and where the search gave `o`.
  abbrev parts_round : ℕ → Option (Str × Str) → Code lib tc sid voice Unit
  parts_round fuel parts = or_panic parts >>= λ (raw_sent, rest).
      (set_sentence_buf lib tc sid voice rest >>= λ _.
      (speak_sentence lib tc sid voice raw_sent >>= λ _. sentence_loop lib tc sid voice fuel))

  abbrev round : ℕ → Str → Option ℕ → Code lib tc sid voice Unit
  round fuel buf o = elim o [ none ↦ pure tt | some end ↦ parts_round fuel (split_at end buf) ]

  round_empty :
      (m : ℕ) (s : Vars tc) (o : Option ℕ)
      → IsFirstEnd s.sentence_buf 0 o
      → length s.sentence_buf ≤ 0
      → round m s.sentence_buf o s ≡ pure tt s
  round_empty m s none found h = refl
  round_empty m s (some end) (a, c, b, whole, before, ends, cut, le) h =
      absurd (omega (arith, cut_shorter a b c s.sentence_buf whole, h))

  round_same :
      (n m : ℕ) (s : Vars tc) (o : Option ℕ)
      → IsFirstEnd s.sentence_buf 0 o
      → length s.sentence_buf ≤ suc n
      → length s.sentence_buf ≤ suc m
      → ((s' : Vars tc)
          → length s'.sentence_buf ≤ n
          → length s'.sentence_buf ≤ m
          → sentence_loop lib tc sid voice n s' ≡ sentence_loop lib tc sid voice m s')
      → round n s.sentence_buf o s ≡ round m s.sentence_buf o s
  round_same n m s none found h k rest_same = refl
  round_same n m s (some end) (a, c, b, whole, none_before, ends, cut, le) h k rest_same =
      let shorter = cut_shorter a b c s.sentence_buf whole in
      let s1 : Vars tc = record s { sentence_buf = b } in
      let said = speak_sentence lib tc sid voice (a ++ (c ∷ [])) s1 in
      let kept = (sentence_keeps (a ++ (c ∷ []))).kept s1 in
      let same =
        rest_same said.1 (omega (arith, ap length kept, shorter, h))
          (omega (arith, ap length kept, shorter, k)) in
      let here : split_at end s.sentence_buf ≡ some (a ++ (c ∷ []), b) =
        ap (λ j. split_at j s.sentence_buf) (omega arith) ∙ cut in
      ap (λ parts. parts_round n parts s) here
      ∙ then_same said.0 said.1 said.2 (λ _. sentence_loop lib tc sid voice n)
          (λ _. sentence_loop lib tc sid voice m) (λ _. same)
      ∙ sym (ap (λ parts. parts_round m parts s) here)

  -- The length of the buffer is enough fuel: more gives the same run.
  pub sentence_loop_enough :
      (n m : ℕ) (s : Vars tc)
      → length s.sentence_buf ≤ n
      → length s.sentence_buf ≤ m
      → sentence_loop lib tc sid voice n s ≡ sentence_loop lib tc sid voice m s
  unfolding sentence_loop
  sentence_loop_enough zero zero s h k = refl
  sentence_loop_enough (suc n) (suc m) s h k =
      round_same n m s (next_sentence_end s.sentence_buf)
        (next_sentence_end-IsFirstEnd s.sentence_buf) h k (sentence_loop_enough n m)
  sentence_loop_enough zero (suc m) s h k = sym (
      round_empty m s (next_sentence_end s.sentence_buf)
        (next_sentence_end-IsFirstEnd s.sentence_buf) h)
  sentence_loop_enough (suc n) zero s h k =
      round_empty n s (next_sentence_end s.sentence_buf)
        (next_sentence_end-IsFirstEnd s.sentence_buf) k
