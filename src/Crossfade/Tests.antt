-- ===== src/Crossfade/Tests.antt =====
-- The fader on concrete audio.
use voice_ai.Base.{
  ℕ, ◌+◌, ◌-◌, ◌*◌, ◌/◌, ◌%◌, ◌≡◌, refl, inl, inr, true, false, some, List, [], ◌∷◌, ◌++◌, concat,
  replicate, append-nil, arith,
}
use voice_ai.Crossfade.{
  FloatOps, SentenceCrossfader, new, blend, mix, crossfade, sentence, sentences,
}
use voice_ai.Crossfade.Refine.{faded}
use voice_ai.Crossfade.Sentence.{spoken, next_tail, between, sentence-spoken}
use voice_ai.Crossfade.Length.{Played, total, sentences-one, sentences-Played}
use voice_ai.Crossfade.Loss.{short_tail_drops, short_sentence_drops}

-- Thousandths in place of floats; the samples here are not negative.
abbrev scaled : FloatOps
scaled = record {
  F32 = ℕ;
  of_usize = λ n. n * 1000;
  of_i16 = λ w. w * 1000;
  to_i16 = λ x. x / 1000 % 65536;
  add = λ a b. a + b;
  sub = λ a b. a - b;
  mul = λ a b. a * b / 1000;
  div = λ a b. a * 1000 / b;
}

-- Two samples of 300, then a fade of silence: the middle of the mix.
mixes :
    crossfade scaled true (44 ∷ 1 ∷ 44 ∷ 1 ∷ []) (0 ∷ 0 ∷ 0 ∷ 0 ∷ [])
    ≡ some (200 ∷ 0 ∷ 100 ∷ 0 ∷ [])
unfolding crossfade mix blend
mixes = refl

abbrev quiet : List ℕ
quiet = replicate 320 0

sentence-spoken_example :
    sentence scaled true (between quiet) (replicate 100 1 ∷ replicate 300 2 ∷ [])
    ≡ some (
      between (next_tail quiet (concat (replicate 100 1 ∷ replicate 300 2 ∷ []))),
      spoken scaled quiet (concat (replicate 100 1 ∷ replicate 300 2 ∷ [])),
    )
sentence-spoken_example =
    sentence-spoken scaled true (between quiet) (replicate 100 1 ∷ replicate 300 2 ∷ [])
      (inl (omega arith, inr refl))

sentences-one_example :
    (f : SentenceCrossfader) × (sentences scaled true new
        ((replicate 100 1 ∷ replicate 300 2 ∷ []) ∷ [])
      ≡ some (f, concat (replicate 100 1 ∷ replicate 300 2 ∷ [])))
sentences-one_example = sentences-one scaled true (replicate 100 1 ∷ replicate 300 2 ∷ [])

sentences-Played_example :
    Played
      (sentences scaled true new ((quiet ∷ []) ∷ (replicate 640 1 ∷ []) ∷ []))
      1
      (total ((quiet ∷ []) ∷ (replicate 640 1 ∷ []) ∷ []))
sentences-Played_example =
    sentences-Played scaled true (quiet ∷ []) ((replicate 640 1 ∷ []) ∷ []) (omega arith)
      (omega arith, tt)

-- A tail of 4 bytes: 316 of the next 320 bytes are heard by nobody.
short_tail_drops_example :
    sentence scaled false
      (between (9 ∷ 0 ∷ 9 ∷ 0 ∷ []))
      (((1 ∷ 0 ∷ 1 ∷ 0 ∷ []) ++ (replicate 316 5 ++ 7 ∷ [])) ∷ [])
    ≡ sentence scaled false
        (between (9 ∷ 0 ∷ 9 ∷ 0 ∷ []))
        (((1 ∷ 0 ∷ 1 ∷ 0 ∷ []) ++ (replicate 316 8 ++ 7 ∷ [])) ∷ [])
short_tail_drops_example =
    short_tail_drops scaled (between (9 ∷ 0 ∷ 9 ∷ 0 ∷ [])) _ _ (1 ∷ 0 ∷ 1 ∷ 0 ∷ [])
      (replicate 316 5) (replicate 316 8) (7 ∷ []) refl (omega arith) (omega arith) refl
      (omega arith) (append-nil _) (append-nil _)

short_sentence_drops_example :
    sentence scaled false (between (9 ∷ 0 ∷ 5 ∷ 6 ∷ [])) ((1 ∷ 0 ∷ []) ∷ [])
    ≡ some (between [], faded scaled 0 1 (9 ∷ 0 ∷ []) (1 ∷ 0 ∷ []))
short_sentence_drops_example =
    short_sentence_drops scaled (between (9 ∷ 0 ∷ 5 ∷ 6 ∷ [])) ((1 ∷ 0 ∷ []) ∷ []) (9 ∷ 0 ∷ [])
      (5 ∷ 6 ∷ []) refl refl (omega arith) (omega arith) refl refl
