-- ===== src/Crossfade/Sentence.antt =====
-- A whole sentence through the fader: what is emitted, and the tail that is left for the next one.
use voice_ai.Base.{
  first_part, last_part, ℕ, ◌-◌, ◌/◌, ◌%◌, min, ◌≡◌, refl, ◌⊎◌, inl, inr, Bool, true, some, List,
  [], ◌∷◌, ◌++◌, append-nil, length, is_empty, take, drop, concat, ltb, if◌then◌else◌, arith, tests,
  length-take, Bool-cases,
}
use voice_ai.Crossfade.{
  FloatOps, fade_bytes, SentenceCrossfader, crossfade, begin_sentence, end_sentence, sentence,
}
use voice_ai.Crossfade.Refine.{
  faded, mix-faded, Ready, feed_all-passing, feed_all-waiting, feed_all-opens,
}

-- How much of a sentence shorter than a fade is mixed: whole samples only.
abbrev pub overlap : List ℕ → List ℕ → ℕ
overlap t s = min (length t) (length s) - min (length t) (length s) % 2

-- What the sentence `s` emits after a sentence that left the tail `t`.
unfoldable pub spoken : FloatOps → List ℕ → List ℕ → List ℕ
spoken fl t s =
    if is_empty t
    then first_part fade_bytes s
    else if ltb (length s) fade_bytes
    then faded fl 0 (overlap t s / 2) (take (overlap t s) t) (take (overlap t s) s)
      ++ drop (overlap t s) s
    else faded fl 0 (length t / 2) t (take fade_bytes s)
      ++ first_part fade_bytes (drop fade_bytes s)

-- The tail that it leaves.
unfoldable pub next_tail : List ℕ → List ℕ → List ℕ
next_tail t s =
    if is_empty t
    then last_part fade_bytes s
    else if ltb (length s) fade_bytes
    then []
    else last_part fade_bytes (drop fade_bytes s)

abbrev pub between : List ℕ → SentenceCrossfader
between t = record { tail = t; head = []; hold = []; head_done = true }

-- The tail fits a full mix, or there is none.
abbrev pub Fits : Bool → List ℕ → Type 0
Fits debug t = Ready debug t ⊎ (is_empty t ≡ true)

module _ (fl : FloatOps) where
  crossfade_part :
      (debug : Bool) (t s : List ℕ)
      → crossfade fl debug (take (overlap t s) t) (take (overlap t s) s)
        ≡ some (faded fl 0 (overlap t s / 2) (take (overlap t s) t) (take (overlap t s) s))
  unfolding crossfade
  crossfade_part debug t s =
      let n = overlap t s in
      let lt : length (take n t) ≡ n = omega (arith, length-take n t) in
      let ls : length (take n s) ≡ n = omega (arith, length-take n s) in
      let even : n % 2 ≡ 0 = omega arith in
      let mixed = mix-faded fl 0 (n / 2) (take n t) (take n s) (omega arith) in
      rw (lt, ls, even) (ground (arith, mixed))

  -- Where the sentence begins with no tail, or with a tail of at most 320 bytes that has exactly 320 if
  -- the assertions are compiled in, its result is a function of the tail and of its bytes, however they
  -- are cut into chunks, and nothing panics.
  pub sentence-spoken :
      (debug : Bool) (f : SentenceCrossfader) (cs : List (List ℕ))
      → Fits debug f.tail
      → sentence fl debug f cs
        ≡ some (between (next_tail f.tail (concat cs)), spoken fl f.tail (concat cs))
  unfolding sentence begin_sentence end_sentence next_tail spoken
  sentence-spoken debug f cs fits = go f.tail fits
    where
      go :
          (t : List ℕ)
          → Fits debug t
          → sentence fl debug (record f { tail = t }) cs
            ≡ some (between (next_tail t (concat cs)), spoken fl t (concat cs))
      go [] h =
          rw (feed_all-passing fl debug [] cs)
            (rw (append-nil (first_part fade_bytes (concat cs))) refl)
      go (x ∷ t) (inr e) = absurd (cc)
      go (x ∷ t) (inl ready) = elim (Bool-cases (ltb (length (concat cs)) fade_bytes)) [
        | inl few ↦
            rw (feed_all-waiting fl debug (x ∷ t) [] cs (omega (tests, few)))
              (rw (crossfade_part debug (x ∷ t) (concat cs), few) refl)
        | inr many ↦
            rw
              (
                feed_all-opens fl debug (x ∷ t) [] cs ready (omega arith) (omega (tests, many)),
                many,
                append-nil (
                    faded fl 0 (length (x ∷ t) / 2) (x ∷ t) (take fade_bytes (concat cs))
                    ++ first_part fade_bytes (drop fade_bytes (concat cs))),
              )
              refl
      ]
