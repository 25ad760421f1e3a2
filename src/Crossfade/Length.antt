-- ===== src/Crossfade/Length.antt =====
-- How many bytes a stream of sentences keeps.
use voice_ai.Base.{
  first_part, last_part, ℕ, ◌+◌, ◌-◌, ◌*◌, ◌/◌, ◌≤◌, ◌<◌, ◌≡◌, refl, ap, inl, inr, Bool, true,
  false, Option, some, List, [], ◌∷◌, ◌++◌, append-nil, length, is_empty, take, drop, concat,
  le→not_ltb, arith, All, length-append, length-take, length-drop, take-append-drop,
}
use voice_ai.Crossfade.{FloatOps, fade_bytes, SentenceCrossfader, new, finish, sentences}
use voice_ai.Crossfade.Refine.{faded, length-faded}
use voice_ai.Crossfade.Sentence.{spoken, next_tail, between, sentence-spoken}

first_last {ℓ} :
    {A : Type ℓ} (c : ℕ) (xs : List A)
    → length (first_part c xs) + length (last_part c xs) ≡ length xs
first_last c xs = omega (arith, length-take (length xs - c) xs, length-drop (length xs - c) xs)

-- A single sentence comes out byte for byte, however it is cut into chunks.
pub sentences-one :
    (fl : FloatOps) (debug : Bool) (cs : List (List ℕ))
    → (f : SentenceCrossfader) × (sentences fl debug new (cs ∷ []) ≡ some (f, concat cs))
unfolding sentences finish spoken next_tail
sentences-one fl debug cs = (
  record { tail = []; head = []; hold = []; head_done = true },
  rw (sentence-spoken fl debug new cs (inr refl)) (ap (λ out. some (between [], out)) whole),
)
  where
    whole :
        first_part fade_bytes (concat cs) ++ (last_part fade_bytes (concat cs) ++ ([] ++ []))
        ≡ concat cs
    whole = rw (append-nil (last_part fade_bytes (concat cs))) (take-append-drop _ (concat cs))

module _ (fl : FloatOps) (t s : List ℕ) (left : is_empty t ≡ false) where
  -- What a sentence emits and holds back, in bytes, where a tail was left before it.
  length-spoken :
      length t ≤ fade_bytes
      → fade_bytes ≤ length s
      → length (spoken fl t s) + length (next_tail t s) + fade_bytes ≡ length t / 2 * 2 + length s
  unfolding spoken next_tail
  length-spoken fits long =
      let body = drop fade_bytes s in
      let mixed = faded fl 0 (length t / 2) t (take fade_bytes s) in
      rw (left, le→not_ltb (length s) fade_bytes long)
        (omega (
          arith,
          length-append mixed (first_part fade_bytes body),
          length-faded fl 0 (length t / 2) t (take fade_bytes s)
              (omega (arith, length-take fade_bytes s)),
          first_last fade_bytes body,
          length-drop fade_bytes s,
        ))

  -- A sentence of two fades or more leaves a whole fade for the next.
  length-next_tail : 640 ≤ length s → length (next_tail t s) ≡ fade_bytes
  unfolding next_tail
  length-next_tail long =
      rw (left, le→not_ltb (length s) fade_bytes (omega arith))
        (omega (
          arith,
          length-drop fade_bytes s,
          length-drop (length (drop fade_bytes s) - fade_bytes) (drop fade_bytes s),
        ))

-- The bytes of all the sentences.
abbrev pub total : List (List (List ℕ)) → ℕ
total [] = 0
total (cs ∷ css) = length (concat cs) + total css

abbrev pub Played : Option (SentenceCrossfader × List ℕ) → ℕ → ℕ → Type 0
Played r joints bytes =
    (f : SentenceCrossfader) × (out : List ℕ) × (r ≡ some (f, out))
    × (length out + fade_bytes * joints ≡ bytes)

module _ (fl : FloatOps) (debug : Bool) where
  play_rest :
      (f : SentenceCrossfader) (css : List (List (List ℕ)))
      → f.hold ≡ []
      → f.head ≡ []
      → length f.tail ≡ fade_bytes
      → All (λ cs. 640 ≤ length (concat cs)) css
      → Played (sentences fl debug f css) (length css) (fade_bytes + total css)
  unfolding sentences finish
  play_rest f [] hh hd ht long = (
    record f { tail = []; head = []; hold = [] },
    f.tail ++ (f.hold ++ f.head),
    refl,
    rw (hh, hd, append-nil f.tail) (omega (arith, ht)),
  )
  play_rest f (cs ∷ css) hh hd ht (l, long) =
      let s = concat cs in
      let left : is_empty f.tail ≡ false = nonempty f.tail (omega arith) in
      let tail_full = length-next_tail fl f.tail s left l in
      let (f', out, e, len) =
        play_rest (between (next_tail f.tail s)) css refl refl tail_full long in
      (
        f',
        spoken fl f.tail s ++ out,
        rw (sentence-spoken fl debug f cs (inl (omega arith, inr ht)), e) refl,
        omega (
          arith,
          len,
          length-append (spoken fl f.tail s) out,
          length-spoken fl f.tail s left (omega arith) (omega arith),
        ),
      )
    where
      nonempty : (t : List ℕ) → 0 < length t → is_empty t ≡ false
      nonempty [] h = absurd (omega arith)
      nonempty (x ∷ t) h = refl

  -- Where the first sentence has a fade and each further one two fades or more, nothing panics,
  -- also with assertions, and each joint takes exactly one fade off the total length.
  pub sentences-Played :
      (first : List (List ℕ)) (css : List (List (List ℕ)))
      → fade_bytes ≤ length (concat first)
      → All (λ cs. 640 ≤ length (concat cs)) css
      → Played (sentences fl debug new (first ∷ css)) (length css) (total (first ∷ css))
  unfolding sentences
  sentences-Played first css l long =
      let s = concat first in
      let tail_full : length (next_tail [] s) ≡ fade_bytes =
        unfold next_tail in omega (arith, length-drop (length s - 320) s) in
      let split : length (spoken fl [] s) + length (next_tail [] s) ≡ length s =
        unfold next_tail spoken in first_last fade_bytes s in
      let (f', out, e, len) = play_rest (between (next_tail [] s)) css refl refl tail_full long in
      (
        f',
        spoken fl [] s ++ out,
        rw (sentence-spoken fl debug new first (inr refl), e) refl,
        omega (arith, len, length-append (spoken fl [] s) out),
      )
