-- ===== src/Crossfade/Refine.antt =====
-- The fader against a description that does not depend on how a sentence is cut into chunks.
use voice_ai.Base.{
  ℕ, ◌+◌, ◌-◌, ◌*◌, ◌/◌, ◌≤◌, ◌<◌, min, ◌≡◌, refl, sym, ap, ◌∙◌, ◌⊎◌, inl, inr, Bool, true, false,
  some, List, [], ◌∷◌, ◌++◌, append-nil, append_assoc, length, take, drop, concat, leb, ltb, arith,
  length-append, length-take, length-drop, take-all, drop-all, take-append_le, drop-append_le,
  take-append, drop-append, Bool-cases, tests, first_part, last_part, last_part-append,
  first_part-append,
}
use voice_ai.Crossfade.{
  FloatOps, fade_bytes, SentenceCrossfader, blend, mix, crossfade, feed_head, feed_hold, feed,
  feed_all,
}

abbrev pub passing : List ℕ → SentenceCrossfader
passing hold = record { tail = []; head = []; hold = hold; head_done = true }

-- A chunk moves the held back part along.
feed_hold-passing :
    (h x : List ℕ)
    → length h ≤ fade_bytes
    → feed_hold (passing h) x
      ≡ (passing (last_part fade_bytes (h ++ x)), first_part fade_bytes (h ++ x))
unfolding feed_hold
feed_hold-passing h [] le =
    let z : length h - 320 ≡ 0 = omega arith in rw (append-nil h) (rw z refl)
feed_hold-passing h (y ∷ ys) le = elim (Bool-cases (ltb fade_bytes (length (h ++ y ∷ ys)))) [
  | inl more ↦ rw more refl
  | inr few ↦ let z : length (h ++ y ∷ ys) - 320 ≡ 0 = omega (tests, few) in rw (few, z) refl
]

module _ (fl : FloatOps) where
  -- The mixed samples, where the second list is long enough.
  unfoldable pub faded : ℕ → ℕ → List ℕ → List ℕ → List ℕ
  faded i n (a0 ∷ a1 ∷ a) (b0 ∷ b1 ∷ b) =
      blend fl i n (a0 + 256 * a1) (b0 + 256 * b1) ++ faded (i + 1) n a b
  faded i n _ _ = []

  pub mix-faded :
      (i n : ℕ) (a b : List ℕ) → length a ≤ length b → mix fl i n a b ≡ some (faded i n a b)
  unfolding mix faded
  mix-faded i n [] b h = refl
  mix-faded i n (a0 ∷ []) b h = refl
  mix-faded i n (a0 ∷ a1 ∷ a) [] h = absurd (omega arith)
  mix-faded i n (a0 ∷ a1 ∷ a) (b0 ∷ []) h = absurd (omega arith)
  mix-faded i n (a0 ∷ a1 ∷ a) (b0 ∷ b1 ∷ b) h = rw (mix-faded (i + 1) n a b (omega arith))

  pub length-faded :
      (i n : ℕ) (a b : List ℕ) → length a ≤ length b → length (faded i n a b) ≡ length a / 2 * 2
  unfolding faded blend
  length-faded i n [] b h = refl
  length-faded i n (a0 ∷ []) b h = refl
  length-faded i n (a0 ∷ a1 ∷ a) [] h = absurd (omega arith)
  length-faded i n (a0 ∷ a1 ∷ a) (b0 ∷ []) h = absurd (omega arith)
  length-faded i n (a0 ∷ a1 ∷ a) (b0 ∷ b1 ∷ b) h =
      omega (arith, length-faded (i + 1) n a b (omega arith))

-- The tail that the previous sentence left is fit for a full mix: it is no longer than a fade, and
-- as long as one where the assertion is compiled in.
abbrev pub Ready : Bool → List ℕ → Type 0
Ready debug t = (length t ≤ fade_bytes) × ((debug ≡ false) ⊎ (length t ≡ fade_bytes))

abbrev pub waiting : List ℕ → List ℕ → SentenceCrossfader
waiting t s = record { tail = t; head = s; hold = []; head_done = false }

module _ (fl : FloatOps) where
  crossfade_full :
      (debug : Bool) (t h : List ℕ)
      → Ready debug t
      → length h ≡ fade_bytes
      → crossfade fl debug t h ≡ some (faded fl 0 (length t / 2) t h)
  unfolding crossfade
  crossfade_full false t h (le, _) e = mix-faded fl 0 (length t / 2) t h (omega arith)
  crossfade_full true t h (le, inl no_debug) e = absurd (cc)
  crossfade_full true t h (le, inr full) e = rw (full, e) (mix-faded fl 0 160 t h (omega arith))

  feed-passing :
      (debug : Bool) (done x : List ℕ)
      → feed fl debug (passing (last_part fade_bytes done)) x
        ≡ some (
          passing (last_part fade_bytes (done ++ x)),
          first_part fade_bytes (last_part fade_bytes done ++ x),
        )
  unfolding feed feed_head
  feed-passing debug done x =
      rw
        (
          feed_hold-passing (last_part fade_bytes done) x
              (omega (arith, length-drop (length done - 320) done)),
          last_part-append fade_bytes done x,
        )
        refl

  module _ (debug : Bool) (t s : List ℕ) (room : length s < fade_bytes) where
    feed-waiting :
        (x : List ℕ)
        → length (s ++ x) < fade_bytes
        → feed fl debug (waiting t s) x ≡ some (waiting t (s ++ x), [])
    unfolding feed feed_head feed_hold
    feed-waiting x few =
        let whole : min (fade_bytes - length s) (length x) ≡ length x =
          omega (arith, length-append s x) in
        let below : leb fade_bytes (length (s ++ x)) ≡ false = ground (arith, few) in
        rw (whole, take-all (length x) x (omega arith), drop-all (length x) x (omega arith), below)
          refl

    feed_head-opens :
        (x : List ℕ)
        → Ready debug t
        → fade_bytes ≤ length (s ++ x)
        → feed_head fl debug (waiting t s) x
          ≡ some (
            passing [],
            faded fl 0 (length t / 2) t (take fade_bytes (s ++ x)) ++ [],
            drop fade_bytes (s ++ x),
          )
    unfolding feed_head
    feed_head-opens x ready many =
        let n = fade_bytes - length s in
        let part : min n (length x) ≡ n = omega (arith, length-append s x) in
        let taken : s ++ take n x ≡ take fade_bytes (s ++ x) =
          sym (take-append s x fade_bytes n (omega arith)) in
        let left : drop n x ≡ drop fade_bytes (s ++ x) =
          sym (drop-append s x fade_bytes n (omega arith)) in
        let full : length (take fade_bytes (s ++ x)) ≡ fade_bytes =
          omega (arith, length-take fade_bytes (s ++ x)) in
        rw
          (
            part,
            taken,
            full,
            left,
            take-all fade_bytes (take fade_bytes (s ++ x)) (omega arith),
            drop-all fade_bytes (take fade_bytes (s ++ x)) (omega arith),
            crossfade_full debug t (take fade_bytes (s ++ x)) ready full,
          )
          refl

    feed-opens :
        (x : List ℕ)
        → Ready debug t
        → fade_bytes ≤ length (s ++ x)
        → feed fl debug (waiting t s) x
          ≡ some (
            passing (last_part fade_bytes (drop fade_bytes (s ++ x))),
            faded fl 0 (length t / 2) t (take fade_bytes (s ++ x))
                ++ first_part fade_bytes (drop fade_bytes (s ++ x)),
          )
    unfolding feed
    feed-opens x ready many =
        rw
          (
            feed_head-opens x ready many,
            feed_hold-passing [] (drop fade_bytes (s ++ x)) (omega arith),
            append-nil (faded fl 0 (length t / 2) t (take fade_bytes (s ++ x))),
          )
          refl

  -- The chunks of a sentence one after the other, from each of the two modes of the fader.
  pub feed_all-passing :
      (debug : Bool) (done : List ℕ) (cs : List (List ℕ))
      → feed_all fl debug (passing (last_part fade_bytes done)) cs
        ≡ some (
          passing (last_part fade_bytes (done ++ concat cs)),
          first_part fade_bytes (last_part fade_bytes done ++ concat cs),
        )
  unfolding feed_all
  feed_all-passing debug done [] =
      let le : length (last_part fade_bytes done) ≤ fade_bytes =
        omega (arith, length-drop (length done - 320) done) in
      let none_out : length (last_part fade_bytes done) - fade_bytes ≡ 0 = omega arith in
      rw (append-nil done, append-nil (last_part fade_bytes done), none_out) refl
  feed_all-passing debug done (c ∷ cs) =
      let h = last_part fade_bytes done in
      let out : first_part fade_bytes (h ++ (c ++ concat cs))
          ≡ first_part fade_bytes (h ++ c)
            ++ first_part fade_bytes (last_part fade_bytes (done ++ c) ++ concat cs) =
        rw (← append_assoc h c (concat cs), ← last_part-append fade_bytes done c)
          (first_part-append fade_bytes (h ++ c) (concat cs)) in
      rw
        (
          feed-passing debug done c,
          feed_all-passing debug (done ++ c) cs,
          append_assoc done c (concat cs),
          out,
        )
        refl

  pub feed_all-waiting :
      (debug : Bool) (t s : List ℕ) (cs : List (List ℕ))
      → length (s ++ concat cs) < fade_bytes
      → feed_all fl debug (waiting t s) cs ≡ some (waiting t (s ++ concat cs), [])
  unfolding feed_all
  feed_all-waiting debug t s [] few = rw (append-nil s) refl
  feed_all-waiting debug t s (c ∷ cs) few =
      let all_few : length ((s ++ c) ++ concat cs) < fade_bytes =
        omega (arith, ap length (append_assoc s c (concat cs))) in
      rw
        (
          feed-waiting debug t s (omega (arith, length-append s (c ++ concat cs))) c
              (omega (arith, all_few, length-append (s ++ c) (concat cs))),
          feed_all-waiting debug t (s ++ c) cs all_few,
          append_assoc s c (concat cs),
        )
        refl

  pub feed_all-opens :
      (debug : Bool) (t s : List ℕ) (cs : List (List ℕ))
      → Ready debug t
      → length s < fade_bytes
      → fade_bytes ≤ length (s ++ concat cs)
      → feed_all fl debug (waiting t s) cs
        ≡ some (
          passing (last_part fade_bytes (drop fade_bytes (s ++ concat cs))),
          faded fl 0 (length t / 2) t (take fade_bytes (s ++ concat cs))
              ++ first_part fade_bytes (drop fade_bytes (s ++ concat cs)),
        )
  unfolding feed_all
  feed_all-opens debug t s [] ready room many = absurd (omega (arith, ap length (append-nil s)))
  feed_all-opens debug t s (c ∷ cs) ready room many =
      let regroup = append_assoc s c (concat cs) in
      elim (Bool-cases (ltb (length (s ++ c)) fade_bytes)) [
        | inl few ↦
            let few' : length (s ++ c) < fade_bytes = omega (tests, few) in
            rw
              (
                feed-waiting debug t s room c few',
                feed_all-opens debug t (s ++ c) cs ready few' (omega (arith, ap length regroup)),
                regroup,
              )
              refl
        | inr enough ↦
            let le : fade_bytes ≤ length (s ++ c) = omega (tests, enough) in
            let rest = drop fade_bytes (s ++ c) in
            let dropped : rest ++ concat cs ≡ drop fade_bytes (s ++ (c ++ concat cs)) =
              sym (drop-append_le fade_bytes (s ++ c) (concat cs) le)
              ∙ ap (drop fade_bytes) regroup in
            let taken : take fade_bytes (s ++ c) ≡ take fade_bytes (s ++ (c ++ concat cs)) =
              sym (take-append_le fade_bytes (s ++ c) (concat cs) le)
              ∙ ap (take fade_bytes) regroup in
            let first = faded fl 0 (length t / 2) t (take fade_bytes (s ++ c)) in
            let out : (first ++ first_part fade_bytes rest)
                  ++ first_part fade_bytes (last_part fade_bytes rest ++ concat cs)
                ≡ first ++ first_part fade_bytes (rest ++ concat cs) =
              append_assoc first _ _
              ∙ ap (◌++◌ first) (sym (first_part-append fade_bytes rest (concat cs))) in
            rw
              (
                feed-opens debug t s room c ready le,
                feed_all-passing debug rest cs,
                out,
                dropped,
                taken,
              )
              refl
      ]
