-- ===== src/Crossfade/Loss.antt =====
-- Where the fader loses audio: after a tail shorter than a fade, and in a sentence shorter than the
-- tail before it.
use voice_ai.Base.{
  first_part, last_part, ℕ, ◌+◌, ◌-◌, ◌/◌, ◌%◌, ◌≤◌, ◌<◌, ◌≡◌, refl, ap, ◌∙◌, inl, false, some,
  List, [], ◌∷◌, ◌++◌, append-nil, length, is_empty, take, drop, concat, le→not_ltb, lt→ltb, arith,
  length-append, take-append, drop-append, take-all, drop-all,
}
use voice_ai.Crossfade.{FloatOps, fade_bytes, SentenceCrossfader, sentence}
use voice_ai.Crossfade.Refine.{faded}
use voice_ai.Crossfade.Sentence.{overlap, spoken, next_tail, between, sentence-spoken}

-- The mix reads no more of the second list than the first is long.
faded-append :
    (fl : FloatOps) (i n : ℕ) (a p z : List ℕ)
    → length a ≤ length p
    → faded fl i n a (p ++ z) ≡ faded fl i n a p
unfolding faded
faded-append fl i n [] p z h = refl
faded-append fl i n (a0 ∷ []) p z h = refl
faded-append fl i n (a0 ∷ a1 ∷ a) [] z h = absurd (omega arith)
faded-append fl i n (a0 ∷ a1 ∷ a) (b0 ∷ []) z h = absurd (omega arith)
faded-append fl i n (a0 ∷ a1 ∷ a) (b0 ∷ b1 ∷ p) z h =
    rw (faded-append fl (i + 1) n a p z (omega arith)) refl

module _ (fl : FloatOps) (t p r : List ℕ) (left : is_empty t ≡ false)
    (short : length t ≤ length p) where
  spoken-middle :
      (x : List ℕ)
      → length p + length x ≤ fade_bytes
      → fade_bytes ≤ length (p ++ (x ++ r))
      → (spoken fl t (p ++ (x ++ r))
          ≡ faded fl 0 (length t / 2) t p
            ++ first_part fade_bytes (drop (fade_bytes - (length p + length x)) r))
        × (next_tail t (p ++ (x ++ r))
            ≡ last_part fade_bytes (drop (fade_bytes - (length p + length x)) r))
  unfolding spoken next_tail
  spoken-middle x small long =
      let m = fade_bytes - length p in
      let k = fade_bytes - (length p + length x) in
      let taken : take fade_bytes (p ++ (x ++ r)) ≡ p ++ take m (x ++ r) =
        take-append p (x ++ r) fade_bytes m (omega arith) in
      let dropped : drop fade_bytes (p ++ (x ++ r)) ≡ drop k r =
        drop-append p (x ++ r) fade_bytes m (omega arith) ∙ drop-append x r m k (omega arith) in
      let test = le→not_ltb (length (p ++ (x ++ r))) fade_bytes long in
      (
        rw
            (
              left,
              test,
              taken,
              dropped,
              faded-append fl 0 (length t / 2) t p (take m (x ++ r)) short,
            )
            refl,
        rw (left, test, dropped) refl,
      )

-- After a tail shorter than a fade, the bytes of a long sentence between the tail's length and the
-- end of its first fade are lost: two sentences that differ only there give the same audio and the
-- same state (release builds).
pub short_tail_drops :
    (fl : FloatOps) (f : SentenceCrossfader) (cs ds : List (List ℕ)) (p x y r : List ℕ)
    → is_empty f.tail ≡ false
    → length f.tail ≤ length p
    → length p + length x ≤ fade_bytes
    → length x ≡ length y
    → fade_bytes ≤ length (p ++ (x ++ r))
    → concat cs ≡ p ++ (x ++ r)
    → concat ds ≡ p ++ (y ++ r)
    → sentence fl false f cs ≡ sentence fl false f ds
short_tail_drops fl f cs ds p x y r left short small same long ec ed =
    let lx = length-append p (x ++ r) in
    let ly = length-append p (y ++ r) in
    let (sx, tx) = spoken-middle fl f.tail p r left short x small long in
    let (sy, ty) =
      spoken-middle fl f.tail p r left short y (omega arith)
        (omega (arith, lx, ly, length-append x r, length-append y r)) in
    rw
      (
        sentence-spoken fl false f cs (inl (omega arith, inl refl)),
        sentence-spoken fl false f ds (inl (omega arith, inl refl)),
        ec,
        ed,
        sx,
        tx,
        sy,
        ty,
        same,
      )
      refl

-- A sentence that is shorter than a fade, of whole samples, and no longer than the tail before it,
-- drops the rest `x` of that tail: no output depends on it.
pub short_sentence_drops :
    (fl : FloatOps) (f : SentenceCrossfader) (cs : List (List ℕ)) (p x : List ℕ)
    → f.tail ≡ p ++ x
    → is_empty f.tail ≡ false
    → length f.tail ≤ fade_bytes
    → length (concat cs) < fade_bytes
    → length p ≡ length (concat cs)
    → length p % 2 ≡ 0
    → sentence fl false f cs ≡ some (between [], faded fl 0 (length p / 2) p (concat cs))
unfolding spoken next_tail
short_sentence_drops fl f cs p x e left fits few same even =
    let s = concat cs in
    let n : overlap f.tail s ≡ length p = omega (arith, ap length e, length-append p x) in
    let mixed_tail : take (length p) f.tail ≡ p =
      ap (take (length p)) e ∙ take-append p x (length p) 0 (omega arith) ∙ append-nil p in
    rw
      (
        sentence-spoken fl false f cs (inl (fits, inl refl)),
        left,
        lt→ltb (length s) fade_bytes few,
        n,
        mixed_tail,
        take-all (length p) s (omega arith),
        drop-all (length p) s (omega arith),
        append-nil (faded fl 0 (length p / 2) p s),
      )
      refl
