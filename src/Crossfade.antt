-- ===== src/Crossfade.antt =====
-- crates/voice_server/src/pipeline/crossfade.rs: the fade between the audio of two sentences.
-- Bytes are numbers, `none` is a panic, and `f32` is a parameter with the operations the code uses.
pub mod Refine
pub mod Sentence
pub mod Length
pub mod Loss
mod Tests
use voice_ai.Base.{
  ℕ, zero, suc, ◌+◌, ◌-◌, ◌*◌, ◌/◌, ◌%◌, min, Bool, true, false, not, ◌&&◌, Option, none, some,
  List, [], ◌∷◌, ◌++◌, length, is_empty, take, drop, leb, ltb, ◌==◌, if◌then◌else◌, ◌>>=◌,
}

-- The primitive type `f32`, with the casts from `usize` and `i16` and the saturating one back.
-- An `i16` is its bit pattern.
pub record FloatOps : Type 1 where
  pub F32 : Type 0
  pub of_usize : ℕ → F32
  pub of_i16 : ℕ → F32
  pub to_i16 : F32 → ℕ
  pub add : F32 → F32 → F32
  pub sub : F32 → F32 → F32
  pub mul : F32 → F32 → F32
  pub div : F32 → F32 → F32

-- 10 ms at 16 kHz, 16 bits, one channel.
abbrev pub fade_bytes : ℕ
fade_bytes = 320

pub record SentenceCrossfader : Type 0 where
  pub tail : List ℕ
  pub head : List ℕ
  pub hold : List ℕ
  pub head_done : Bool

abbrev pub new : SentenceCrossfader
new = record { tail = []; head = []; hold = []; head_done = false }

abbrev i16_from_le : ℕ → ℕ → ℕ
i16_from_le lo hi = lo + 256 * hi

unfoldable pub begin_sentence : SentenceCrossfader → SentenceCrossfader
begin_sentence s = record { tail = s.tail; head = []; hold = []; head_done = is_empty s.tail }

-- The second half: `hold` keeps the last bytes of the sentence back.
unfoldable pub feed_hold : SentenceCrossfader → List ℕ → SentenceCrossfader × List ℕ
feed_hold s bytes =
    if s.head_done && not (is_empty bytes)
    then (let hold = s.hold ++ bytes in
        let emit = length hold - fade_bytes in
        if ltb fade_bytes (length hold)
        then (record s { hold = drop emit hold }, take emit hold)
        else (record s { hold = hold }, []))
    else (s, [])

unfoldable pub finish : SentenceCrossfader → SentenceCrossfader × List ℕ
finish s = (record s { tail = []; hold = []; head = [] }, s.tail ++ (s.hold ++ s.head))

module _ (fl : FloatOps) where
  open fl use {of_usize, of_i16, to_i16, add, sub, mul, div}

  -- Sample `i` of `n`, as the two bytes to be written.
  unfoldable pub blend : ℕ → ℕ → ℕ → ℕ → List ℕ
  blend i n a b =
      let t = div (of_usize (i + 1)) (of_usize (n + 1)) in
      let w = to_i16 (add (mul (of_i16 a) (sub (of_usize 1) t)) (mul (of_i16 b) t)) in
      (w % 256) ∷ (w / 256 % 256) ∷ []

  -- The loop over the samples of `a`. A read past the end of `b` panics; an odd last byte of `a`
  -- is in no sample.
  unfoldable pub mix : ℕ → ℕ → List ℕ → List ℕ → Option (List ℕ)
  mix i n [] b = some []
  mix i n (a0 ∷ []) b = some []
  mix i n (a0 ∷ a1 ∷ a) [] = none
  mix i n (a0 ∷ a1 ∷ a) (b0 ∷ []) = none
  mix i n (a0 ∷ a1 ∷ a) (b0 ∷ b1 ∷ b) = do
    rest ← mix (i + 1) n a b
    some (blend i n (i16_from_le a0 a1) (i16_from_le b0 b1) ++ rest)

  -- `debug` says whether `debug_assert_eq!` is compiled in.
  unfoldable pub crossfade : Bool → List ℕ → List ℕ → Option (List ℕ)
  crossfade debug a b =
      if debug && not (length a == length b && length a % 2 == 0)
      then none
      else mix 0 (length a / 2) a b

  -- The first half of `feed`: what it emits, and the bytes that are left of the chunk.
  unfoldable pub feed_head :
      Bool → SentenceCrossfader → List ℕ → Option (SentenceCrossfader × List ℕ × List ℕ)
  feed_head debug s bytes =
      if s.head_done
      then some (s, [], bytes)
      else let n = min (fade_bytes - length s.head) (length bytes) in
        let head = s.head ++ take n bytes in
        if leb fade_bytes (length head)
        then (do
          mixed ← crossfade debug s.tail (take fade_bytes head)
          some (
            record { tail = []; head = []; hold = s.hold; head_done = true },
            mixed ++ drop fade_bytes head,
            drop n bytes,
          ))
        else some (record s { head = head }, [], drop n bytes)

  unfoldable pub feed : Bool → SentenceCrossfader → List ℕ → Option (SentenceCrossfader × List ℕ)
  feed debug s bytes = do
    (s1, out, rest) ← feed_head debug s bytes
    let (s2, more) = feed_hold s1 rest
    some (s2, out ++ more)

  -- `& !1` rounds down to a whole sample.
  unfoldable pub end_sentence : Bool → SentenceCrossfader → Option (SentenceCrossfader × List ℕ)
  end_sentence debug s =
      if s.head_done
      then some (record s { tail = s.hold; hold = [] }, [])
      else let m = min (length s.tail) (length s.head) in
        let n = m - m % 2 in
        (do
          mixed ← crossfade debug (take n s.tail) (take n s.head)
          some (
            record { tail = []; head = []; hold = s.hold; head_done = true },
            mixed ++ drop n s.head,
          ))

  -- How the callers use the fader for a sentence: `begin_sentence`, one `feed` for each chunk,
  -- `end_sentence`. The bytes of all the calls, in order.
  unfoldable pub feed_all :
      Bool → SentenceCrossfader → List (List ℕ) → Option (SentenceCrossfader × List ℕ)
  feed_all debug s [] = some (s, [])
  feed_all debug s (c ∷ cs) = do
    (s1, out) ← feed debug s c
    (s2, more) ← feed_all debug s1 cs
    some (s2, out ++ more)

  unfoldable pub sentence :
      Bool → SentenceCrossfader → List (List ℕ) → Option (SentenceCrossfader × List ℕ)
  sentence debug s chunks = do
    (s1, out) ← feed_all debug (begin_sentence s) chunks
    (s2, last) ← end_sentence debug s1
    some (s2, out ++ last)

  -- A stream of sentences, up to `finish`.
  unfoldable pub sentences :
      Bool → SentenceCrossfader → List (List (List ℕ)) → Option (SentenceCrossfader × List ℕ)
  sentences debug s [] = some (finish s)
  sentences debug s (c ∷ cs) = do
    (s1, out) ← sentence debug s c
    (s2, more) ← sentences debug s1 cs
    some (s2, out ++ more)
