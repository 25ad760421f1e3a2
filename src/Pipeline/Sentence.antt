-- ===== src/Pipeline/Sentence.antt =====
-- crates/voice_server/src/pipeline/sentence.rs: where a sentence ends, and how the callers cut the
-- text there. A place in a text is a number of UTF-8 bytes, as in the source.
use native.Mathlib.Nat.{suc-add}
use voice_ai.Base.{
  ℕ, zero, suc, ◌+◌, ◌-◌, ◌≤◌, ◌<◌, ◌≡◌, refl, sym, ap, ◌∙◌, inl, inr, Bool, true, false, not, ◌||◌,
  Option, none, some, [], ◌∷◌, ◌++◌, all, Str, ltb, ◌==◌, if◌then◌else◌, ◌>>=◌, arith, Bool-cases,
}

unfoldable pub is_sentence_end : ℕ → Bool
is_sentence_end c = c == 0x3002 || c == 0xFF01 || c == 0xFF1F || c == 0x2E || c == 0x21 || c == 0x3F

abbrev pub len_utf8 : ℕ → ℕ
len_utf8 c = if ltb c 0x80 then 1 else (if ltb c 0x800 then 2 else (if ltb c 0x10000 then 3 else 4))

-- `str::len`
abbrev pub str_len : Str → ℕ
str_len [] = 0
str_len (c ∷ s) = len_utf8 c + str_len s

-- The loop over `char_indices`, from the byte `i` on.
unfoldable pub end_from : ℕ → Str → Option ℕ
unfolding is_sentence_end
end_from i [] = none
end_from i (c ∷ s) =
    let later = end_from (i + len_utf8 c) s in
    if is_sentence_end c then some (i + len_utf8 c) else later

unfoldable pub next_sentence_end : Str → Option ℕ
unfolding end_from
next_sentence_end buf = end_from 0 buf

-- `(&s[..n], &s[n..])`; `none` is the panic where the byte is inside a character or past the end.
unfoldable pub split_at : ℕ → Str → Option (Str × Str)
split_at zero s = some ([], s)
split_at (suc n) [] = none
split_at (suc n) (c ∷ s) =
    let rest = split_at (suc n - len_utf8 c) s in
    if ltb (suc n) (len_utf8 c) then none else (do (a, b) ← rest; some (c ∷ a, b))

len_utf8_pos : (c : ℕ) → 0 < len_utf8 c
len_utf8_pos c = ground arith

-- A character that fits is on the left.
split_at-cons :
    (n c : ℕ) (s a b : Str)
    → split_at n s ≡ some (a, b)
    → split_at (len_utf8 c + n) (c ∷ s) ≡ some (c ∷ a, b)
unfolding split_at
split_at-cons n c s a b h = go (len_utf8 c) (len_utf8_pos c) refl
  where
    go : (k : ℕ) → 0 < k → k ≡ len_utf8 c → split_at (k + n) (c ∷ s) ≡ some (c ∷ a, b)
    go zero pos e = absurd (omega (arith, pos))
    go (suc k) pos e =
        let fits : ltb (suc (k + n)) (len_utf8 c) ≡ false = ground (arith, sym e) in
        let left : suc (k + n) - len_utf8 c ≡ n = omega (arith, e) in
        rw (suc-add k n, fits, left, h) refl

-- What the search says of a text: no end of a sentence is in it, or the first one is the last
-- character before the given byte, at which the text can be cut.
abbrev pub IsFirstEnd : Str → ℕ → Option ℕ → Type 0
IsFirstEnd s i none = all (λ c. not (is_sentence_end c)) s ≡ true
IsFirstEnd s i (some n) =
    (a : Str) × (c : ℕ) × (b : Str) × (s ≡ a ++ (c ∷ b))
    × (all (λ d. not (is_sentence_end d)) a ≡ true)
    × (is_sentence_end c ≡ true)
    × (split_at (n - i) s ≡ some (a ++ (c ∷ []), b))
    × (i ≤ n)

IsFirstEnd-skip :
    (i c : ℕ) (s : Str) (o : Option ℕ)
    → is_sentence_end c ≡ false
    → IsFirstEnd s (i + len_utf8 c) o
    → IsFirstEnd (c ∷ s) i o
IsFirstEnd-skip i c s none no_end h = rw no_end h
IsFirstEnd-skip i c s (some n) no_end (a, d, b, whole, none_before, ends, cut, le) =
    let place : n - i ≡ len_utf8 c + (n - (i + len_utf8 c)) = omega (arith, le) in
    (
      c ∷ a,
      d,
      b,
      ap (◌∷◌ c) whole,
      rw no_end none_before,
      ends,
      ap (λ k. split_at k (c ∷ s)) place
          ∙ split_at-cons (n - (i + len_utf8 c)) c s (a ++ (d ∷ [])) b cut,
      omega (arith, le),
    )

end_from-IsFirstEnd : (i : ℕ) (s : Str) → IsFirstEnd s i (end_from i s)
unfolding end_from split_at
end_from-IsFirstEnd i [] = refl
end_from-IsFirstEnd i (c ∷ s) = elim (Bool-cases (is_sentence_end c)) [
  | inl ends ↦ rw ends (
      let place : i + len_utf8 c - i ≡ len_utf8 c + 0 = omega arith in
      (
        [],
        c,
        s,
        refl,
        refl,
        ends,
        ap (λ k. split_at k (c ∷ s)) place ∙ split_at-cons 0 c s [] s refl,
        omega arith,
      ))
  | inr other ↦ rw other (
      IsFirstEnd-skip i c s (end_from (i + len_utf8 c) s) other
        (end_from-IsFirstEnd (i + len_utf8 c) s))
]

-- The search finds the first end of a sentence, and its result is a place between two characters, so
-- that cutting the text there does not panic.
pub next_sentence_end-IsFirstEnd : (s : Str) → IsFirstEnd s 0 (next_sentence_end s)
unfolding next_sentence_end
next_sentence_end-IsFirstEnd s = end_from-IsFirstEnd 0 s
