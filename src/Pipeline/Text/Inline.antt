-- ===== src/Pipeline/Text/Inline.antt =====
-- Inline Markdown: the loop ends, keeps the order of the text, and leaves plain text alone.
use voice_ai.Base.{
  ℕ, zero, suc, ◌≤◌, ◌<◌, ◌≡◌, refl, sym, ap, ◌∙◌, subst, inl, inr, Bool, true, false, not, ◌&&◌,
  ◌||◌, Option, none, some, [], ◌∷◌, ◌++◌, append_assoc, length, length-append, all, Str, ◌==◌,
  ==_iff, if◌then◌else◌, arith, Bool-cases, gaps-Sublist, &&_split, take, drop, ◌>>=◌, unwrap_or,
  or_else,
}
use mathlib.Core.List.{Sublist, nil-sublist}
use voice_ai.Pipeline.Text.{
  head_is, find_char, link, link_here, tag_here, is_marker, char_step, inline_step, strip_loop,
  strip_inline_markdown, backslash, is_ascii_punctuation,
}

-- A text that is a gap, a part that is put out, a gap, and the rest.
record Splits (s out rest : Str) : Type 0 where
  before : Str
  between : Str
  whole : s ≡ before ++ (out ++ (between ++ rest))
  shorter : length rest < length s

abbrev IsCut : ℕ → Str → Option (Str × Str) → Type 0
IsCut t s none = Unit
IsCut t s (some (a, b)) = s ≡ a ++ (t ∷ b)

find_char-IsCut : (t : ℕ) (s : Str) → IsCut t s (find_char t s)
unfolding find_char
find_char-IsCut t [] = tt
find_char-IsCut t (c ∷ s) = elim (Bool-cases (c == t)) [
  | inl here ↦ rw here (ap (λ d. d ∷ s) ((==_iff c t).0 here))
  | inr other ↦ rw other (later (find_char t s) (find_char-IsCut t s))
]
  where
    later :
        (o : Option (Str × Str))
        → IsCut t s o
        → IsCut t
            (c ∷ s)
            (elim o [ none ↦ none | some (before, behind) ↦ some (c ∷ before, behind) ])
    later none h = tt
    later (some (a, b)) h = ap (◌∷◌ c) h

-- What stands behind an opening bracket splits into the label, the address and the rest.
abbrev IsLink : Str → Option (Str × Str) → Type 0
IsLink s none = Unit
IsLink s (some (label, rest)) = Splits s label rest

link-IsLink : (s : Str) → IsLink s (link s)
unfolding link
link-IsLink s = label_first (find_char 0x5D s) (find_char-IsCut 0x5D s)
  where
    address :
        (label behind : Str) (o : Option (Str × Str))
        → s ≡ label ++ (0x5D ∷ 0x28 ∷ behind)
        → IsCut 0x29 behind o
        → IsLink s (o >>= λ (inside, rest). some (label, rest))
    address label behind none h k = tt
    address label behind (some (inside, rest)) h k = record {
      before = [];
      between = 0x5D ∷ 0x28 ∷ (inside ++ (0x29 ∷ []));
      whole =
          h
          ∙ ap (λ xs. label ++ (0x5D ∷ 0x28 ∷ xs)) (k ∙ sym (append_assoc inside (0x29 ∷ []) rest));
      shorter = omega (
        arith,
        ap length h,
        length-append label (0x5D ∷ 0x28 ∷ behind),
        ap length k,
        length-append inside (0x29 ∷ rest),
      );
    }

    label_first :
        (o : Option (Str × Str))
        → IsCut 0x5D s o
        → IsLink s (
            o >>= λ (label, behind).
            if head_is (λ c. c == 0x28) behind
            then (find_char 0x29 (drop 1 behind) >>= λ (inside, rest). some (label, rest))
            else none)
    label_first none h = tt
    label_first (some (label, [])) h = tt
    label_first (some (label, c ∷ behind)) h = elim (Bool-cases (c == 0x28)) [
      | inl opens ↦ rw opens (
          address label behind (find_char 0x29 behind)
            (h ∙ ap (λ d. label ++ (0x5D ∷ d ∷ behind)) ((==_iff c 0x28).0 opens))
            (find_char-IsCut 0x29 behind))
      | inr other ↦ rw other tt
    ]

IsLink-push : (c : ℕ) (s : Str) (o : Option (Str × Str)) → IsLink s o → IsLink (c ∷ s) o
IsLink-push c s none h = tt
IsLink-push c s (some (out, rest)) h = record {
  before = c ∷ h.before;
  between = h.between;
  whole = ap (◌∷◌ c) h.whole;
  shorter = omega (arith, h.shorter);
}

link_here-IsLink : (c : ℕ) (s : Str) → IsLink (c ∷ s) (link_here (c ∷ s))
unfolding link_here
link_here-IsLink c s = elim (Bool-cases (c == 0x5B)) [
  | inl opens ↦ rw opens (IsLink-push c s (link s) (link-IsLink s))
  | inr other ↦ rw other (image s)
]
  where
    image :
        (s : Str)
        → IsLink (c ∷ s) (if c == 0x21 && head_is (λ d. d == 0x5B) s then link (drop 1 s) else none)
    image [] = elim (Bool-cases (c == 0x21)) [ inl bang ↦ rw bang tt | inr other ↦ rw other tt ]
    image (d ∷ s) = elim (Bool-cases (c == 0x21 && d == 0x5B)) [
      | inl both ↦
          rw both (IsLink-push c (d ∷ s) (link s) (IsLink-push d s (link s) (link-IsLink s)))
      | inr other ↦ rw other tt
    ]

tag_here-IsLink : (c : ℕ) (s : Str) → IsLink (c ∷ s) (tag_here (c ∷ s))
unfolding tag_here
tag_here-IsLink c s = elim (Bool-cases (c == 0x3C)) [
  | inl opens ↦ rw opens (tag (find_char 0x3E s) (find_char-IsCut 0x3E s))
  | inr other ↦ rw other tt
]
  where
    tag :
        (o : Option (Str × Str))
        → IsCut 0x3E s o
        → IsLink (c ∷ s) (elim o [ none ↦ none | some (inside, rest) ↦ some ([], rest) ])
    tag none h = tt
    tag (some (inside, rest)) h = record {
      before = c ∷ (inside ++ (0x3E ∷ []));
      between = [];
      whole = ap (◌∷◌ c) (h ∙ sym (append_assoc inside (0x3E ∷ []) rest));
      shorter = omega (arith, ap length h, length-append inside (0x3E ∷ rest));
    }

abbrev SplitsTo : Str → Str × Str → Type 0
SplitsTo s (out, rest) = Splits s out rest

char_step-Splits : (c : ℕ) (s : Str) → SplitsTo (c ∷ s) (char_step c s)
unfolding char_step
char_step-Splits c s = at_char s
  where
    plain : (s : Str) → Splits (c ∷ s) (c ∷ []) s
    plain s = record { before = []; between = []; whole = refl; shorter = omega arith }

    dropped : (s : Str) → Splits (c ∷ s) [] s
    dropped s = record { before = c ∷ []; between = []; whole = refl; shorter = omega arith }

    escaped : (d : ℕ) (s : Str) → Splits (c ∷ d ∷ s) (d ∷ []) s
    escaped d s = record { before = c ∷ []; between = []; whole = refl; shorter = omega arith }

    unescaped : (s : Str) → SplitsTo (c ∷ s) (if is_marker c then ([], s) else (c ∷ [], s))
    unescaped s = elim (Bool-cases (is_marker c)) [
      | inl marker ↦ rw marker (dropped s)
      | inr other ↦ rw other (plain s)
    ]

    at_char :
        (s : Str)
        → SplitsTo (c ∷ s) (
            if c == backslash && head_is is_ascii_punctuation s
            then (take 1 s, drop 1 s)
            else (if is_marker c then ([], s) else (c ∷ [], s)))
    at_char [] = elim (Bool-cases (c == backslash)) [
      | inl escape ↦ rw escape (unescaped [])
      | inr other ↦ rw other (unescaped [])
    ]
    at_char (d ∷ s) = elim (Bool-cases (c == backslash && is_ascii_punctuation d)) [
      | inl escape ↦ rw escape (escaped d s)
      | inr other ↦ rw other (unescaped (d ∷ s))
    ]

-- Each round puts out a part of what it consumes, and consumes something.
inline_step-Splits : (c : ℕ) (s : Str) → SplitsTo (c ∷ s) (inline_step c s)
unfolding inline_step
inline_step-Splits c s =
    first_found (link_here (c ∷ s)) (tag_here (c ∷ s)) (link_here-IsLink c s) (tag_here-IsLink c s)
  where
    first_found :
        (o p : Option (Str × Str))
        → IsLink (c ∷ s) o
        → IsLink (c ∷ s) p
        → SplitsTo (c ∷ s) (unwrap_or (or_else o p) (char_step c s))
    first_found (some found) p h k = h
    first_found none (some found) h k = k
    first_found none none h k = char_step-Splits c s

-- Fuel that is as much as the text is long is enough.
strip_loop_enough :
    (n m : ℕ) (s : Str) → length s ≤ n → length s ≤ m → strip_loop n s ≡ strip_loop m s
unfolding strip_loop
strip_loop_enough zero zero s h k = refl
strip_loop_enough zero (suc m) [] h k = refl
strip_loop_enough zero (suc m) (c ∷ s) h k = absurd (omega (arith, h))
strip_loop_enough (suc n) zero [] h k = refl
strip_loop_enough (suc n) zero (c ∷ s) h k = absurd (omega (arith, k))
strip_loop_enough (suc n) (suc m) [] h k = refl
strip_loop_enough (suc n) (suc m) (c ∷ s) h k =
    let step = inline_step-Splits c s in
    ap (◌++◌ (inline_step c s).0) (
      strip_loop_enough n m (inline_step c s).1 (omega (arith, step.shorter, h))
        (omega (arith, step.shorter, k)))

-- The loop ends: each round is left with less text than it began with, and on any fuel that is at least
-- the length of the text, the loop puts out what its first round puts out, and then the whole result of
-- the same function where that round ended.
pub strip_inline_markdown-unrolls :
    (n c : ℕ) (s : Str)
    → length (c ∷ s) ≤ n
    → (length (inline_step c s).1 < length (c ∷ s))
      × (strip_loop n (c ∷ s) ≡ (inline_step c s).0 ++ strip_inline_markdown (inline_step c s).1)
unfolding strip_inline_markdown strip_loop
strip_inline_markdown-unrolls zero c s h = absurd (omega (arith, h))
strip_inline_markdown-unrolls (suc n) c s h =
    let step = inline_step-Splits c s in
    (
      step.shorter,
      ap (◌++◌ (inline_step c s).0) (
          strip_loop_enough n (length (inline_step c s).1) (inline_step c s).1
            (omega (arith, step.shorter, h)) (omega arith)),
    )

strip_loop-Sublist : (n : ℕ) (s : Str) → Sublist (strip_loop n s) s
unfolding strip_loop
strip_loop-Sublist zero s = nil-sublist s
strip_loop-Sublist (suc n) [] = nil-sublist []
strip_loop-Sublist (suc n) (c ∷ s) =
    let step = inline_step-Splits c s in
    subst (λ t. Sublist (strip_loop (suc n) (c ∷ s)) t) (sym step.whole)
      (gaps-Sublist step.before (inline_step c s).0 step.between
        (strip_loop-Sublist n (inline_step c s).1))

-- What is left of a text without inline Markdown is a part of the text, in its order.
pub strip_inline_markdown-Sublist : (s : Str) → Sublist (strip_inline_markdown s) s
unfolding strip_inline_markdown
strip_inline_markdown-Sublist s = strip_loop-Sublist (length s) s

-- The characters that the loop looks for.
abbrev pub is_syntax : ℕ → Bool
is_syntax c = is_marker c || c == 0x5B || c == 0x21 || c == 0x3C || c == backslash

inline_step-plain : (c : ℕ) (s : Str) → is_syntax c ≡ false → inline_step c s ≡ (c ∷ [], s)
unfolding inline_step link_here tag_here char_step
inline_step-plain c s h =
    let bracket : (c == 0x5B) ≡ false = ground (arith, h) in
    let bang : (c == 0x21) ≡ false = ground (arith, h) in
    let angle : (c == 0x3C) ≡ false = ground (arith, h) in
    let escape : (c == backslash) ≡ false = ground (arith, h) in
    let marker : is_marker c ≡ false = ground (arith, h) in
    rw (bracket, bang, angle, escape, marker) refl

-- A text without any of these characters is left as it is.
pub strip_inline_markdown-plain :
    (s : Str) → all (λ c. not (is_syntax c)) s ≡ true → strip_inline_markdown s ≡ s
unfolding strip_inline_markdown
strip_inline_markdown-plain [] h = refl
strip_inline_markdown-plain (c ∷ s) h =
    let (here, there) = &&_split {a = not (is_syntax c)} {b = all (λ d. not (is_syntax d)) s} h in
    rw (inline_step-plain c s (ground (arith, here)))
      (ap (◌∷◌ c) (strip_inline_markdown-plain s there))
