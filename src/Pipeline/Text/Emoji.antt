-- ===== src/Pipeline/Text/Emoji.antt =====
-- The emojis of the Unicode standard (version 16, outside ASCII): the characters with the property
-- Emoji or Emoji_Component, as intervals. This description is independent of crates/voice_server/src/
-- pipeline/text.rs, whose `is_emoji_char` it is compared with.
use voice_ai.Base.{
  ℕ, ◌≡◌, refl, Bool, true, false, ◌&&◌, ◌||◌, ◌==◌, List, [], ◌∷◌, leb, between_codes, arith,
  Bool-cases, inl, inr, all, &&_split, drop,
}
use voice_ai.Pipeline.Text.{is_emoji_char}

abbrev pub Interval : Type 0
Interval = ℕ × ℕ

abbrev pub is_in : List Interval → ℕ → Bool
is_in [] c = false
is_in ((lo, hi) ∷ more) c = between_codes lo hi c || is_in more c

-- The emojis of the blocks Arrows, Enclosed Alphanumerics, Geometric Shapes, Supplemental Arrows-B, and
-- Miscellaneous Symbols and Arrows, the star U+2B50 among them.
abbrev pub shapes : List Interval
shapes =
    (0x2194, 0x2199)
    ∷ (0x21A9, 0x21AA)
    ∷ (0x24C2, 0x24C2)
    ∷ (0x25AA, 0x25AB)
    ∷ (0x25B6, 0x25B6)
    ∷ (0x25C0, 0x25C0)
    ∷ (0x25FB, 0x25FE)
    ∷ (0x2934, 0x2935)
    ∷ (0x2B05, 0x2B07)
    ∷ (0x2B1B, 0x2B1C)
    ∷ (0x2B50, 0x2B50)
    ∷ (0x2B55, 0x2B55)
    ∷ []

-- All others.
abbrev pub pictures : List Interval
pictures =
    (0xA9, 0xA9)
    ∷ (0xAE, 0xAE)
    ∷ (0x200D, 0x200D)
    ∷ (0x203C, 0x203C)
    ∷ (0x2049, 0x2049)
    ∷ (0x20E3, 0x20E3)
    ∷ (0x2122, 0x2122)
    ∷ (0x2139, 0x2139)
    ∷ (0x231A, 0x231B)
    ∷ (0x2328, 0x2328)
    ∷ (0x23CF, 0x23CF)
    ∷ (0x23E9, 0x23F3)
    ∷ (0x23F8, 0x23FA)
    ∷ (0x2600, 0x2604)
    ∷ (0x260E, 0x260E)
    ∷ (0x2611, 0x2611)
    ∷ (0x2614, 0x2615)
    ∷ (0x2618, 0x2618)
    ∷ (0x261D, 0x261D)
    ∷ (0x2620, 0x2620)
    ∷ (0x2622, 0x2623)
    ∷ (0x2626, 0x2626)
    ∷ (0x262A, 0x262A)
    ∷ (0x262E, 0x262F)
    ∷ (0x2638, 0x263A)
    ∷ (0x2640, 0x2640)
    ∷ (0x2642, 0x2642)
    ∷ (0x2648, 0x2653)
    ∷ (0x265F, 0x2660)
    ∷ (0x2663, 0x2663)
    ∷ (0x2665, 0x2666)
    ∷ (0x2668, 0x2668)
    ∷ (0x267B, 0x267B)
    ∷ (0x267E, 0x267F)
    ∷ (0x2692, 0x2697)
    ∷ (0x2699, 0x2699)
    ∷ (0x269B, 0x269C)
    ∷ (0x26A0, 0x26A1)
    ∷ (0x26A7, 0x26A7)
    ∷ (0x26AA, 0x26AB)
    ∷ (0x26B0, 0x26B1)
    ∷ (0x26BD, 0x26BE)
    ∷ (0x26C4, 0x26C5)
    ∷ (0x26C8, 0x26C8)
    ∷ (0x26CE, 0x26CF)
    ∷ (0x26D1, 0x26D1)
    ∷ (0x26D3, 0x26D4)
    ∷ (0x26E9, 0x26EA)
    ∷ (0x26F0, 0x26F5)
    ∷ (0x26F7, 0x26FA)
    ∷ (0x26FD, 0x26FD)
    ∷ (0x2702, 0x2702)
    ∷ (0x2705, 0x2705)
    ∷ (0x2708, 0x270D)
    ∷ (0x270F, 0x270F)
    ∷ (0x2712, 0x2712)
    ∷ (0x2714, 0x2714)
    ∷ (0x2716, 0x2716)
    ∷ (0x271D, 0x271D)
    ∷ (0x2721, 0x2721)
    ∷ (0x2728, 0x2728)
    ∷ (0x2733, 0x2734)
    ∷ (0x2744, 0x2744)
    ∷ (0x2747, 0x2747)
    ∷ (0x274C, 0x274C)
    ∷ (0x274E, 0x274E)
    ∷ (0x2753, 0x2755)
    ∷ (0x2757, 0x2757)
    ∷ (0x2763, 0x2764)
    ∷ (0x2795, 0x2797)
    ∷ (0x27A1, 0x27A1)
    ∷ (0x27B0, 0x27B0)
    ∷ (0x27BF, 0x27BF)
    ∷ (0x3030, 0x3030)
    ∷ (0x303D, 0x303D)
    ∷ (0x3297, 0x3297)
    ∷ (0x3299, 0x3299)
    ∷ (0xFE0F, 0xFE0F)
    ∷ (0x1F004, 0x1F004)
    ∷ (0x1F0CF, 0x1F0CF)
    ∷ (0x1F170, 0x1F171)
    ∷ (0x1F17E, 0x1F17F)
    ∷ (0x1F18E, 0x1F18E)
    ∷ (0x1F191, 0x1F19A)
    ∷ (0x1F1E6, 0x1F1FF)
    ∷ (0x1F201, 0x1F202)
    ∷ (0x1F21A, 0x1F21A)
    ∷ (0x1F22F, 0x1F22F)
    ∷ (0x1F232, 0x1F23A)
    ∷ (0x1F250, 0x1F251)
    ∷ (0x1F300, 0x1F321)
    ∷ (0x1F324, 0x1F393)
    ∷ (0x1F396, 0x1F397)
    ∷ (0x1F399, 0x1F39B)
    ∷ (0x1F39E, 0x1F3F0)
    ∷ (0x1F3F3, 0x1F3F5)
    ∷ (0x1F3F7, 0x1F4FD)
    ∷ (0x1F4FF, 0x1F53D)
    ∷ (0x1F549, 0x1F54E)
    ∷ (0x1F550, 0x1F567)
    ∷ (0x1F56F, 0x1F570)
    ∷ (0x1F573, 0x1F57A)
    ∷ (0x1F587, 0x1F587)
    ∷ (0x1F58A, 0x1F58D)
    ∷ (0x1F590, 0x1F590)
    ∷ (0x1F595, 0x1F596)
    ∷ (0x1F5A4, 0x1F5A5)
    ∷ (0x1F5A8, 0x1F5A8)
    ∷ (0x1F5B1, 0x1F5B2)
    ∷ (0x1F5BC, 0x1F5BC)
    ∷ (0x1F5C2, 0x1F5C4)
    ∷ (0x1F5D1, 0x1F5D3)
    ∷ (0x1F5DC, 0x1F5DE)
    ∷ (0x1F5E1, 0x1F5E1)
    ∷ (0x1F5E3, 0x1F5E3)
    ∷ (0x1F5E8, 0x1F5E8)
    ∷ (0x1F5EF, 0x1F5EF)
    ∷ (0x1F5F3, 0x1F5F3)
    ∷ (0x1F5FA, 0x1F64F)
    ∷ (0x1F680, 0x1F6C5)
    ∷ (0x1F6CB, 0x1F6D2)
    ∷ (0x1F6D5, 0x1F6D7)
    ∷ (0x1F6DC, 0x1F6E5)
    ∷ (0x1F6E9, 0x1F6E9)
    ∷ (0x1F6EB, 0x1F6EC)
    ∷ (0x1F6F0, 0x1F6F0)
    ∷ (0x1F6F3, 0x1F6FC)
    ∷ (0x1F7E0, 0x1F7EB)
    ∷ (0x1F7F0, 0x1F7F0)
    ∷ (0x1F90C, 0x1F93A)
    ∷ (0x1F93C, 0x1F945)
    ∷ (0x1F947, 0x1F9FF)
    ∷ (0x1FA70, 0x1FA7C)
    ∷ (0x1FA80, 0x1FA89)
    ∷ (0x1FA8F, 0x1FAC6)
    ∷ (0x1FACE, 0x1FADC)
    ∷ (0x1FADF, 0x1FAE9)
    ∷ (0x1FAF0, 0x1FAF8)
    ∷ []

-- The ranges of `is_emoji_char`.
abbrev removed : List Interval
removed =
    (0xA9, 0xA9)
    ∷ (0xAE, 0xAE)
    ∷ (0x203C, 0x203C)
    ∷ (0x2049, 0x2049)
    ∷ (0x2122, 0x2122)
    ∷ (0x2139, 0x2139)
    ∷ (0x3030, 0x3030)
    ∷ (0x303D, 0x303D)
    ∷ (0x3297, 0x3297)
    ∷ (0x3299, 0x3299)
    ∷ (0x200D, 0x200D)
    ∷ (0x20E3, 0x20E3)
    ∷ (0xFE0E, 0xFE0F)
    ∷ (0x1F000, 0x1FAFF)
    ∷ (0x2300, 0x23FF)
    ∷ (0x2600, 0x27BF)
    ∷ []

abbrev covers : List Interval → Interval → Bool
covers [] i = false
covers ((lo, hi) ∷ more) (a, b) = (leb lo a && leb b hi) || covers more (a, b)

is_in-covers :
    (ranges : List Interval) (a b c : ℕ)
    → covers ranges (a, b) ≡ true
    → between_codes a b c ≡ true
    → is_in ranges c ≡ true
is_in-covers [] a b c h k = absurd (cc)
is_in-covers ((lo, hi) ∷ more) a b c h k = elim (Bool-cases (leb lo a && leb b hi)) [
  | inl here ↦ ground arith
  | inr other ↦ let later = is_in-covers more a b c (rw other at h) k in rw later (ground arith)
]

pub is_in-all :
    (ranges inside : List Interval) (c : ℕ)
    → all (covers ranges) inside ≡ true
    → is_in inside c ≡ true
    → is_in ranges c ≡ true
is_in-all ranges [] c h k = absurd (cc)
is_in-all ranges ((a, b) ∷ inside) c h k = elim (Bool-cases (between_codes a b c)) [
  | inl here ↦ is_in-covers ranges a b c (&&_split h).0 here
  | inr other ↦ is_in-all ranges inside c (&&_split h).1 (rw other at k)
]

abbrev Follows : Bool → Bool → Type 0
Follows a b = a ≡ true → b ≡ true

either : (a b a' b' : Bool) → Follows a a' → Follows b b' → Follows (a || b) (a' || b')
either true b a' b' f g h = rw (f refl) refl
either false b true b' f g h = refl
either false b false b' f g h = g h

infixl 4 ◌or◌
◌or◌ : {a b a' b' : Bool} → Follows a a' → Follows b b' → Follows (a || b) (a' || b')
◌or◌ {a} {b} {a'} {b'} f g = either a b a' b' f g

same : (n c : ℕ) → Follows (between_codes n n c) (c == n)
same n c h = ground arith

id : (a : Bool) → Follows a a
id a h = h

last : (a : Bool) → Follows (a || false) a
last true h = refl
last false h = h

-- The same test, bracketed to the left.
abbrev is_in_left : List Interval → Bool → ℕ → Bool
is_in_left [] before c = before
is_in_left ((lo, hi) ∷ more) before c = is_in_left more (before || between_codes lo hi c) c

regroup : (a b d : Bool) → Follows (a || (b || d)) ((a || b) || d)
regroup true b d h = refl
regroup false b d h = h

is_in-left :
    (ranges : List Interval) (before : Bool) (c : ℕ)
    → Follows (before || is_in ranges c) (is_in_left ranges before c)
is_in-left [] before c h = last before h
is_in-left ((lo, hi) ∷ more) before c h =
    let b = between_codes lo hi c in
    is_in-left more (before || b) c (regroup before b (is_in more c) h)

removed-is_emoji_char : (c : ℕ) → is_in removed c ≡ true → is_emoji_char c ≡ true
unfolding is_emoji_char
removed-is_emoji_char c h =
    (same 0xA9 c
        or same 0xAE c
        or same 0x203C c
        or same 0x2049 c
        or same 0x2122 c
        or same 0x2139 c
        or same 0x3030 c
        or same 0x303D c
        or same 0x3297 c
        or same 0x3299 c
        or same 0x200D c
        or same 0x20E3 c
        or id (between_codes 0xFE0E 0xFE0F c)
        or id (between_codes 0x1F000 0x1FAFF c)
        or id (between_codes 0x2300 0x23FF c)
        or id (between_codes 0x2600 0x27BF c))
      (is_in-left (drop 1 removed) (between_codes 0xA9 0xA9 c) c h)

-- `is_emoji_char` finds the pictures.
pub pictures-is_emoji_char : (c : ℕ) → is_in pictures c ≡ true → is_emoji_char c ≡ true
pictures-is_emoji_char c h = removed-is_emoji_char c (is_in-all removed pictures c refl h)
