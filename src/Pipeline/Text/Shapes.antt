-- ===== src/Pipeline/Text/Shapes.antt =====
-- crates/voice_server/src/pipeline/text.rs: the emojis that are spoken.
use voice_ai.Base.{
  ℕ, ◌≡◌, refl, ap, ◌∙◌, true, false, not, ◌&&◌, ◌||◌, List, [], ◌∷◌, ◌==◌, all, Str, between_codes,
  &&_split, arith, trim, trim_start, trim_end, is_whitespace,
}
use voice_ai.Pipeline.Text.{
  newline, carriage_return, backslash, is_emoji_char, strip_emoji, break_tokens, replace_crlf,
  replace_cr, normalize_line_break_tokens, strip_block_marker, strip_inline_markdown, is_code_fence,
  lines, speak_line, speak_lines, join, to_tts_text,
}
use voice_ai.Pipeline.Text.Emoji.{Interval, is_in, is_in-all, shapes}
use voice_ai.Pipeline.Text.Inline.{is_syntax, strip_inline_markdown-plain}

abbrev pub AreShapes : Str → Type 0
AreShapes s = all (is_in shapes) s ≡ true

-- The gaps of `is_emoji_char` in which they stand.
abbrev gaps : List Interval
gaps = (0x2194, 0x22FF) ∷ (0x2400, 0x25FF) ∷ (0x27C0, 0x2B55) ∷ []

in_gaps : (c : ℕ) → is_in shapes c ≡ true → is_in gaps c ≡ true
in_gaps c h = is_in-all gaps shapes c refl h

in_bounds : (c : ℕ) → is_in shapes c ≡ true → between_codes 0x2194 0x2B55 c ≡ true
in_bounds c h =
    let inside : is_in ((0x2194, 0x2B55) ∷ []) c ≡ true =
      is_in-all ((0x2194, 0x2B55) ∷ []) shapes c refl h in
    ground arith

gaps-is_emoji_char : (c : ℕ) → is_in gaps c ≡ true → is_emoji_char c ≡ false
unfolding is_emoji_char
gaps-is_emoji_char c h = ground arith

not_white : (c : ℕ) → between_codes 0x2194 0x2B55 c ≡ true → is_whitespace c ≡ false
unfolding is_whitespace
not_white c h = ground arith

-- What the other tests of the cleaning look for is elsewhere.
abbrev Between : ℕ → Type 0
Between c = between_codes 0x2194 0x2B55 c ≡ true

split_shapes : (c : ℕ) (s : Str) → AreShapes (c ∷ s) → Between c × AreShapes s
split_shapes c s h =
    let (here, there) = &&_split {a = is_in shapes c} {b = all (is_in shapes) s} h in
    (in_bounds c here, there)

shapes-plain : (s : Str) → AreShapes s → all (λ c. not (is_syntax c)) s ≡ true
shapes-plain [] h = refl
shapes-plain (c ∷ s) h =
    let (here, there) = split_shapes c s h in
    let plain : is_syntax c ≡ false = ground arith in rw plain (shapes-plain s there)

break_tokens-shapes : (s : Str) → AreShapes s → break_tokens s ≡ s
unfolding break_tokens
break_tokens-shapes [] h = refl
break_tokens-shapes (c ∷ []) h = refl
break_tokens-shapes (c ∷ d ∷ s) h =
    let (here, there) = split_shapes c (d ∷ s) h in
    let other : ((c == backslash || c == 0x2F) && d == 0x6E) ≡ false = ground arith in
    rw other (ap (◌∷◌ c) (break_tokens-shapes (d ∷ s) there))

replace_crlf-shapes : (s : Str) → AreShapes s → replace_crlf s ≡ s
unfolding replace_crlf
replace_crlf-shapes [] h = refl
replace_crlf-shapes (c ∷ []) h = refl
replace_crlf-shapes (c ∷ d ∷ s) h =
    let (here, there) = split_shapes c (d ∷ s) h in
    let other : (c == carriage_return && d == newline) ≡ false = ground arith in
    rw other (ap (◌∷◌ c) (replace_crlf-shapes (d ∷ s) there))

replace_cr-shapes : (s : Str) → AreShapes s → replace_cr s ≡ s
unfolding replace_cr
replace_cr-shapes [] h = refl
replace_cr-shapes (c ∷ s) h =
    let (here, there) = split_shapes c s h in
    let other : (c == carriage_return) ≡ false = ground arith in
    rw other (ap (◌∷◌ c) (replace_cr-shapes s there))

lines-shapes : (c : ℕ) (s : Str) → AreShapes (c ∷ s) → lines (c ∷ s) ≡ (c ∷ s) ∷ []
unfolding lines
lines-shapes c [] h =
    let (here, there) = split_shapes c [] h in
    let other : (c == newline) ≡ false = ground arith in rw other refl
lines-shapes c (d ∷ s) h =
    let (here, there) = split_shapes c (d ∷ s) h in
    let other : (c == newline) ≡ false = ground arith in rw (other, lines-shapes d s there) refl

trim_end-shapes : (s : Str) → AreShapes s → trim_end s ≡ s
unfolding trim_end
trim_end-shapes [] h = refl
trim_end-shapes (c ∷ s) h =
    let (here, there) = split_shapes c s h in
    rw (not_white c here) (ap (◌∷◌ c) (trim_end-shapes s there))

trim-shapes : (s : Str) → AreShapes s → trim s ≡ s
unfolding trim trim_start
trim-shapes [] h = refl
trim-shapes (c ∷ s) h = rw (not_white c (split_shapes c s h).0) (trim_end-shapes (c ∷ s) h)

strip_emoji-shapes : (s : Str) → AreShapes s → strip_emoji s ≡ s
unfolding strip_emoji
strip_emoji-shapes [] h = refl
strip_emoji-shapes (c ∷ s) h =
    let (here, there) = &&_split {a = is_in shapes c} {b = all (is_in shapes) s} h in
    rw (gaps-is_emoji_char c (in_gaps c here)) (ap (◌∷◌ c) (strip_emoji-shapes s there))

strip_block_marker-shapes :
    (c : ℕ) (s : Str) → AreShapes (c ∷ s) → strip_block_marker (c ∷ s) ≡ c ∷ s
unfolding strip_block_marker
strip_block_marker-shapes c s h =
    let here = (split_shapes c s h).0 in
    let no_heading : (c == 0x23) ≡ false = ground arith in
    let no_digit : between_codes 0x30 0x39 c ≡ false = ground arith in
    let no_bullet : (c == 0x2D || c == 0x2A || c == 0x2B) ≡ false = ground arith in
    rw (no_heading, no_bullet, no_digit) refl

is_code_fence-shapes : (c : ℕ) (s : Str) → AreShapes (c ∷ s) → is_code_fence (c ∷ s) ≡ false
unfolding is_code_fence
is_code_fence-shapes c s h =
    let here = (split_shapes c s h).0 in
    let no_tick : (0x60 == c) ≡ false = ground arith in
    let no_tilde : (0x7E == c) ≡ false = ground arith in rw (no_tick, no_tilde) refl

normalize-shapes : (s : Str) → AreShapes s → normalize_line_break_tokens s ≡ s
unfolding normalize_line_break_tokens
normalize-shapes s h =
    ap (λ t. replace_cr (replace_crlf t)) (break_tokens-shapes s h)
    ∙ ap replace_cr (replace_crlf-shapes s h)
    ∙ replace_cr-shapes s h

speak_line-shapes : (c : ℕ) (s : Str) → AreShapes (c ∷ s) → speak_line (c ∷ s) ≡ c ∷ s
unfolding speak_line
speak_line-shapes c s h =
    let inner = λ (t : Str). strip_emoji (strip_inline_markdown t) in
    ap (λ t. inner (trim t)) (strip_block_marker-shapes c s h)
    ∙ ap inner (trim-shapes (c ∷ s) h)
    ∙ ap strip_emoji (strip_inline_markdown-plain (c ∷ s) (shapes-plain (c ∷ s) h))
    ∙ strip_emoji-shapes (c ∷ s) h

speak_lines-shapes :
    (c : ℕ) (s : Str) → AreShapes (c ∷ s) → speak_lines false ((c ∷ s) ∷ []) ≡ (c ∷ s) ∷ []
unfolding speak_lines
speak_lines-shapes c s h =
    rw (trim-shapes (c ∷ s) h, is_code_fence-shapes c s h, speak_line-shapes c s h) refl

nothing : to_tts_text [] ≡ []
unfolding to_tts_text normalize_line_break_tokens break_tokens replace_crlf replace_cr lines
    speak_lines join
nothing = refl

-- A text that consists of emojis of the blocks of arrows and geometric shapes and of their neighbours,
-- as the star U+2B50, is spoken as it is.
pub to_tts_text-shapes : (s : Str) → AreShapes s → to_tts_text s ≡ s
unfolding to_tts_text join
to_tts_text-shapes [] h = nothing
to_tts_text-shapes (c ∷ s) h =
    ap (λ t. join (speak_lines false (lines t))) (normalize-shapes (c ∷ s) h)
    ∙ ap (λ ls. join (speak_lines false ls)) (lines-shapes c s h)
    ∙ ap join (speak_lines-shapes c s h)
