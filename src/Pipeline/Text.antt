-- ===== src/Pipeline/Text.antt =====
-- crates/voice_server/src/pipeline/text.rs: the text that is spoken. A text is the list of its code
-- points, and a place in a text is what stands from there on.
pub mod Buffer
pub mod Inline
pub mod Lines
pub mod Emoji
pub mod Shapes
mod Tests
use voice_ai.Base.{
  ℕ, suc, zero, ◌+◌, ◌-◌, Bool, true, false, not, ◌&&◌, ◌||◌, Option, none, some, List, [], ◌∷◌,
  ◌++◌, length, is_empty, drop, keep, any, leb, ◌==◌, if◌then◌else◌, Str, between_codes,
  is_whitespace, trim, trim_start, ◌>>=◌, unwrap_or, or_else, take,
}

abbrev pub newline : ℕ
newline = 0xA

abbrev pub carriage_return : ℕ
carriage_return = 0xD

abbrev pub backslash : ℕ
backslash = 0x5C

-- `chars.first().is_some_and(..)`
abbrev pub head_is : (ℕ → Bool) → Str → Bool
head_is p [] = false
head_is p (c ∷ s) = p c

unfoldable pub is_emoji_char : ℕ → Bool
is_emoji_char c =
    c == 0xA9
    || c == 0xAE
    || c == 0x203C
    || c == 0x2049
    || c == 0x2122
    || c == 0x2139
    || c == 0x3030
    || c == 0x303D
    || c == 0x3297
    || c == 0x3299
    || c == 0x200D
    || c == 0x20E3
    || between_codes 0xFE0E 0xFE0F c
    || between_codes 0x1F000 0x1FAFF c
    || between_codes 0x2300 0x23FF c
    || between_codes 0x2600 0x27BF c

unfoldable pub is_incremental_decoration : ℕ → Bool
is_incremental_decoration c =
    c == 0x5B
    || c == 0x5D
    || c == 0x28
    || c == 0x29
    || c == 0x7B
    || c == 0x7D
    || c == 0x3C
    || c == 0x3E
    || c == 0x22
    || c == 0x27
    || between_codes 0x2018 0x201F c
    || c == 0x60
    || c == backslash
    || c == 0x2A
    || c == 0x5F
    || c == 0x7E
    || between_codes 0x3008 0x300D c
    || between_codes 0x3010 0x3011 c
    || between_codes 0x3014 0x3015 c
    || between_codes 0xFF08 0xFF09 c
    || between_codes 0xFF3B 0xFF3D c
    || between_codes 0xFF5B 0xFF5D c

-- `IncrementalTtsCleaner::clean`
unfoldable pub clean : Str → Str
clean delta = keep (λ c. not (is_incremental_decoration c) && not (is_emoji_char c)) delta

unfoldable pub strip_emoji : Str → Str
strip_emoji s = keep (λ c. not (is_emoji_char c)) s

-- The loop of `normalize_line_break_tokens`.
unfoldable pub break_tokens : Str → Str
break_tokens [] = []
break_tokens (c ∷ []) = c ∷ []
break_tokens (c ∷ d ∷ s) =
    let token = break_tokens s in
    let plain = break_tokens (d ∷ s) in
    if (c == backslash || c == 0x2F) && d == 0x6E then newline ∷ token else c ∷ plain

-- `replace("\r\n", "\n").replace('\r', "\n")`
unfoldable pub replace_crlf : Str → Str
replace_crlf [] = []
replace_crlf (c ∷ []) = c ∷ []
replace_crlf (c ∷ d ∷ s) =
    let pair = replace_crlf s in
    let single = replace_crlf (d ∷ s) in
    if c == carriage_return && d == newline then newline ∷ pair else c ∷ single

unfoldable pub replace_cr : Str → Str
replace_cr [] = []
replace_cr (c ∷ s) = (if c == carriage_return then newline else c) ∷ replace_cr s

unfoldable pub normalize_line_break_tokens : Str → Str
unfolding break_tokens replace_crlf replace_cr
normalize_line_break_tokens s = replace_cr (replace_crlf (break_tokens s))

abbrev pub starts_with : Str → Str → Bool
starts_with [] s = true
starts_with (p ∷ ps) [] = false
starts_with (p ∷ ps) (c ∷ s) = p == c && starts_with ps s

unfoldable pub is_code_fence : Str → Bool
is_code_fence line =
    starts_with (0x60 ∷ 0x60 ∷ 0x60 ∷ []) line || starts_with (0x7E ∷ 0x7E ∷ 0x7E ∷ []) line

-- `chars().take_while(p).count()`
abbrev pub count_while : (ℕ → Bool) → Str → ℕ
count_while p [] = 0
count_while p (c ∷ s) = let n = count_while p s in if p c then suc n else 0

abbrev pub is_ascii_digit : ℕ → Bool
is_ascii_digit c = between_codes 0x30 0x39 c

abbrev pub is_ascii_punctuation : ℕ → Bool
is_ascii_punctuation c =
    between_codes 0x21 0x2F c
    || between_codes 0x3A 0x40 c
    || between_codes 0x5B 0x60 c
    || between_codes 0x7B 0x7E c

-- `strip_prefix` with a set of characters, then a white space.
abbrev pub marked : (ℕ → Bool) → Str → Bool
marked p [] = false
marked p (c ∷ s) = p c && head_is is_whitespace s

unfoldable pub strip_block_marker : Str → Str
unfolding trim_start
strip_block_marker line =
    let heading_len = count_while (λ c. c == 0x23) line in
    let digits = count_while is_ascii_digit line in
    if leb 1 heading_len && leb heading_len 6 && head_is is_whitespace (drop heading_len line)
    then trim_start (drop heading_len line)
    else (if marked (λ c. c == 0x2D || c == 0x2A || c == 0x2B) line
        then trim_start (drop 1 line)
        else (if leb 1 digits && marked (λ c. c == 0x2E || c == 0x29) (drop digits line)
            then trim_start (drop 1 (drop digits line))
            else line))

-- What stands before the first `target`, and what after it.
unfoldable pub find_char : ℕ → Str → Option (Str × Str)
find_char target [] = none
find_char target (c ∷ s) =
    let later = find_char target s in
    if c == target
    then some ([], s)
    else elim later [ none ↦ none | some (before, behind) ↦ some (c ∷ before, behind) ]

-- `label](address)` behind an opening bracket: the label, and what follows.
unfoldable pub link : Str → Option (Str × Str)
unfolding find_char
link s = do
  (label, behind) ← find_char 0x5D s
  if head_is (λ c. c == 0x28) behind
      then (do (address, rest) ← find_char 0x29 (drop 1 behind); some (label, rest))
      else none

-- A link or an image at this place.
unfoldable pub link_here : Str → Option (Str × Str)
unfolding link
link_here [] = none
link_here (c ∷ s) =
    if c == 0x5B
    then link s
    else (if c == 0x21 && head_is (λ d. d == 0x5B) s then link (drop 1 s) else none)

unfoldable pub tag_here : Str → Option (Str × Str)
unfolding find_char
tag_here [] = none
tag_here (c ∷ s) =
    if c == 0x3C
    then elim (find_char 0x3E s) [ none ↦ none | some (inside, rest) ↦ some ([], rest) ]
    else none

abbrev pub is_marker : ℕ → Bool
is_marker c = c == 0x60 || c == 0x2A || c == 0x5F || c == 0x7E

-- The branches of the loop of `strip_inline_markdown` that look at one character.
unfoldable pub char_step : ℕ → Str → Str × Str
char_step c s =
    if c == backslash && head_is is_ascii_punctuation s
    then (take 1 s, drop 1 s)
    else (if is_marker c then ([], s) else (c ∷ [], s))

-- One round of that loop at the character `c`: what is put out, and where the next round begins.
unfoldable pub inline_step : ℕ → Str → Str × Str
unfolding link_here tag_here char_step
inline_step c s = unwrap_or (or_else (link_here (c ∷ s)) (tag_here (c ∷ s))) (char_step c s)

-- On fuel: each round is left with less text.
unfoldable pub strip_loop : ℕ → Str → Str
unfolding inline_step
strip_loop zero s = []
strip_loop (suc fuel) [] = []
strip_loop (suc fuel) (c ∷ s) = let (out, rest) = inline_step c s in out ++ strip_loop fuel rest

unfoldable pub strip_inline_markdown : Str → Str
unfolding strip_loop
strip_inline_markdown input = strip_loop (length input) input

-- `str::lines`, for a text without carriage returns: what stands between the line feeds, and no last
-- line that is empty. `put` puts a character in front of the first line.
abbrev put : ℕ → List Str → List Str
put c [] = (c ∷ []) ∷ []
put c (line ∷ rest) = (c ∷ line) ∷ rest

unfoldable pub lines : Str → List Str
lines [] = []
lines (c ∷ s) = let rest = lines s in if c == newline then [] ∷ rest else put c rest

-- One line outside code blocks.
unfoldable pub speak_line : Str → Str
unfolding strip_block_marker strip_inline_markdown strip_emoji trim
speak_line trimmed = strip_emoji (strip_inline_markdown (trim (strip_block_marker trimmed)))

-- The loop over the lines: what it pushes.
unfoldable pub speak_lines : Bool → List Str → List Str
unfolding speak_line is_code_fence trim
speak_lines in_code_block [] = []
speak_lines in_code_block (line ∷ more) =
    let trimmed = trim line in
    let spoken = speak_line trimmed in
    let toggled = speak_lines (not in_code_block) more in
    let rest = speak_lines in_code_block more in
    if is_code_fence trimmed
    then toggled
    else (if in_code_block || is_empty trimmed || is_empty spoken then rest else spoken ∷ rest)

-- `join(" ")`
unfoldable pub join : List Str → Str
join [] = []
join (line ∷ []) = line
join (line ∷ next ∷ more) = line ++ (0x20 ∷ join (next ∷ more))

unfoldable pub to_tts_text : Str → Str
unfolding normalize_line_break_tokens lines speak_lines join
to_tts_text input = join (speak_lines false (lines (normalize_line_break_tokens input)))
