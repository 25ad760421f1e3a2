-- ===== src/Pipeline/Text/Lines.antt =====
-- What may be spoken: no emoji and no line break is left of any text.
use voice_ai.Base.{ℕ, ◌≡◌, Bool, true, not, ◌&&◌, ◌||◌, List, all, Str, ◌==◌}
use mathlib.Core.List.{Sublist}
use mathlib.Core.List.Sublist
use voice_ai.Pipeline.Text.{newline, carriage_return, is_emoji_char}
use voice_ai.Pipeline.Text.Emoji.{is_in, pictures}

abbrev pub is_break : ℕ → Bool
is_break c = c == newline || c == carriage_return

-- No line break, and none of the characters that the filter takes for emojis.
abbrev IsFiltered : Str → Type 0
IsFiltered s = all (λ c. not (is_break c) && not (is_emoji_char c)) s ≡ true

-- No line break, and no emoji of the Unicode standard outside ASCII but those of the list `shapes`.
abbrev pub IsSpeakable : Str → Type 0
IsSpeakable s = all (λ c. not (is_break c) && not (is_in pictures c)) s ≡ true

abbrev HasNoBreak : Str → Type 0
HasNoBreak s = all (λ c. not (is_break c)) s ≡ true
