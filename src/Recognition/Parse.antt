-- ===== src/Recognition/Parse.antt =====
-- crates/voice_server/src/utils/postprocess_utils.rs: `parse_asr_text` takes the emojis of emotions and
-- events out of a text, `format_asr_hint` makes the hint of them.
use voice_ai.Base.{
  ℕ, ◌+◌, Bool, not, ◌&&◌, ◌||◌, Option, none, some, List, [], ◌∷◌, ◌++◌, any, is_empty, keep, ltb,
  ◌==◌, if◌then◌else◌, Str, str_eq, ◌is◌, codes, lookup, insert, trim, join_with,
}

abbrev pub Labels : Type 0
Labels = List (Str × Str)

abbrev pub emoji_emotion_labels : Labels
emoji_emotion_labels =
    (codes "😊", codes "开心")
    ∷ (codes "😔", codes "悲伤")
    ∷ (codes "😡", codes "愤怒")
    ∷ (codes "😰", codes "恐惧")
    ∷ (codes "🤢", codes "厌恶")
    ∷ (codes "😮", codes "惊讶")
    ∷ []

abbrev pub emoji_event_labels : Labels
emoji_event_labels =
    (codes "❓", [])
    ∷ (codes "🎼", codes "背景音乐")
    ∷ (codes "👏", codes "掌声")
    ∷ (codes "😀", codes "笑声")
    ∷ (codes "😭", codes "哭声")
    ∷ (codes "🤧", codes "喷嚏")
    ∷ (codes "😷", codes "咳嗽")
    ∷ []

pub record AsrParsed : Type 0 where
  pub text : Str
  pub emotion : Option Str
  pub event : List Str

-- How often a label was met, and where it was met last.
abbrev pub Stats : Type 0
Stats = List (Str × (ℕ × ℕ))

-- The variables of the loop; the labels in `event` are those in `seen_events`.
pub record Scan : Type 0 where
  pub emotion_stats : Stats
  pub event : List Str
  pub position : ℕ
  pub text : Str

unfoldable pub emotion_of : ℕ → Option Str
unfolding lookup
emotion_of ch = lookup (ch ∷ []) emoji_emotion_labels

unfoldable pub event_of : ℕ → Option Str
unfolding lookup
event_of ch = lookup (ch ∷ []) emoji_event_labels

abbrev pub count_in : Option (ℕ × ℕ) → ℕ
count_in none = 0
count_in (some (count, last_position)) = count

abbrev pub count_of : Stats → Str → ℕ
count_of stats label = count_in (lookup label stats)

abbrev pub scan_char : Option Str → Option Str → ℕ → Scan → Scan
scan_char (some label) _ ch s = record s {
  emotion_stats = insert label (count_of s.emotion_stats label + 1, s.position) s.emotion_stats;
  position = s.position + 1;
}
scan_char none (some label) ch s = record s {
  event = if any (λ l. l is label) s.event then s.event else s.event ++ label ∷ [];
  position = s.position + 1;
}
scan_char none none ch s = record s { text = s.text ++ ch ∷ [] }

unfoldable pub scan : Str → Scan → Scan
unfolding emotion_of event_of insert
scan [] s = s
scan (ch ∷ input) s = scan input (scan_char (emotion_of ch) (event_of ch) ch s)

-- The order of two pairs, the first number first.
abbrev pub pair_le : ℕ × ℕ → ℕ × ℕ → Bool
pair_le (a, b) (c, d) = ltb a c || (a == c && not (ltb d b))

-- `max_by_key`: of equal keys the last one.
abbrev pub larger : Str × (ℕ × ℕ) → Option (Str × (ℕ × ℕ)) → Option (Str × (ℕ × ℕ))
larger x none = some x
larger x (some y) = if pair_le x.1 y.1 then some y else some x

abbrev pub max_stat : Stats → Option (Str × (ℕ × ℕ))
max_stat [] = none
max_stat (x ∷ xs) = larger x (max_stat xs)

abbrev pub label_of : Option (Str × (ℕ × ℕ)) → Option Str
label_of none = none
label_of (some x) = some x.0

abbrev pub no_scan : Scan
no_scan = record { emotion_stats = []; event = []; position = 0; text = [] }

unfoldable pub parse_asr_text : Str → AsrParsed
unfolding scan trim
parse_asr_text input =
    let s = scan input no_scan in
    record { text = trim s.text; emotion = label_of (max_stat s.emotion_stats); event = s.event }

abbrev pub emotion_part : Option Str → List Str
emotion_part none = []
emotion_part (some e) = if is_empty e then [] else (codes "情绪：" ++ e) ∷ []

abbrev pub not_empty : Str → Bool
not_empty s = not (is_empty s)

unfoldable pub format_asr_hint : Option Str → List Str → Option Str
format_asr_hint emotion events =
    let named = keep not_empty events in
    let parts =
      emotion_part emotion
      ++ (if is_empty named then [] else (codes "事件：" ++ join_with (codes "、") named) ∷ []) in
    if is_empty parts then none else some (join_with (codes "；") parts)
