-- ===== src/Recognition/Rich.antt =====
-- crates/voice_server/src/utils/postprocess_utils.rs: `rich_transcription_postprocess` turns the tags of
-- the recognition into emojis.
use voice_ai.Base.{
  ℕ, Bool, true, false, Option, none, some, List, [], ◌∷◌, ◌++◌, any, map, is_empty, drop, ltb,
  ◌==◌, if◌then◌else◌, unwrap_or, Str, str_eq, codes, lookup, trim, replace, count_matches, split,
}

abbrev pub TaggedEntries : Type 0
TaggedEntries = List (Str × Str)

abbrev pub emo_dict : TaggedEntries
emo_dict =
    (codes "<|HAPPY|>", codes "😊")
    ∷ (codes "<|SAD|>", codes "😔")
    ∷ (codes "<|ANGRY|>", codes "😡")
    ∷ (codes "<|NEUTRAL|>", [])
    ∷ (codes "<|FEARFUL|>", codes "😰")
    ∷ (codes "<|DISGUSTED|>", codes "🤢")
    ∷ (codes "<|SURPRISED|>", codes "😮")
    ∷ []

abbrev pub event_dict : TaggedEntries
event_dict =
    (codes "<|BGM|>", codes "🎼")
    ∷ (codes "<|Speech|>", [])
    ∷ (codes "<|Applause|>", codes "👏")
    ∷ (codes "<|Laughter|>", codes "😀")
    ∷ (codes "<|Cry|>", codes "😭")
    ∷ (codes "<|Sneeze|>", codes "🤧")
    ∷ (codes "<|Breath|>", [])
    ∷ (codes "<|Cough|>", codes "🤧")
    ∷ []

abbrev pub lang_tag : Str
lang_tag = codes "<|lang|>"

abbrev pub lang_dict : TaggedEntries
lang_dict =
    (codes "<|zh|>", lang_tag)
    ∷ (codes "<|en|>", lang_tag)
    ∷ (codes "<|yue|>", lang_tag)
    ∷ (codes "<|ja|>", lang_tag)
    ∷ (codes "<|ko|>", lang_tag)
    ∷ (codes "<|nospeech|>", lang_tag)
    ∷ []

abbrev pub emoji_dict : TaggedEntries
emoji_dict =
    (codes "<|nospeech|><|Event_UNK|>", codes "❓")
    ∷ (codes "<|zh|>", [])
    ∷ (codes "<|en|>", [])
    ∷ (codes "<|yue|>", [])
    ∷ (codes "<|ja|>", [])
    ∷ (codes "<|ko|>", [])
    ∷ (codes "<|nospeech|>", [])
    ∷ (codes "<|HAPPY|>", codes "😊")
    ∷ (codes "<|SAD|>", codes "😔")
    ∷ (codes "<|ANGRY|>", codes "😡")
    ∷ (codes "<|NEUTRAL|>", [])
    ∷ (codes "<|BGM|>", codes "🎼")
    ∷ (codes "<|Speech|>", [])
    ∷ (codes "<|Applause|>", codes "👏")
    ∷ (codes "<|Laughter|>", codes "😀")
    ∷ (codes "<|FEARFUL|>", codes "😰")
    ∷ (codes "<|DISGUSTED|>", codes "🤢")
    ∷ (codes "<|SURPRISED|>", codes "😮")
    ∷ (codes "<|Cry|>", codes "😭")
    ∷ (codes "<|EMO_UNKNOWN|>", [])
    ∷ (codes "<|Sneeze|>", codes "🤧")
    ∷ (codes "<|Breath|>", [])
    ∷ (codes "<|Cough|>", codes "😷")
    ∷ (codes "<|Sing|>", [])
    ∷ (codes "<|Speech_Noise|>", [])
    ∷ (codes "<|withitn|>", [])
    ∷ (codes "<|woitn|>", [])
    ∷ (codes "<|GBG|>", [])
    ∷ (codes "<|Event_UNK|>", [])
    ∷ []

abbrev pub emo_set : Str
emo_set = codes "😊😔😡😰🤢😮"

abbrev pub event_set : Str
event_set = codes "🎼👏😀😭🤧😷"

-- The tags are counted and taken out one after the other, in the order of the table.
unfoldable pub strip_tags : TaggedEntries → Str → List (Str × ℕ) × Str
strip_tags [] s = ([], s)
strip_tags ((tag, _) ∷ tags) s =
    let (counts, out) = strip_tags tags (replace tag [] s) in
    ((tag, count_matches tag s) ∷ counts, out)

unfoldable pub tag_count : List (Str × ℕ) → Str → ℕ
tag_count counts tag = unwrap_or (lookup tag counts) 0

-- The emotion with the most tags, the first of several.
unfoldable pub main_emotion : List (Str × ℕ) → TaggedEntries → Str → Str
main_emotion counts [] emo = emo
main_emotion counts ((e, _) ∷ es) emo =
    main_emotion counts es (if ltb (tag_count counts emo) (tag_count counts e) then e else emo)

unfoldable pub put_events : List (Str × ℕ) → TaggedEntries → Str → Str
put_events counts [] s = s
put_events counts ((e, v) ∷ es) s =
    put_events counts es (if ltb 0 (tag_count counts e) then v ++ s else s)

-- The events stand before the text, the emotion behind it.
unfoldable pub decorate : List (Str × ℕ) → Str → Str
decorate counts s =
    let emo = main_emotion counts emo_dict (codes "<|NEUTRAL|>") in
    put_events counts event_dict s ++ unwrap_or (lookup emo emo_dict) []

unfoldable pub squeeze : Str → Str → Str
squeeze [] s = s
squeeze (emoji ∷ emojis) s =
    squeeze emojis
      (replace (emoji ∷ codes " ") (emoji ∷ []) (replace (codes " " ++ emoji ∷ []) (emoji ∷ []) s))

abbrev pub member : ℕ → Str → Bool
member c cs = any (λ d. d == c) cs

abbrev last_char : Str → Option ℕ
last_char [] = none
last_char (c ∷ []) = some c
last_char (c ∷ cs) = last_char cs

abbrev pub only_of : Str → Option ℕ → Option ℕ
only_of set none = none
only_of set (some c) = if member c set then some c else none

unfoldable pub get_emo : Str → Option ℕ
get_emo s = only_of emo_set (last_char s)

abbrev first_char : Str → Option ℕ
first_char [] = none
first_char (c ∷ cs) = some c

unfoldable pub get_event : Str → Option ℕ
get_event s = only_of event_set (first_char s)

unfoldable pub strip_first_char : Str → Str
strip_first_char s = drop 1 s

-- `String::pop`
abbrev pub pop : Str → Str
pop [] = []
pop (c ∷ []) = []
pop (c ∷ cs) = c ∷ pop cs

abbrev pub same_emoji : Option ℕ → Option ℕ → Bool
same_emoji (some c) (some d) = c == d
same_emoji _ _ = false

-- `emojis` are the members of `emo_event_set` in the order in which the hash set has them.
module _ (emojis : Str) where
  unfoldable pub format_str_v2 : Str → Str
  format_str_v2 s =
      let (counts, bare) = strip_tags emoji_dict s in trim (squeeze emojis (decorate counts bare))

  -- The segments after the first one, joined to what there is.
  unfoldable pub join_segments : Option ℕ → Str → List Str → Str
  join_segments cur_ent_event new_s [] = new_s
  join_segments cur_ent_event new_s (si_original ∷ more) =
      let si =
        if same_emoji (get_event si_original) cur_ent_event
        then strip_first_char si_original
        else si_original in
      let base = if same_emoji (get_emo si) (get_emo new_s) then pop new_s else new_s in
      elim (is_empty si_original) [
        | true ↦ join_segments cur_ent_event new_s more
        | false ↦ join_segments (get_event si) (base ++ trim si) more
      ]

  unfoldable pub join_all : List Str → Str
  join_all [] = []
  join_all (first ∷ more) =
      let new_s = codes " " ++ first in
      trim (replace (codes "The.") (codes " ") (join_segments (get_event new_s) new_s more))

  unfoldable pub mark_languages : TaggedEntries → Str → Str
  mark_languages [] s = s
  mark_languages ((lang, _) ∷ langs) s = mark_languages langs (replace lang lang_tag s)

  unfoldable pub rich_transcription_postprocess : Str → Str
  rich_transcription_postprocess s =
      let marked =
        mark_languages lang_dict (replace (codes "<|nospeech|><|Event_UNK|>") (codes "❓") s) in
      join_all (map (λ si. trim (format_str_v2 si)) (split lang_tag marked))
