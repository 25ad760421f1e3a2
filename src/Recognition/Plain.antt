-- ===== src/Recognition/Plain.antt =====
-- crates/voice_server/src/utils/postprocess_utils.rs: what `rich_transcription_postprocess` makes of a
-- text without tags and emojis.
use voice_ai.Base.{
  ℕ, ◌≡◌, refl, ap, ◌∙◌, inl, inr, Bool, true, false, not, List, [], ◌∷◌, ◌++◌, all, map, unwrap_or,
  Str, str_eq, ◌is◌, codes, lookup, trim, trim_idem, replace, count_matches, split, has_char,
  replace-absent, count_matches-absent, split-absent, append-nil, Bool-cases, &&_split, arith,
}
use voice_ai.Recognition.Rich.{
  TaggedEntries, emo_dict, event_dict, lang_dict, lang_tag, emoji_dict, strip_tags, tag_count,
  main_emotion, put_events, squeeze, decorate, format_str_v2, join_segments, join_all,
  mark_languages, rich_transcription_postprocess,
}

-- The character `<`, with which every tag begins.
abbrev pub tag_start : ℕ
tag_start = 60

abbrev are_tags : TaggedEntries → Bool
are_tags tags = all (λ t. has_char tag_start t.0) tags

abbrev zeros : TaggedEntries → List (Str × ℕ)
zeros tags = map (λ t. (t.0, 0)) tags

strip_tags-absent :
    (tags : TaggedEntries) (s : Str)
    → are_tags tags ≡ true
    → has_char tag_start s ≡ false
    → strip_tags tags s ≡ (zeros tags, s)
unfolding strip_tags
strip_tags-absent [] s h k = refl
strip_tags-absent ((tag, v) ∷ tags) s h k =
    let (here, there) = &&_split {a = has_char tag_start tag} {b = are_tags tags} h in
    ap (λ t. ((tag, count_matches tag s) ∷ (strip_tags tags t).0, (strip_tags tags t).1))
      (replace-absent tag_start tag here [] s k)
    ∙ ap (λ n. ((tag, n) ∷ (strip_tags tags s).0, (strip_tags tags s).1))
        (count_matches-absent tag_start tag here s k)
    ∙ ap (λ (p : List (Str × ℕ) × Str). ((tag, 0) ∷ p.0, p.1)) (strip_tags-absent tags s there k)

tag_count-zeros : (tags : TaggedEntries) (tag : Str) → tag_count (zeros tags) tag ≡ 0
unfolding tag_count lookup
tag_count-zeros [] tag = refl
tag_count-zeros ((t, v) ∷ tags) tag = elim (Bool-cases (t is tag)) [
  | inl e ↦ rw e refl
  | inr e ↦ rw e (tag_count-zeros tags tag)
]

module _ (counts : List (Str × ℕ)) (none_met : (tag : Str) → tag_count counts tag ≡ 0) where
  main_emotion-zero : (es : TaggedEntries) (emo : Str) → main_emotion counts es emo ≡ emo
  unfolding main_emotion
  main_emotion-zero [] emo = refl
  main_emotion-zero ((e, v) ∷ es) emo = rw (none_met emo, none_met e) (main_emotion-zero es emo)

  put_events-zero : (es : TaggedEntries) (s : Str) → put_events counts es s ≡ s
  unfolding put_events
  put_events-zero [] s = refl
  put_events-zero ((e, v) ∷ es) s = rw (none_met e) (put_events-zero es s)

-- None of the emojis stands in the text.
abbrev pub none_of : Str → Str → Bool
none_of emojis s = all (λ e. not (has_char e s)) emojis

has_self : (e : ℕ) (pre : Str) → has_char e (pre ++ e ∷ []) ≡ true
has_self e [] = ground arith
has_self e (c ∷ pre) = ground (arith, has_self e pre)

has_first : (e : ℕ) (s : Str) → has_char e (e ∷ s) ≡ true
has_first e s = ground arith

squeeze-absent : (emojis s : Str) → none_of emojis s ≡ true → squeeze emojis s ≡ s
unfolding squeeze
squeeze-absent [] s h = refl
squeeze-absent (e ∷ es) s h =
    let (here, there) = &&_split {a = not (has_char e s)} {b = none_of es s} h in
    let gone : has_char e s ≡ false = ground (arith, here) in
    ap (λ t. squeeze es (replace (e ∷ codes " ") (e ∷ []) t))
      (replace-absent e (codes " " ++ e ∷ []) (has_self e (codes " ")) (e ∷ []) s gone)
    ∙ ap (squeeze es) (replace-absent e (e ∷ codes " ") (has_first e (codes " ")) (e ∷ []) s gone)
    ∙ squeeze-absent es s there

mark_languages-absent :
    (emojis : Str) (langs : TaggedEntries) (s : Str)
    → are_tags langs ≡ true
    → has_char tag_start s ≡ false
    → mark_languages emojis langs s ≡ s
unfolding mark_languages
mark_languages-absent emojis [] s h k = refl
mark_languages-absent emojis ((lang, v) ∷ langs) s h k =
    let (here, there) = &&_split {a = has_char tag_start lang} {b = are_tags langs} h in
    ap (mark_languages emojis langs) (replace-absent tag_start lang here lang_tag s k)
    ∙ mark_languages-absent emojis langs s there k

decorate-zeros : (tags : TaggedEntries) (s : Str) → decorate (zeros tags) s ≡ s
unfolding decorate
decorate-zeros tags s =
    let none_met : (tag : Str) → tag_count (zeros tags) tag ≡ 0 = tag_count-zeros tags in
    ap (λ emo. put_events (zeros tags) event_dict s ++ unwrap_or (lookup emo emo_dict) [])
      (main_emotion-zero (zeros tags) none_met emo_dict (codes "<|NEUTRAL|>"))
    ∙ ap (λ t. t ++ unwrap_or (lookup (codes "<|NEUTRAL|>") emo_dict) [])
        (put_events-zero (zeros tags) none_met event_dict s)
    ∙ (unfold lookup in append-nil s)

format-absent :
    (emojis s : Str)
    → has_char tag_start s ≡ false
    → none_of emojis s ≡ true
    → format_str_v2 emojis s ≡ trim s
unfolding format_str_v2
format-absent emojis s k h =
    ap (λ (p : List (Str × ℕ) × Str). trim (squeeze emojis (decorate p.0 p.1)))
      (strip_tags-absent emoji_dict s refl k)
    ∙ ap (λ t. trim (squeeze emojis t)) (decorate-zeros emoji_dict s)
    ∙ ap trim (squeeze-absent emojis s h)

-- A text without a tag and without one of the emojis is trimmed, and `The.` in it is taken out.
pub rich-plain :
    (emojis s : Str)
    → has_char tag_start s ≡ false
    → none_of emojis s ≡ true
    → rich_transcription_postprocess emojis s
      ≡ trim (replace (codes "The.") (codes " ") (codes " " ++ trim s))
unfolding rich_transcription_postprocess join_all join_segments
rich-plain emojis s k h =
    let unknown = codes "<|nospeech|><|Event_UNK|>" in
    let whole : (t : Str) → Str = λ t. join_all emojis (
      map (λ si. trim (format_str_v2 emojis si))
        (split lang_tag (mark_languages emojis lang_dict t))) in
    ap whole (replace-absent tag_start unknown refl (codes "❓") s k)
    ∙ ap (λ t. join_all emojis (map (λ si. trim (format_str_v2 emojis si)) (split lang_tag t)))
        (mark_languages-absent emojis lang_dict s refl k)
    ∙ ap (λ l. join_all emojis (map (λ si. trim (format_str_v2 emojis si)) l))
        (split-absent tag_start lang_tag refl s k)
    ∙ ap (λ t. trim (replace (codes "The.") (codes " ") (codes " " ++ t)))
        (ap trim (format-absent emojis s k h) ∙ trim_idem s)
