-- ===== src/Recognition/Tests.antt =====
-- The post-processing of the recognition on concrete texts.
use voice_ai.Base.{
  ◌≡◌, refl, some, [], ◌∷◌, keep, codes, Str, lookup, insert, trim, trim_start, trim_end,
  is_whitespace,
}
use voice_ai.Recognition.Parse.{parse_asr_text, scan, emotion_of, event_of, format_asr_hint}
use voice_ai.Recognition.Emotion.{is_plain, IsMain, parse_asr_text-IsMain}

-- 😊 twice and 😔 once, an applause and an unknown event.
abbrev cheerful : Str
cheerful = codes " 👏😊hi😔😊❓👏"

parsed :
    parse_asr_text cheerful
    ≡ record { text = codes "hi"; emotion = some (codes "开心"); event = codes "掌声" ∷ [] ∷ [] }
unfolding parse_asr_text scan emotion_of event_of lookup insert trim trim_start trim_end
    is_whitespace
parsed = refl

hint :
    format_asr_hint (some (codes "开心")) (codes "掌声" ∷ [] ∷ codes "笑声" ∷ [])
    ≡ some (codes "情绪：开心；事件：掌声、笑声")
unfolding format_asr_hint
hint = refl

parse_asr_text-IsMain_example :
    ((parse_asr_text cheerful).text ≡ trim (keep is_plain cheerful))
    × IsMain cheerful (parse_asr_text cheerful).emotion
parse_asr_text-IsMain_example = parse_asr_text-IsMain cheerful

abbrev hash_order : Str
hash_order = codes "👏😊😔😡🎼😰🤢😮😀😭🤧😷"
