-- ===== src/Client/Prompt/Filled.antt =====
-- crates/voice_server/src/client/llm.rs: a template with one place for the emotion.
use voice_ai.Base.{
  ℕ, ◌-◌, ◌==◌, ◌≡◌, refl, ap, ◌∙◌, true, false, none, some, List, [], ◌∷◌, ◌++◌, length, Str,
  codes, starts_with, replace, replace_from, has_char, arith, tail_absent, replace-absent,
}
use voice_ai.Client.{ChatMessage}
use voice_ai.Client.Prompt.{no_emotion, emotion_mark, messages_with_system_prompt}

-- The brace that opens the place.
abbrev brace : ℕ
brace = 0x7B

head_apart :
    (c : ℕ) (s t : Str) → has_char brace (c ∷ s) ≡ false → starts_with emotion_mark (c ∷ t) ≡ false
head_apart c s t k = let apart : (brace == c) ≡ false = ground arith in rw apart refl

replace_before :
    (r before t : Str)
    → has_char brace before ≡ false
    → replace emotion_mark r (before ++ t) ≡ before ++ replace emotion_mark r t
unfolding replace replace_from
replace_before r [] t k = refl
replace_before r (c ∷ s) t k =
    ap
      (λ b. elim b as (λ _. Str) [
        | true ↦ r ++ replace_from emotion_mark r (length emotion_mark - 1) (s ++ t)
        | false ↦ c ∷ replace_from emotion_mark r 0 (s ++ t)
      ])
      (head_apart c s (s ++ t) k)
    ∙ ap (λ u. c ∷ u) (replace_before r s t (tail_absent brace c s k))

replace_mark :
    (r after : Str)
    → has_char brace after ≡ false
    → replace emotion_mark r (emotion_mark ++ after) ≡ r ++ after
unfolding replace replace_from
replace_mark r after k = ap (λ u. r ++ u) (replace-absent brace emotion_mark refl r after k)

replace_once :
    (r before after : Str)
    → has_char brace before ≡ false
    → has_char brace after ≡ false
    → replace emotion_mark r (before ++ (emotion_mark ++ after)) ≡ before ++ (r ++ after)
replace_once r before after h k =
    replace_before r before (emotion_mark ++ after) h
    ∙ ap (λ u. before ++ u) (replace_mark r after k)

-- A template with one place for the emotion, without a brace before or after it: the request has one
-- system message in front of the given messages, and its text is the template with the emotion in that
-- place, or with the word for none where an empty emotion or none is given.
pub messages_with_system_prompt-filled :
    (before after : Str) (messages : List ChatMessage) (c : ℕ) (value : Str)
    → has_char brace before ≡ false
    → has_char brace after ≡ false
    → let template = some (before ++ (codes "{emotion}" ++ after)) in
      let filled = λ (by : Str).
        record { role = codes "system"; content = before ++ (by ++ after) } ∷ messages in
      (messages_with_system_prompt template messages (some (c ∷ value)) ≡ filled (c ∷ value))
      × (messages_with_system_prompt template messages (some []) ≡ filled (codes "无"))
      × (messages_with_system_prompt template messages none ≡ filled (codes "无"))
unfolding messages_with_system_prompt
messages_with_system_prompt-filled before after messages c value h k =
    let fill = λ (by : Str).
      ap (λ (u : Str). record { role = codes "system"; content = u } ∷ messages)
        (replace_once by before after h k) in
    (fill (c ∷ value), fill no_emotion, fill no_emotion)
