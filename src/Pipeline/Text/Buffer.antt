-- ===== src/Pipeline/Text/Buffer.antt =====
-- crates/voice_server/src/pipeline/text.rs: `TtsSentenceBuffer`, which merges short sentences. Which
-- characters are letters or digits (`char::is_alphanumeric`) is a parameter.
use voice_ai.Base.{
  ℕ, ◌≤◌, ◌≡◌, refl, sym, ap, ◌∙◌, inl, inr, Bool, true, Option, none, some, List, [], ◌∷◌, ◌++◌,
  append-nil, append_assoc, length, is_empty, concat, keep, map, leb, All, if◌then◌else◌, leb→le,
  Bool-cases, Str, trim,
}

abbrev pub min_tts_chars : ℕ
min_tts_chars = 5

module _ (is_alphanumeric : ℕ → Bool) where
  unfoldable pub effective_char_count : Str → ℕ
  effective_char_count text = length (keep is_alphanumeric text)

  -- The state is the field `pending`.
  unfoldable pub push : Str → Str → Str × Option Str
  unfolding effective_char_count trim
  push pending sentence =
      let merged = pending ++ trim sentence in
      if is_empty (trim sentence)
      then (pending, none)
      else (if leb min_tts_chars (effective_char_count merged)
          then ([], some merged)
          else (merged, none))

  unfoldable pub flush : Str → Str × Option Str
  flush pending = ([], if is_empty pending then none else some pending)

  -- What one call gives.
  abbrev pub given : Option Str → List Str
  given none = []
  given (some t) = t ∷ []

  unfoldable pub push_all : Str → List Str → Str × List Str
  unfolding push
  push_all pending [] = (pending, [])
  push_all pending (s ∷ ss) =
      let (kept, out) = push pending s in
      let (last, more) = push_all kept ss in (last, given out ++ more)

  push-concat :
      (pending s : Str)
      → concat (given (push pending s).1) ++ (push pending s).0 ≡ pending ++ trim s
  unfolding push
  push-concat pending s = elim (Bool-cases (is_empty (trim s))) [
    | inl nothing ↦
        rw nothing (sym (append-nil pending) ∙ ap (◌++◌ pending) (sym (empty (trim s) nothing)))
    | inr something ↦
        elim (Bool-cases (leb min_tts_chars (effective_char_count (pending ++ trim s)))) [
          | inl enough ↦ rw (something, enough) (append-nil _ ∙ append-nil (pending ++ trim s))
          | inr short ↦ rw (something, short) refl
        ]
  ]
    where
      empty : (t : Str) → is_empty t ≡ true → t ≡ []
      empty [] h = refl
      empty (c ∷ t) h = absurd (cc (h))

  concat-append : (xs ys : List Str) → concat (xs ++ ys) ≡ concat xs ++ concat ys
  concat-append [] ys = refl
  concat-append (x ∷ xs) ys =
      ap (◌++◌ x) (concat-append xs ys) ∙ sym (append_assoc x (concat xs) (concat ys))

  push_all-concat :
      (pending : Str) (ss : List Str)
      → concat (push_all pending ss).1 ++ (push_all pending ss).0 ≡ pending ++ concat (map trim ss)
  unfolding push_all
  push_all-concat pending [] = sym (append-nil pending)
  push_all-concat pending (s ∷ ss) =
      let k = (push pending s).0 in
      let out = given (push pending s).1 in
      let rest = push_all k ss in
      ap (λ xs. xs ++ rest.0) (concat-append out rest.1)
      ∙ append_assoc (concat out) (concat rest.1) rest.0
      ∙ ap (◌++◌ (concat out)) (push_all-concat k ss)
      ∙ sym (append_assoc (concat out) k (concat (map trim ss)))
      ∙ ap (λ xs. xs ++ concat (map trim ss)) (push-concat pending s)
      ∙ append_assoc pending (trim s) (concat (map trim ss))

  abbrev pub IsLongEnough : Str → Type 0
  IsLongEnough t = min_tts_chars ≤ effective_char_count t

  push_all-long : (pending : Str) (ss : List Str) → All IsLongEnough (push_all pending ss).1
  unfolding push_all push
  push_all-long pending [] = tt
  push_all-long pending (s ∷ ss) = elim (Bool-cases (is_empty (trim s))) [
    | inl nothing ↦ rw nothing (push_all-long pending ss)
    | inr something ↦
        elim (Bool-cases (leb min_tts_chars (effective_char_count (pending ++ trim s)))) [
          | inl enough ↦ rw (something, enough) (leb→le min_tts_chars _ enough, push_all-long [] ss)
          | inr short ↦ rw (something, short) (push_all-long (pending ++ trim s) ss)
        ]
  ]

  -- The requests of a stream of sentences, with the one that is flushed at the end, are together the
  -- trimmed sentences in order, and each but the flushed one has the minimal number of characters.
  pub requests_complete :
      (ss : List Str)
      → let (pending, requests) = push_all [] ss in
        (concat (requests ++ given (flush pending).1) ≡ concat (map trim ss))
        × All IsLongEnough requests
  unfolding flush
  requests_complete ss =
      let (pending, requests) = push_all [] ss in
      (
        concat-append requests (given (flush pending).1)
            ∙ ap (◌++◌ (concat requests)) (flushed pending)
            ∙ push_all-concat [] ss,
        push_all-long [] ss,
      )
    where
      flushed : (p : Str) → concat (given (flush p).1) ≡ p
      flushed [] = refl
      flushed (c ∷ p) = append-nil (c ∷ p)
