-- ===== src/Client/Think/Plain.antt =====
-- crates/voice_server/src/client/llm.rs: the filter of the reasoning lets a text without tags through at
-- once.
use voice_ai.Base.{
  ℕ, zero, suc, ◌-◌, ◌≡◌, refl, ap, ap₂, ◌∙◌, true, false, Option, none, some, [], ◌∷◌, length,
  take, drop, take-all, drop-all, Str, str_eq, ◌is◌, to_ascii_lowercase, has_char, starts_absent,
  tail_absent, arith,
}
use voice_ai.Client.Think.{
  ThinkTagFilter, think_open_tag, find, find_ascii_case_insensitive, suffix_matches, longest_match,
  matching_tag_prefix_suffix_len, keep_rest, push_loop, push, found_at, prepended,
}

-- The character `<`.
abbrev pub tag_start : ℕ
tag_start = 60

lower_absent :
    (s : Str) → has_char tag_start s ≡ false → has_char tag_start (to_ascii_lowercase s) ≡ false
unfolding to_ascii_lowercase
lower_absent [] h = refl
lower_absent (c ∷ s) h =
    let rest : has_char tag_start (to_ascii_lowercase s) ≡ false =
      lower_absent s (tail_absent tag_start c s h) in
    ground (arith, rest, h)

drop_absent :
    (n : ℕ) (s : Str) → has_char tag_start s ≡ false → has_char tag_start (drop n s) ≡ false
drop_absent zero s h = h
drop_absent (suc n) [] h = refl
drop_absent (suc n) (c ∷ s) h = drop_absent n s (tail_absent tag_start c s h)

find_absent :
    (needle s : Str)
    → has_char tag_start needle ≡ true
    → has_char tag_start s ≡ false
    → find needle s ≡ none
unfolding find
find_absent needle [] h k = refl
find_absent needle (c ∷ s) h k =
    rw
      (
        starts_absent tag_start needle (c ∷ s) h k,
        find_absent needle s h (tail_absent tag_start c s k),
      )
      refl

not_same : (s t : Str) → has_char tag_start s ≡ false → (s is (tag_start ∷ t)) ≡ false
not_same [] t h = refl
not_same (c ∷ s) t h = ground arith

longest_match-absent :
    (s : Str) (n : ℕ) → has_char tag_start s ≡ false → longest_match s think_open_tag n ≡ 0
unfolding longest_match to_ascii_lowercase
longest_match-absent s zero h = refl
longest_match-absent s (suc n) h =
    let apart : suffix_matches s think_open_tag (suc n) ≡ false =
      not_same (to_ascii_lowercase (drop (length s - suc n) s)) _
        (lower_absent (drop (length s - suc n) s) (drop_absent (length s - suc n) s h)) in
    rw (apart, longest_match-absent s n h) refl

abbrev outside_of : Str → ThinkTagFilter
outside_of s = record { pending = s; in_think = false }

keep_rest-absent :
    (s : Str) → has_char tag_start s ≡ false → keep_rest (outside_of s) ≡ (s, outside_of [])
unfolding keep_rest matching_tag_prefix_suffix_len
keep_rest-absent s h =
    let all_taken : length s - longest_match s think_open_tag 6 ≡ length s =
      omega (arith, longest_match-absent s 6 h) in
    ap (λ n. (take n s, outside_of (drop n s))) all_taken
    ∙ ap₂ (λ a b. (a, outside_of b)) (take-all (length s) s (omega arith))
        (drop-all (length s) s (omega arith))

push_loop-absent :
    (n : ℕ) (s : Str)
    → has_char tag_start s ≡ false
    → push_loop n (outside_of s) ≡ (s, outside_of [])
unfolding push_loop find_ascii_case_insensitive
push_loop-absent zero s h = keep_rest-absent s h
push_loop-absent (suc n) s h =
    ap
      (λ (o : Option ℕ). elim o as (λ _. Str × ThinkTagFilter) [
        | none ↦ keep_rest (outside_of s)
        | some position ↦
            prepended (found_at (outside_of s) position).0
              (push_loop n (found_at (outside_of s) position).1)
      ])
      (find_absent think_open_tag (to_ascii_lowercase s) refl (lower_absent s h))
    ∙ keep_rest-absent s h

-- Outside of a tag and with nothing pending, a delta without `<` is shown at once and leaves the filter
-- as it was.
pub push-plain :
    (delta : Str)
    → has_char tag_start delta ≡ false
    → push (record { pending = []; in_think = false }) delta
      ≡ (delta, record { pending = []; in_think = false })
unfolding push
push-plain delta h = push_loop-absent (length delta) delta h
