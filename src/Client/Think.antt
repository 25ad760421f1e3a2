-- ===== src/Client/Think.antt =====
-- crates/voice_server/src/client/llm.rs: `ThinkTagFilter` takes the reasoning between `<think>` and
-- `</think>` out of the deltas of an answer.
pub mod Plain
pub mod Fuel
use voice_ai.Base.{
  ℕ, zero, suc, ◌+◌, ◌-◌, Bool, true, false, not, Option, none, some, List, [], ◌∷◌, ◌++◌, length,
  take, drop, if◌then◌else◌, Str, str_eq, ◌is◌, codes, starts_with, to_ascii_lowercase,
}

abbrev pub think_open_tag : Str
think_open_tag = codes "<think>"

abbrev pub think_close_tag : Str
think_close_tag = codes "</think>"

pub record ThinkTagFilter : Type 0 where
  pub pending : Str
  pub in_think : Bool

abbrev pub found_later : Option ℕ → Option ℕ
found_later none = none
found_later (some n) = some (suc n)

-- `str::find`, the pattern first, for a pattern that is not empty.
unfoldable pub find : Str → Str → Option ℕ
find needle [] = none
find needle (c ∷ s) =
    let later = found_later (find needle s) in if starts_with needle (c ∷ s) then some 0 else later

unfoldable pub find_ascii_case_insensitive : Str → Str → Option ℕ
find_ascii_case_insensitive haystack needle = find needle (to_ascii_lowercase haystack)

-- The suffix of that length is the prefix of the tag, but for the case of letters.
abbrev pub suffix_matches : (value tag : Str) → ℕ → Bool
suffix_matches value tag n =
    to_ascii_lowercase (drop (length value - n) value) is to_ascii_lowercase (take n tag)

unfoldable pub longest_match : (value tag : Str) → ℕ → ℕ
longest_match value tag zero = 0
longest_match value tag (suc n) =
    let shorter = longest_match value tag n in
    if suffix_matches value tag (suc n) then suc n else shorter

unfoldable pub matching_tag_prefix_suffix_len : (value tag : Str) → ℕ
matching_tag_prefix_suffix_len value tag = longest_match value tag (length tag - 1)

abbrev pub tag_of : Bool → Str
tag_of true = think_close_tag
tag_of false = think_open_tag

abbrev pub shown : Bool → Str → Str
shown true s = []
shown false s = s

-- No tag is found: all but what may be the beginning of one is taken.
unfoldable pub keep_rest : ThinkTagFilter → Str × ThinkTagFilter
keep_rest f =
    let retained = matching_tag_prefix_suffix_len f.pending (tag_of f.in_think) in
    let consumed = length f.pending - retained in
    (shown f.in_think (take consumed f.pending), record f { pending = drop consumed f.pending })

abbrev pub found_at : ThinkTagFilter → ℕ → Str × ThinkTagFilter
found_at f position = (
  shown f.in_think (take position f.pending),
  record {
    pending = drop (position + length (tag_of f.in_think)) f.pending;
    in_think = not f.in_think;
  },
)

abbrev pub prepended : Str → Str × ThinkTagFilter → Str × ThinkTagFilter
prepended s (out, f) = (s ++ out, f)

-- The loop of `push`; each round but the last takes a tag out of `pending`.
unfoldable pub push_loop : ℕ → ThinkTagFilter → Str × ThinkTagFilter
push_loop zero f = keep_rest f
push_loop (suc fuel) f = elim (find_ascii_case_insensitive f.pending (tag_of f.in_think)) [
  | none ↦ keep_rest f
  | some position ↦ let (out, g) = found_at f position in prepended out (push_loop fuel g)
]

unfoldable pub push : ThinkTagFilter → Str → Str × ThinkTagFilter
push f delta =
    let pending = f.pending ++ delta in push_loop (length pending) (record f { pending = pending })

unfoldable pub finish : ThinkTagFilter → Str × ThinkTagFilter
finish f = ((if f.in_think then [] else f.pending), record f { pending = [] })
