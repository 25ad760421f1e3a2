-- ===== src/Client/Think/Fuel.antt =====
-- crates/voice_server/src/client/llm.rs: the loop over the tags in the pending text ends.
use voice_ai.Base.{
  ℕ, zero, suc, ◌+◌, ◌≤◌, ◌<◌, ◌≡◌, refl, ap, ◌∙◌, Bool, true, false, Option, none, some, [], ◌∷◌,
  length, length-drop, Str, arith, to_ascii_lowercase,
}
use voice_ai.Client.Think.{
  ThinkTagFilter, find, find_ascii_case_insensitive, keep_rest, push_loop, tag_of, found_at,
  prepended,
}

-- What a round does once the search has given its answer, `next` being the later rounds.
abbrev after_find :
    ThinkTagFilter → (ThinkTagFilter → Str × ThinkTagFilter) → Option ℕ → Str × ThinkTagFilter
after_find f next o = elim o as (λ _. Str × ThinkTagFilter) [
  | none ↦ keep_rest f
  | some position ↦ prepended (found_at f position).0 (next (found_at f position).1)
]

tag_longer : (b : Bool) → 0 < length (tag_of b)
tag_longer true = omega arith
tag_longer false = omega arith

shorter :
    (f : ThinkTagFilter) (position n : ℕ)
    → length f.pending ≤ suc n
    → length (found_at f position).1.pending ≤ n
shorter f position n h =
    omega (
      arith,
      h,
      tag_longer f.in_think,
      length-drop (position + length (tag_of f.in_think)) f.pending,
    )

none_in_nothing :
    (f : ThinkTagFilter)
    → length f.pending ≤ 0
    → find_ascii_case_insensitive f.pending (tag_of f.in_think) ≡ none
unfolding find_ascii_case_insensitive find to_ascii_lowercase
none_in_nothing f h = at f.pending h
  where
    at : (s : Str) → length s ≤ 0 → find (tag_of f.in_think) (to_ascii_lowercase s) ≡ none
    at [] h = refl
    at (c ∷ s) h = absurd (omega arith)

one_more : (n : ℕ) (f : ThinkTagFilter) → length f.pending ≤ n → push_loop (suc n) f ≡ push_loop n f
unfolding push_loop
one_more zero f h = ap (after_find f (push_loop zero)) (none_in_nothing f h)
one_more (suc n) f h = same (find_ascii_case_insensitive f.pending (tag_of f.in_think)) (one_more n)
  where
    same :
        (o : Option ℕ)
        → ((g : ThinkTagFilter) → length g.pending ≤ n → push_loop (suc n) g ≡ push_loop n g)
        → after_find f (push_loop (suc n)) o ≡ after_find f (push_loop n) o
    same none ih = refl
    same (some position) ih =
        ap (prepended (found_at f position).0) (ih (found_at f position).1 (shorter f position n h))

-- The length of the pending text is enough fuel for the loop over its tags.
pub push_loop_enough :
    (k : ℕ) (f : ThinkTagFilter)
    → push_loop (k + length f.pending) f ≡ push_loop (length f.pending) f
push_loop_enough zero f = ap (λ n. push_loop n f) (omega arith)
push_loop_enough (suc k) f =
    ap (λ n. push_loop n f) (omega arith)
    ∙ one_more (k + length f.pending) f (omega arith)
    ∙ push_loop_enough k f
