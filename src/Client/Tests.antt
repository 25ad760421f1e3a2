-- ===== src/Client/Tests.antt =====
-- The events of an answer and the filter of its reasoning on concrete bytes.
use voice_ai.Base.{
  ℕ, ◌≡◌, refl, true, false, none, some, List, [], ◌∷◌, map, concat, codes, to_ascii_lowercase,
}
use voice_ai.Client.{ok}
use voice_ai.Client.Think.{
  ThinkTagFilter, push, push_loop, keep_rest, find, find_ascii_case_insensitive,
  matching_tag_prefix_suffix_len, longest_match,
}
use voice_ai.Client.Sse.{ChunkJson, sse_events}
use voice_ai.Client.Sse.Chunks.{sse_events-concat}

abbrev fresh : ThinkTagFilter
fresh = record { pending = []; in_think = false }

split_tag : (push (push fresh (codes "hi<TH")).1 (codes "ink>no</think>yes<")).0 ≡ codes "yes"
unfolding push push_loop keep_rest find find_ascii_case_insensitive to_ascii_lowercase
    matching_tag_prefix_suffix_len longest_match
split_tag = refl

abbrev thinking : ThinkTagFilter
thinking = record { pending = codes "a</think>b<think>"; in_think = true }

-- A codec whose chunk is its own content.
abbrev plain_json : ChunkJson
plain_json = record {
  from_slice = λ bytes.
      ok (some (record { content = some bytes; refusal = none; finish_reason = none }), false);
}

abbrev pieces : List (List ℕ)
pieces = codes "dat" ∷ codes "a: he\ndata:llo" ∷ codes "\n\n" ∷ []

sse_events-concat_example :
    sse_events plain_json (map ok pieces) ≡ sse_events plain_json (ok (concat pieces) ∷ [])
sse_events-concat_example = sse_events-concat plain_json pieces
