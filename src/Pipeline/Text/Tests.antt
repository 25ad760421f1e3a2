-- ===== src/Pipeline/Text/Tests.antt =====
-- The examples of the unit tests of the source.
use voice_ai.Base.{
  length, ◌<◌, arith, ℕ, ◌≡◌, refl, codes, Bool, ◌&&◌, List, [], ◌∷◌, ◌++◌, map, concat, All, Str,
  trim, leb,
}
use mathlib.Core.List.{Sublist}
use voice_ai.Pipeline.Sentence.{IsFirstEnd, next_sentence_end, next_sentence_end-IsFirstEnd}
use voice_ai.Pipeline.Text.Buffer.{push_all, flush, given, IsLongEnough, requests_complete}
use voice_ai.Pipeline.Text.Shapes.{to_tts_text-shapes}
use voice_ai.Pipeline.Text.Inline.{strip_inline_markdown-unrolls, strip_inline_markdown-Sublist}
use voice_ai.Pipeline.Text.{
  to_tts_text, clean, is_emoji_char, is_incremental_decoration, inline_step, strip_loop,
  strip_inline_markdown,
}

markdown_example :
    to_tts_text (codes "## 标题\\n\\n**好的**，请查看[帮助文档](https://example.com)。") ≡ codes "标题 好的，请查看帮助文档。"
unfolding to_tts_text is_emoji_char
markdown_example = refl

emoji_example : to_tts_text (codes "我很开心😊，真的👍。") ≡ codes "我很开心，真的。"
unfolding to_tts_text is_emoji_char
emoji_example = refl

clean_example : clean (codes "请查看 [帮助](文档)😊**。") ≡ codes "请查看 帮助文档。"
unfolding clean is_emoji_char is_incremental_decoration
clean_example = refl

label_example : to_tts_text (codes "[**好**](u)") ≡ codes "**好**"
unfolding to_tts_text is_emoji_char
label_example = refl

strip_inline_markdown-unrolls_example :
    (length (inline_step 0x5B (codes "好](u)。")).1 < 7)
    × (strip_loop 9 (codes "[好](u)。")
        ≡ (inline_step 0x5B (codes "好](u)。")).0
          ++ strip_inline_markdown (inline_step 0x5B (codes "好](u)。")).1)
strip_inline_markdown-unrolls_example =
    strip_inline_markdown-unrolls 9 0x5B (codes "好](u)。") (omega arith)

-- A star and a large circle.
to_tts_text-shapes_example : to_tts_text (0x2B50 ∷ 0x2B55 ∷ []) ≡ 0x2B50 ∷ 0x2B55 ∷ []
to_tts_text-shapes_example = to_tts_text-shapes (0x2B50 ∷ 0x2B55 ∷ []) refl

strip_inline_markdown-Sublist_example :
    Sublist (strip_inline_markdown (codes "[好](u)*。")) (codes "[好](u)*。")
strip_inline_markdown-Sublist_example = strip_inline_markdown-Sublist (codes "[好](u)*。")

-- A stand-in for letters and digits.
abbrev letter : ℕ → Bool
letter c = leb 0x4E00 c && leb c 0x9FFF

abbrev two_sentences : List Str
two_sentences = codes "好的。" ∷ codes "我马上处理。" ∷ codes "嗯。" ∷ []

requests_complete_example :
    let (pending, requests) = push_all letter [] two_sentences in
    (concat (requests ++ given letter (flush letter pending).1) ≡ concat (map trim two_sentences))
    × All (IsLongEnough letter) requests
requests_complete_example = requests_complete letter two_sentences

next_sentence_end-IsFirstEnd_example :
    IsFirstEnd (codes "好。Ok.") 0 (next_sentence_end (codes "好。Ok."))
next_sentence_end-IsFirstEnd_example = next_sentence_end-IsFirstEnd (codes "好。Ok.")
