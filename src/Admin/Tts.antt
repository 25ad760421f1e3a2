-- ===== src/Admin/Tts.antt =====
-- crates/voice_server/src/admin_api/mod.rs: `build_tts_sentence_stream`, which speaks a given text. A
-- line with audio is an item `tts`, a line with an error an item `failed`; their JSON is left out. The
-- steps that it has in common with `llm_tts_items` are those of Pipeline/LlmTts.
use voice_ai.Base.{
  ℕ, zero, suc, true, Option, none, some, List, [], ◌∷◌, ◌++◌, length, if◌then◌else◌, Str, codes,
  trim,
}
use voice_ai.Crossfade.{finish}
use voice_ai.Client.{Result, ok, err, show_error, TtsEvent, TtsClient}
use voice_ai.Pipeline.Sentence.{next_sentence_end, split_at}
use voice_ai.Pipeline.Stream.{◌>>=◌, ◌>>◌, pure, or_panic}
use voice_ai.Pipeline.Text.{to_tts_text}
use voice_ai.Pipeline.Text.Buffer as Buffer
use voice_ai.Pipeline.LlmTts.{
  Libraries, Code, set_sentence_buf, get_sentence_buf, short_sentences, fade, give_tts, emit_pcm,
  begin_fade, feed_fade, end_fade, fail, tts_error, synthesize, whole_tail,
}

module _ (lib : Libraries) (tc : TtsClient) (sid : Str) (voice : Option Str) where
  unfoldable pub speak_lines : List (Result TtsEvent) → Code lib tc sid voice Unit
  speak_lines [] = pure tt
  speak_lines (err e ∷ more) = fail lib tc sid voice (codes "tts stream: " ++ show_error e) 1103
  speak_lines (ok t ∷ more) = do
    feed_fade lib tc sid voice t.bytes
    if t.is_last then pure tt else speak_lines more

  unfoldable pub speak_raw : Str → Code lib tc sid voice Unit
  speak_raw raw_sent = do
    merged ←
        short_sentences lib tc sid voice
          (λ b. Buffer.push lib.is_alphanumeric b (to_tts_text raw_sent))
    elim merged [
      | none ↦ pure tt
      | some sent ↦ (do
        called ← synthesize lib tc sid voice sent
        elim called [
          | err e ↦ fail lib tc sid voice (tts_error lib tc sid voice e) 1102
          | ok stream ↦ (do
            begin_fade lib tc sid voice
            speak_lines stream
            end_fade lib tc sid voice)
        ])
    ]

  -- `while let Some(end) = next_sentence_end(&buf)`, as in Pipeline/LlmTts.
  unfoldable pub text_loop : ℕ → Code lib tc sid voice Unit
  text_loop zero = pure tt
  text_loop (suc fuel) = do
    buf ← get_sentence_buf lib tc sid voice
    elim (next_sentence_end buf) [
      | none ↦ pure tt
      | some end ↦ (do
        (raw_sent, rest) ← or_panic (split_at end buf)
        set_sentence_buf lib tc sid voice rest
        speak_raw raw_sent
        text_loop fuel)
    ]

  abbrev pub close_stream : Code lib tc sid voice Unit
  close_stream = do
    last ← fade lib tc sid voice (λ f. some (finish f))
    emit_pcm lib tc sid voice last
    give_tts lib tc sid voice [] true

  abbrev pub last_text : Code lib tc sid voice Unit
  last_text = do
    buf ← get_sentence_buf lib tc sid voice
    whole_tail lib tc sid voice (to_tts_text (trim buf))

  -- The text is what the buffer holds at the start.
  unfoldable pub build_tts_sentence_stream : Code lib tc sid voice Unit
  build_tts_sentence_stream = do
    text ← get_sentence_buf lib tc sid voice
    text_loop (length text)
    last_text
    close_stream
