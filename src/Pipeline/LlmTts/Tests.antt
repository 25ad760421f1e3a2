-- ===== src/Pipeline/LlmTts/Tests.antt =====
-- A stream at concrete values: a client of whole sentences that gives four bytes for each.
use voice_ai.Base.{
  ℕ, ◌≡◌, refl, true, false, none, List, [], ◌∷◌, ◌*◌, ◌+◌, ◌-◌, ◌/◌, leb, ◌&&◌, arith, codes, Str,
}
use voice_ai.Crossfade.{
  FloatOps, new, feed, feed_head, feed_hold, begin_sentence, end_sentence, crossfade, mix, blend,
  finish,
}
use voice_ai.Pipeline.Sentence.{next_sentence_end}
use voice_ai.Pipeline.Text.{to_tts_text, is_emoji_char}
use voice_ai.Pipeline.Text.Buffer.{push, flush}
use voice_ai.Client.{ok, TtsEvent, TtsClient}
use voice_ai.Pipeline.LlmTts.{
  LlmReaderItem, event, Libraries, Vars, llm_tts_items, sentence_loop, start,
}
use voice_ai.Admin.Tts.{build_tts_sentence_stream}
use voice_ai.Admin.Same.{lines, with_text, tts_stream-llm_tts_items}
use voice_ai.Pipeline.LlmTts.Fuel.{sentence_loop_enough}
use voice_ai.Pipeline.LlmTts.Tidy.{Ran}
use voice_ai.Pipeline.LlmTts.Protocol.{IsMarked, llm_tts_items-Ran}

abbrev whole : FloatOps
whole = record {
  F32 = ℕ;
  of_usize = λ n. n;
  of_i16 = λ n. n;
  to_i16 = λ n. n;
  add = λ a b. a + b;
  sub = λ a b. a - b;
  mul = λ a b. a * b;
  div = λ a b. a / b;
}

abbrev libraries : Libraries
libraries = record {
  float = whole;
  debug = false;
  is_alphanumeric = λ c. leb 0x4E00 c && leb c 0x9FFF;
  base64 = λ bytes. bytes;
}

abbrev four_bytes : TtsEvent
four_bytes = record { seq = 1; bytes = 1 ∷ 0 ∷ 2 ∷ 0 ∷ []; is_last = true }

-- The state is the texts that were asked for.
abbrev sentences_client : TtsClient
sentences_client = record {
  World = List Str;
  Input = Unit;
  open_input_session = λ w sid voice. (w, ok none);
  synthesize = λ w sid text voice. (text ∷ w, ok (ok four_bytes ∷ []));
  send_text = λ w i text. (w, ok tt);
  flush = λ w i. (w, ok tt);
  events = λ w i. [];
  read = λ w i n. w;
  close = λ w i. w;
  finish = λ w i. w;
}

abbrev deltas_read : List LlmReaderItem
deltas_read =
    event (record { delta = codes "好的。我马上处"; is_final = false })
    ∷ event (record { delta = codes "理。谢谢"; is_final = true })
    ∷ []

llm_tts_items-Ran_example :
    let (out, vars, flow) =
      llm_tts_items libraries sentences_client
        (codes "s1")
        none
        deltas_read
        (start libraries sentences_client (codes "s1") none []) in
    Ran (IsMarked libraries sentences_client (codes "s1") none) 0 out vars.global_seq flow
llm_tts_items-Ran_example =
    llm_tts_items-Ran libraries sentences_client (codes "s1") none deltas_read []

-- The texts that are asked for, the last one first.
requests_example :
    (llm_tts_items libraries sentences_client
      (codes "s1")
      none
      deltas_read
      (start libraries sentences_client (codes "s1") none [])).1.world
    ≡ codes "谢谢" ∷ codes "好的。我马上处理。" ∷ []
unfolding llm_tts_items next_sentence_end push flush to_tts_text is_emoji_char feed feed_head
    feed_hold begin_sentence end_sentence crossfade mix blend finish
requests_example = refl

abbrev held : Vars sentences_client
held = record {
  sentence_buf = codes "好。是。";
  global_seq = 0;
  fader = new;
  short_sentence_buf = [];
  world = [];
}

sentence_loop_enough_example :
    sentence_loop libraries sentences_client (codes "s1") none 4 held
    ≡ sentence_loop libraries sentences_client (codes "s1") none 9 held
sentence_loop_enough_example =
    sentence_loop_enough libraries sentences_client (codes "s1") none 4 9 held (omega arith)
      (omega arith)

abbrev begun : Vars sentences_client
begun = record {
  sentence_buf = codes "好";
  global_seq = 0;
  fader = new;
  short_sentence_buf = [];
  world = [];
}

tts_stream-llm_tts_items_example :
    (build_tts_sentence_stream libraries sentences_client
      (codes "s1")
      none
      (with_text libraries sentences_client (codes "s1") none [] (codes "好的。谢谢"))).0
    ≡ lines
        (llm_tts_items libraries sentences_client
          (codes "s1")
          none
          (event (record { delta = codes "好的。谢谢"; is_final = true }) ∷ [])
          (start libraries sentences_client (codes "s1") none [])).0
tts_stream-llm_tts_items_example =
    tts_stream-llm_tts_items libraries sentences_client (codes "s1") none [] [] (codes "好的。谢谢") refl
