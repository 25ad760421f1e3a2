-- ===== src/Pipeline/LlmTts/Protocol.antt =====
-- Every piece of the stream keeps to the protocol of the items.
use voice_ai.Base.{
  ℕ, zero, suc, ◌+◌, ◌%◌, ◌^◌, refl, Bool, true, false, not, ◌&&◌, ◌||◌, Option, none, some, List,
  [], ◌∷◌, ◌++◌, length, is_empty, if◌then◌else◌, Str, codes, trim,
}
use voice_ai.Crossfade.{SentenceCrossfader, begin_sentence, feed, end_sentence, finish}
use voice_ai.Client.{ClientError, show_error, Result, ok, err, TtsEvent, TtsClient}
use voice_ai.Pipeline.Sentence.{next_sentence_end, split_at, str_len}
use voice_ai.Pipeline.Stream.{Flow, goes, ◌>>=◌, pure, give, or_panic}
use voice_ai.Pipeline.Text.{to_tts_text, clean}
use voice_ai.Pipeline.Text.Buffer as Buffer
use voice_ai.Pipeline.LlmTts.{
  LlmTtsItem, llm, tts, LlmReaderItem, event, call_failed, stream_failed, Libraries, Vars, Code,
  call, set_sentence_buf, get_sentence_buf, short_sentences, fade, give_tts, overflows, numbered,
  emit_pcm, begin_fade, feed_fade, end_fade, fail, feed_events, speak_events, read_utterance,
  flush_incremental_sentence, close_and_fail, tts_error, send_text, slice, speak_segment,
  send_remaining, incremental_delta, speak_stream, synthesize, speak_sentence, sentence_loop,
  whole_delta, close_if_open, delta_step, deltas, tail_stream, incremental_tail, push_or_flush,
  whole_tail, speak_tail, finish_if_open, llm_tts_items, start,
}
use voice_ai.Pipeline.LlmTts.Tidy.{
  ArePlain, EndsWith, Ran, RunsTo, IsTidy, RunsTo-bind, ◌then◌, EndsWith-append,
}

module _ (lib : Libraries) (tc : TtsClient) (sid : Str) (voice : Option Str) where
  or_panic-IsTidy : {A : Type 0} (o : Option A) → IsTidy {tc = tc} (or_panic o)
  or_panic-IsTidy none = record { runs = λ s. (refl, refl) }
  or_panic-IsTidy (some a) = record { runs = λ s. (refl, refl) }

  pure-IsTidy : {A : Type 0} (a : A) → IsTidy {tc = tc} (pure a)
  pure-IsTidy a = record { runs = λ s. (refl, refl) }

  fade-IsTidy :
      (f : SentenceCrossfader → Option (SentenceCrossfader × List ℕ))
      → IsTidy (fade lib tc sid voice f)
  fade-IsTidy f = record {
    runs = λ s.
        elim (f s.fader)
          as (λ o. Ran ArePlain s.global_seq (faded s o).0 (faded s o).1.global_seq (faded s o).2) [
            | none ↦ (refl, refl)
            | some (g, pcm) ↦ (refl, refl)
          ];
  }
    where
      faded :
          (s : Vars tc)
          → Option (SentenceCrossfader × List ℕ)
          → List LlmTtsItem × Vars tc × Flow (List ℕ)
      faded s o = elim o [
        | none ↦ or_panic none s
        | some (g, pcm) ↦ ([], record s { fader = g }, goes pcm)
      ]

  numbered-IsTidy :
      (b : Bool) (audio : Str) (s : Vars tc)
      → (let (out, s', flow) = numbered lib tc sid voice b audio false s in
          Ran ArePlain s.global_seq out s'.global_seq flow)
  numbered-IsTidy true audio s = (refl, refl)
  numbered-IsTidy false audio s = ((refl, refl), refl)

  emit_pcm-IsTidy : (pcm : List ℕ) → IsTidy (emit_pcm lib tc sid voice pcm)
  unfolding emit_pcm
  emit_pcm-IsTidy [] = record { runs = λ s. (refl, refl) }
  emit_pcm-IsTidy (b ∷ pcm) = record {
    runs = λ s. numbered-IsTidy (overflows lib tc sid voice s.global_seq) (lib.base64 (b ∷ pcm)) s;
  }

  feed_fade-IsTidy : (bytes : List ℕ) → IsTidy (feed_fade lib tc sid voice bytes)
  unfolding feed_fade
  feed_fade-IsTidy bytes = fade-IsTidy (λ f. feed lib.float lib.debug f bytes) then emit_pcm-IsTidy

  end_fade-IsTidy : IsTidy (end_fade lib tc sid voice)
  unfolding end_fade
  end_fade-IsTidy = fade-IsTidy (λ f. end_sentence lib.float lib.debug f) then emit_pcm-IsTidy

  begin_fade-IsTidy : IsTidy (begin_fade lib tc sid voice)
  unfolding begin_fade
  begin_fade-IsTidy = fade-IsTidy (λ f. some (begin_sentence f, []))

  fail-IsTidy : (A : Type 0) (e : Str) (c : ℕ) → IsTidy (fail lib tc sid voice {A = A} e c)
  unfolding fail
  fail-IsTidy A e c = record { runs = λ s. (refl, (e, c, ([], refl, refl))) }

  feed_events-IsTidy : (ts : List TtsEvent) → IsTidy (feed_events lib tc sid voice ts)
  unfolding feed_events
  feed_events-IsTidy [] = pure-IsTidy tt
  feed_events-IsTidy (t ∷ ts) = feed_fade-IsTidy t.bytes then λ _. feed_events-IsTidy ts

  speak_events-IsTidy : (ts : List TtsEvent) → IsTidy (speak_events lib tc sid voice ts)
  unfolding speak_events
  speak_events-IsTidy ts =
      begin_fade-IsTidy then λ _. (feed_events-IsTidy ts then λ _. end_fade-IsTidy)

  call-IsTidy : {A : Type 0} (f : tc.World → tc.World × A) → IsTidy (call lib tc sid voice f)
  call-IsTidy f = record { runs = λ s. (refl, refl) }

  set-IsTidy : (b : Str) → IsTidy (set_sentence_buf lib tc sid voice b)
  set-IsTidy b = record { runs = λ s. (refl, refl) }

  get-IsTidy : IsTidy (get_sentence_buf lib tc sid voice)
  get-IsTidy = record { runs = λ s. (refl, refl) }

  short-IsTidy : (f : Str → Str × Option Str) → IsTidy (short_sentences lib tc sid voice f)
  short-IsTidy f = record { runs = λ s. (refl, refl) }

  give_llm-IsTidy : (d : Str) (f : Bool) → IsTidy {tc = tc} (give (llm d f))
  give_llm-IsTidy d f = record { runs = λ s. (refl, refl) }

  result-IsTidy :
      {A : Type 0} {B : Type 0} {f : A → Code lib tc sid voice B}
      {g : ClientError → Code lib tc sid voice B} (r : Result A)
      → ((a : A) → IsTidy (f a))
      → ((e : ClientError) → IsTidy (g e))
      → IsTidy (elim r [ ok a ↦ f a | err e ↦ g e ])
  result-IsTidy (ok a) h k = h a
  result-IsTidy (err e) h k = k e

  option-IsTidy :
      {A : Type 0} {B : Type 0} {f : A → Code lib tc sid voice B} {m : Code lib tc sid voice B}
      (o : Option A)
      → ((a : A) → IsTidy (f a))
      → IsTidy m
      → IsTidy (elim o [ some a ↦ f a | none ↦ m ])
  option-IsTidy none h k = k
  option-IsTidy (some a) h k = h a

  if-IsTidy :
      {A : Type 0} {m n : Code lib tc sid voice A} (b : Bool)
      → IsTidy m
      → IsTidy n
      → IsTidy (if b then m else n)
  if-IsTidy true h k = h
  if-IsTidy false h k = k

  flush-IsTidy : (i : tc.Input) → IsTidy (flush_incremental_sentence lib tc sid voice i)
  unfolding flush_incremental_sentence
  flush-IsTidy i = call-IsTidy (λ w. tc.flush w i) then λ flushed.
      result-IsTidy flushed (λ _. call-IsTidy (read_utterance lib tc sid voice i))
        (λ e. pure-IsTidy (err e))

  close_and_fail-IsTidy :
      (A : Type 0) (i : tc.Input) (e : Str) (c : ℕ)
      → IsTidy (close_and_fail lib tc sid voice {A = A} i e c)
  unfolding close_and_fail
  close_and_fail-IsTidy A i e c = call-IsTidy (λ w. (tc.close w i, tt)) then λ _. fail-IsTidy A e c

  send_text-IsTidy : (i : tc.Input) (text : Str) → IsTidy (send_text lib tc sid voice i text)
  unfolding send_text
  send_text-IsTidy i text = call-IsTidy (λ w. tc.send_text w i text) then λ sent.
      result-IsTidy sent (λ _. pure-IsTidy tt)
        (λ e. close_and_fail-IsTidy Unit i (tts_error lib tc sid voice e) 1004)

  speak_segment-IsTidy :
      (i : tc.Input) (segment : Str) → IsTidy (speak_segment lib tc sid voice i segment)
  unfolding speak_segment
  speak_segment-IsTidy i segment =
      if-IsTidy (is_empty segment) (pure-IsTidy tt) (send_text-IsTidy i segment) then λ _.
      (set-IsTidy [] then λ _.
      (flush-IsTidy i then λ flushed.
      result-IsTidy flushed speak_events-IsTidy
        (λ e. close_and_fail-IsTidy Unit i (tts_error lib tc sid voice e) 1004)))

  send_remaining-IsTidy :
      (fuel : ℕ) (i : tc.Input) (remaining : Str)
      → IsTidy (send_remaining lib tc sid voice fuel i remaining)
  unfolding send_remaining
  send_remaining-IsTidy zero i [] = pure-IsTidy tt
  send_remaining-IsTidy (suc fuel) i [] = pure-IsTidy tt
  send_remaining-IsTidy zero i (c ∷ remaining) = pure-IsTidy tt
  send_remaining-IsTidy (suc fuel) i (c ∷ remaining) = get-IsTidy then λ buf.
      option-IsTidy (next_sentence_end (buf ++ (c ∷ remaining)))
        (λ end.
          or_panic-IsTidy (slice lib tc sid voice (str_len buf) end (buf ++ (c ∷ remaining)))
          then λ (segment, rest).
              (speak_segment-IsTidy i segment then λ _. send_remaining-IsTidy fuel i rest))
        (send_text-IsTidy i (c ∷ remaining) then λ _. set-IsTidy (buf ++ (c ∷ remaining)))

  incremental_delta-IsTidy :
      (i : tc.Input) (delta : Str) → IsTidy (incremental_delta lib tc sid voice i delta)
  unfolding incremental_delta
  incremental_delta-IsTidy i delta = get-IsTidy then λ buf.
      if-IsTidy
        (not (is_empty (clean delta))
          && (not (is_empty (trim (clean delta))) || not (is_empty (trim buf))))
        (send_remaining-IsTidy (length (clean delta)) i (clean delta)) (pure-IsTidy tt)

  speak_stream-IsTidy :
      (stream : List (Result TtsEvent)) → IsTidy (speak_stream lib tc sid voice stream)
  unfolding speak_stream
  speak_stream-IsTidy [] = pure-IsTidy tt
  speak_stream-IsTidy (err e ∷ more) = fail-IsTidy Unit (codes "tts stream: " ++ show_error e) 1005
  speak_stream-IsTidy (ok t ∷ more) = feed_fade-IsTidy t.bytes then λ _.
      if-IsTidy t.is_last (pure-IsTidy tt) (speak_stream-IsTidy more)

  tail_stream-IsTidy :
      (stream : List (Result TtsEvent)) → IsTidy (tail_stream lib tc sid voice stream)
  unfolding tail_stream
  tail_stream-IsTidy [] = pure-IsTidy tt
  tail_stream-IsTidy (err e ∷ more) = pure-IsTidy tt
  tail_stream-IsTidy (ok t ∷ more) = feed_fade-IsTidy t.bytes then λ _.
      if-IsTidy t.is_last (pure-IsTidy tt) (tail_stream-IsTidy more)

  synthesize-IsTidy : (text : Str) → IsTidy (synthesize lib tc sid voice text)
  unfolding synthesize
  synthesize-IsTidy text = call-IsTidy (λ w. tc.synthesize w sid text voice)

  speak_sentence-IsTidy : (raw : Str) → IsTidy (speak_sentence lib tc sid voice raw)
  unfolding speak_sentence
  speak_sentence-IsTidy raw =
      short-IsTidy (λ b. Buffer.push lib.is_alphanumeric b (to_tts_text raw)) then λ merged.
      option-IsTidy merged
        (λ sent. synthesize-IsTidy sent then λ called.
          result-IsTidy called
            (λ stream.
              begin_fade-IsTidy then λ _. (speak_stream-IsTidy stream then λ _. end_fade-IsTidy))
            (λ e. fail-IsTidy Unit (tts_error lib tc sid voice e) 1004))
        (pure-IsTidy tt)

  sentence_loop-IsTidy : (fuel : ℕ) → IsTidy (sentence_loop lib tc sid voice fuel)
  unfolding sentence_loop
  sentence_loop-IsTidy zero = pure-IsTidy tt
  sentence_loop-IsTidy (suc fuel) = get-IsTidy then λ buf.
      option-IsTidy (next_sentence_end buf)
        (λ end. or_panic-IsTidy (split_at end buf) then λ (raw, rest).
          (set-IsTidy rest then λ _.
          (speak_sentence-IsTidy raw then λ _. sentence_loop-IsTidy fuel)))
        (pure-IsTidy tt)

  delta_step-IsTidy :
      (session : Option tc.Input) (delta : Str) → IsTidy (delta_step lib tc sid voice session delta)
  unfolding delta_step whole_delta
  delta_step-IsTidy (some i) delta = incremental_delta-IsTidy i delta
  delta_step-IsTidy none delta = get-IsTidy then λ buf.
      (set-IsTidy (buf ++ delta) then λ _. sentence_loop-IsTidy (length (buf ++ delta)))

  close_if_open-IsTidy :
      (session : Option tc.Input) → IsTidy (close_if_open lib tc sid voice session)
  close_if_open-IsTidy none = pure-IsTidy tt
  close_if_open-IsTidy (some i) = call-IsTidy (λ w. (tc.close w i, tt))

  finish_if_open-IsTidy :
      (session : Option tc.Input) → IsTidy (finish_if_open lib tc sid voice session)
  finish_if_open-IsTidy none = pure-IsTidy tt
  finish_if_open-IsTidy (some i) = call-IsTidy (λ w. (tc.finish w i, tt))

  deltas-IsTidy :
      (session : Option tc.Input) (rx : List LlmReaderItem)
      → IsTidy (deltas lib tc sid voice session rx)
  unfolding deltas
  deltas-IsTidy session [] = pure-IsTidy tt
  deltas-IsTidy session (call_failed e ∷ more) = close_if_open-IsTidy session then λ _.
      fail-IsTidy Unit (codes "llm error: " ++ show_error e) 1002
  deltas-IsTidy session (stream_failed e ∷ more) = close_if_open-IsTidy session then λ _.
      fail-IsTidy Unit (codes "llm stream: " ++ show_error e) 1003
  deltas-IsTidy session (event e ∷ more) = give_llm-IsTidy e.delta e.is_final then λ _.
      (delta_step-IsTidy session e.delta then λ _.
      if-IsTidy e.is_final (pure-IsTidy tt) (deltas-IsTidy session more))

  incremental_tail-IsTidy :
      (i : tc.Input) (tail : Str) → IsTidy (incremental_tail lib tc sid voice i tail)
  unfolding incremental_tail
  incremental_tail-IsTidy i [] = pure-IsTidy tt
  incremental_tail-IsTidy i (c ∷ tail) = flush-IsTidy i then λ flushed.
      result-IsTidy flushed speak_events-IsTidy
        (λ e. close_and_fail-IsTidy Unit i (codes "tts stream failed") 1005)

  whole_tail-IsTidy : (tail : Str) → IsTidy (whole_tail lib tc sid voice tail)
  unfolding whole_tail
  whole_tail-IsTidy tail = short-IsTidy (push_or_flush lib tc sid voice tail) then λ last.
      option-IsTidy last
        (λ text. synthesize-IsTidy text then λ called.
          result-IsTidy called
            (λ stream.
              begin_fade-IsTidy then λ _. (tail_stream-IsTidy stream then λ _. end_fade-IsTidy))
            (λ e. pure-IsTidy tt))
        (pure-IsTidy tt)

  speak_tail-IsTidy : (session : Option tc.Input) → IsTidy (speak_tail lib tc sid voice session)
  unfolding speak_tail
  speak_tail-IsTidy session = get-IsTidy then λ buf.
      option-IsTidy session (λ i. incremental_tail-IsTidy i (trim buf))
        (whole_tail-IsTidy (to_tts_text (trim buf)))

  -- The last item is the end marker.
  abbrev pub IsMarked : List LlmTtsItem → Type 0
  IsMarked out = (k : ℕ) × EndsWith out (tts k [] true)

  IsMarked-append : (is js : List LlmTtsItem) → ArePlain is → IsMarked js → IsMarked (is ++ js)
  IsMarked-append is js h (k, ends) = (k, EndsWith-append is js (tts k [] true) h ends)

  infixr 4 ◌before◌
  ◌before◌ :
      {A : Type 0} {m : Code lib tc sid voice A} {f : A → Code lib tc sid voice Unit}
      → IsTidy m
      → ((a : A) → RunsTo IsMarked (f a))
      → RunsTo IsMarked (m >>= f)
  ◌before◌ h k = RunsTo-bind IsMarked IsMarked-append h k

  fail-Marked : (e : Str) (c : ℕ) → RunsTo IsMarked (fail lib tc sid voice {A = Unit} e c)
  unfolding fail
  fail-Marked e c = record { runs = λ s. (refl, (e, c, ([], refl, refl))) }

  ended-Marked : RunsTo IsMarked (give_tts lib tc sid voice [] true)
  ended-Marked = record { runs = λ s. ended (overflows lib tc sid voice s.global_seq) s }
    where
      ended :
          (b : Bool) (s : Vars tc)
          → (let (out, s', flow) = numbered lib tc sid voice b [] true s in
              Ran IsMarked s.global_seq out s'.global_seq flow)
      ended true s = (refl, refl)
      ended false s = ((refl, refl), ((s.global_seq + 1) % 2 ^ 32, ([], refl, refl)))

  items-Marked : (rx : List LlmReaderItem) → RunsTo IsMarked (llm_tts_items lib tc sid voice rx)
  unfolding llm_tts_items
  items-Marked rx = call-IsTidy (λ w. tc.open_input_session w sid voice) before λ opened. go opened
    where
      go :
          (opened : Result (Option tc.Input))
          → RunsTo IsMarked (elim opened [
            | err e ↦ fail lib tc sid voice (tts_error lib tc sid voice e) 1004
            | ok session ↦ deltas lib tc sid voice session rx >>= λ _.
                (speak_tail lib tc sid voice session >>= λ _.
                (finish_if_open lib tc sid voice session >>= λ _.
                (fade lib tc sid voice (λ f. some (finish f)) >>= λ last.
                (emit_pcm lib tc sid voice last >>= λ _. give_tts lib tc sid voice [] true))))
          ])
      go (err e) = fail-Marked (tts_error lib tc sid voice e) 1004
      go (ok session) = deltas-IsTidy session rx before λ _. speak_tail-IsTidy session before λ _.
          finish_if_open-IsTidy session before λ _.
          fade-IsTidy (λ f. some (finish f)) before λ last.
          emit_pcm-IsTidy last before λ _. ended-Marked

  -- The audio items of a stream are numbered one after the other from 1 on (modulo 2^32), in both
  -- ways of synthesis and whatever the clients answer. If the code runs to its end, the last item is
  -- the end marker, with no audio; if it returns early, the last item is `Failed`; and no other item
  -- is one of these. Where it panics, no item is.
  pub llm_tts_items-Ran :
      (rx : List LlmReaderItem) (w : tc.World)
      → let (out, vars, flow) = llm_tts_items lib tc sid voice rx (start lib tc sid voice w) in
        Ran IsMarked 0 out vars.global_seq flow
  llm_tts_items-Ran rx w = (items-Marked rx).runs (start lib tc sid voice w)
