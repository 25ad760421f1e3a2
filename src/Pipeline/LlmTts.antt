-- ===== src/Pipeline/LlmTts.antt =====
-- crates/voice_server/src/pipeline/llm_tts.rs: the stream of items that a prompt gives, from the deltas
-- of the language model to numbered audio. The synthesis client is a parameter, over the state of its
-- provider; so are `f32`, the letters and digits of Unicode, and base64. Logging is left out.
pub mod Tidy
pub mod Protocol
pub mod Fuel
pub mod FuelParts
mod Tests
use voice_ai.Base.{
  leb, ℕ, zero, suc, ◌+◌, ◌%◌, ◌^◌, Bool, true, false, not, ◌&&◌, ◌||◌, Option, none, some, List,
  [], ◌∷◌, ◌++◌, length, is_empty, if◌then◌else◌, Str, codes, trim,
}
use voice_ai.Base as Base
use voice_ai.Crossfade.{FloatOps, SentenceCrossfader, begin_sentence, feed, end_sentence, finish}
use voice_ai.Crossfade as Crossfade
use voice_ai.Client.{ClientError, ws, show_error, Result, ok, err, LlmEvent, TtsEvent, TtsClient}
use voice_ai.Pipeline.Sentence.{next_sentence_end, split_at, str_len}
use voice_ai.Pipeline.Stream.{panicked, Stream, ◌>>=◌, ◌>>◌, pure, give, return_now, or_panic, goes}
use voice_ai.Pipeline.Text.{to_tts_text, clean}
use voice_ai.Pipeline.Text.Buffer as Buffer

pub data LlmTtsItem : Type 0 where
  llm : (delta : Str) (is_final : Bool) → LlmTtsItem
  tts : (seq : ℕ) (audio : Str) (is_last : Bool) → LlmTtsItem
  failed : (error : Str) (code : ℕ) → LlmTtsItem

pub data LlmReaderItem : Type 0 where
  event : LlmEvent → LlmReaderItem
  call_failed stream_failed : ClientError → LlmReaderItem

-- What `spawn_llm_reader` sends for the answer of the language model, while the stream is not dropped.
unfoldable pub read_events : List (Result LlmEvent) → List LlmReaderItem
read_events [] = []
read_events (ok e ∷ more) =
    let rest = read_events more in event e ∷ (if e.is_final then [] else rest)
read_events (err e ∷ more) = stream_failed e ∷ []

unfoldable pub read_llm : Result (List (Result LlmEvent)) → List LlmReaderItem
unfolding read_events
read_llm (ok stream) = read_events stream
read_llm (err e) = call_failed e ∷ []

-- What the code takes from the libraries.
pub record Libraries : Type 1 where
  pub float : FloatOps
  pub debug : Bool
  pub is_alphanumeric : ℕ → Bool
  pub base64 : List ℕ → Str

-- The variables of the stream, and the state of the provider.
pub record Vars (tc : TtsClient) : Type 0 where
  pub sentence_buf : Str
  pub global_seq : ℕ
  pub fader : SentenceCrossfader
  pub short_sentence_buf : Str
  pub world : tc.World

module _ (lib : Libraries) (tc : TtsClient) (sid : Str) (voice : Option Str) where
  abbrev pub Code : Type 0 → Type 0
  Code A = Stream LlmTtsItem (Vars tc) A

  -- A call of the client.
  abbrev pub call : {A : Type 0} → (tc.World → tc.World × A) → Code A
  call f = λ s. let (w, a) = f s.world in ([], record s { world = w }, goes a)

  abbrev pub set_sentence_buf : Str → Code Unit
  set_sentence_buf b = λ s. ([], record s { sentence_buf = b }, goes tt)

  abbrev pub get_sentence_buf : Code Str
  get_sentence_buf = λ s. ([], s, goes s.sentence_buf)

  abbrev pub short_sentences : (Str → Str × Option Str) → Code (Option Str)
  short_sentences f = λ s.
      let (b, out) = f s.short_sentence_buf in ([], record s { short_sentence_buf = b }, goes out)

  abbrev pub fade : (SentenceCrossfader → Option (SentenceCrossfader × List ℕ)) → Code (List ℕ)
  fade f = λ s. elim (f s.fader) [
    | none ↦ or_panic none s
    | some (g, pcm) ↦ ([], record s { fader = g }, goes pcm)
  ]

  -- `global_seq += 1`, of a `u32`, panics on overflow where the debug assertions are compiled in, and
  -- wraps elsewhere.
  abbrev pub overflows : ℕ → Bool
  overflows n = lib.debug && leb (2 ^ 32) (n + 1)

  -- An item with the new number.
  abbrev pub numbered : Bool → Str → Bool → Code Unit
  numbered true audio is_last = λ s. ([], s, panicked)
  numbered false audio is_last = λ s.
      let n = (s.global_seq + 1) % 2 ^ 32 in
      (tts n audio is_last ∷ [], record s { global_seq = n }, goes tt)

  abbrev pub give_tts : Str → Bool → Code Unit
  give_tts audio is_last = λ s. numbered (overflows s.global_seq) audio is_last s

  unfoldable pub emit_pcm : List ℕ → Code Unit
  emit_pcm pcm = if is_empty pcm then pure tt else give_tts (lib.base64 pcm) false

  unfoldable pub begin_fade : Code (List ℕ)
  begin_fade = fade (λ f. some (begin_sentence f, []))

  unfoldable pub feed_fade : List ℕ → Code Unit
  unfolding emit_pcm
  feed_fade bytes = do pcm ← fade (λ f. feed lib.float lib.debug f bytes); emit_pcm pcm

  unfoldable pub end_fade : Code Unit
  unfolding emit_pcm
  end_fade = do pcm ← fade (end_sentence lib.float lib.debug); emit_pcm pcm

  -- `yield Failed; return`
  unfoldable pub fail : {A : Type 0} → Str → ℕ → Code A
  fail error code = do give (failed error code); return_now

  -- One `feed` for each event.
  unfoldable pub feed_events : List TtsEvent → Code Unit
  unfolding feed_fade
  feed_events [] = pure tt
  feed_events (t ∷ ts) = do feed_fade t.bytes; feed_events ts

  -- One sentence of events that have all arrived.
  unfoldable pub speak_events : List TtsEvent → Code Unit
  unfolding begin_fade feed_events end_fade
  speak_events events = do begin_fade; feed_events events; end_fade

  -- The events up to the last one of the utterance, of those that the session delivers.
  unfoldable pub take_events : List (Result TtsEvent) → ℕ × Result (List TtsEvent)
  take_events [] = (0, err (ws (codes "TTS stream closed")))
  take_events (err e ∷ more) = (1, err e)
  take_events (ok t ∷ more) =
      let (n, rest) = take_events more in
      if t.is_last
      then (1, ok (t ∷ []))
      else (suc n, elim rest [ ok ts ↦ ok (t ∷ ts) | err e ↦ err e ])

  unfoldable pub read_utterance : tc.Input → tc.World → tc.World × Result (List TtsEvent)
  unfolding take_events
  read_utterance session w =
      let (n, result) = take_events (tc.events w session) in (tc.read w session n, result)

  unfoldable pub flush_incremental_sentence : tc.Input → Code (Result (List TtsEvent))
  unfolding read_utterance
  flush_incremental_sentence session = do
    flushed ← call (λ w. tc.flush w session)
    elim flushed [ err e ↦ pure (err e) | ok _ ↦ call (read_utterance session) ]

  abbrev pub close : tc.Input → Code Unit
  close session = call (λ w. (tc.close w session, tt))

  -- An error of the session: it is closed, and the stream ends.
  unfoldable pub close_and_fail : {A : Type 0} → tc.Input → Str → ℕ → Code A
  unfolding fail
  close_and_fail session error code = do close session; fail error code

  abbrev pub tts_error : ClientError → Str
  tts_error e = codes "tts error: " ++ show_error e

  unfoldable pub send_text : tc.Input → Str → Code Unit
  unfolding close_and_fail
  send_text session text = do
    sent ← call (λ w. tc.send_text w session text)
    elim sent [ ok _ ↦ pure tt | err e ↦ close_and_fail session (tts_error e) 1004 ]

  -- `combined[start..end]` and `combined[end..]`
  unfoldable pub slice : ℕ → ℕ → Str → Option (Str × Str)
  unfolding split_at
  slice start end s = elim (split_at end s) [
    | none ↦ none
    | some (front, rest) ↦ elim (split_at start front) [
      | none ↦ none
      | some (skipped, part) ↦ some (part, rest)
    ]
  ]

  -- The sentence that ends in this delta is sent and spoken.
  unfoldable pub speak_segment : tc.Input → Str → Code Unit
  unfolding send_text flush_incremental_sentence speak_events close_and_fail
  speak_segment session segment = do
    if is_empty segment then pure tt else send_text session segment
    set_sentence_buf []
    flushed ← flush_incremental_sentence session
    elim flushed [
      | ok events ↦ speak_events events
      | err e ↦ close_and_fail session (tts_error e) 1004
    ]

  -- `while !remaining.is_empty()`: each round takes something of `remaining`, and its length is
  -- enough fuel.
  unfoldable pub send_remaining : ℕ → tc.Input → Str → Code Unit
  unfolding slice speak_segment send_text
  send_remaining fuel session [] = pure tt
  send_remaining zero session (c ∷ remaining) = pure tt
  send_remaining (suc fuel) session (c ∷ remaining) = do
    buf ← get_sentence_buf
    let combined = buf ++ (c ∷ remaining)
    elim (next_sentence_end combined) [
      | some end ↦ (do
        (segment, rest) ← or_panic (slice (str_len buf) end combined)
        speak_segment session segment
        send_remaining fuel session rest)
      | none ↦ (do send_text session (c ∷ remaining); set_sentence_buf combined)
    ]

  -- A delta, where the client takes text in parts.
  unfoldable pub incremental_delta : tc.Input → Str → Code Unit
  unfolding send_remaining
  incremental_delta session delta = do
    buf ← get_sentence_buf
    let cleaned = clean delta
    if not (is_empty cleaned) && (not (is_empty (trim cleaned)) || not (is_empty (trim buf)))
        then send_remaining (length cleaned) session cleaned
        else pure tt

  -- The audio of one sentence, as it arrives.
  unfoldable pub speak_stream : List (Result TtsEvent) → Code Unit
  unfolding feed_fade fail
  speak_stream [] = pure tt
  speak_stream (err e ∷ more) = fail (codes "tts stream: " ++ show_error e) 1005
  speak_stream (ok t ∷ more) = do
    feed_fade t.bytes
    if t.is_last then pure tt else speak_stream more

  unfoldable pub synthesize : Str → Code (Result (List (Result TtsEvent)))
  synthesize text = call (λ w. tc.synthesize w sid text voice)

  -- One sentence of the text: cleaned, merged with short ones before it, and spoken.
  unfoldable pub speak_sentence : Str → Code Unit
  unfolding synthesize fail begin_fade speak_stream end_fade
  speak_sentence raw_sent = do
    merged ← short_sentences (λ b. Buffer.push lib.is_alphanumeric b (to_tts_text raw_sent))
    elim merged [
      | none ↦ pure tt
      | some sent ↦ (do
        called ← synthesize sent
        elim called [
          | err e ↦ fail (tts_error e) 1004
          | ok stream ↦ (do begin_fade; speak_stream stream; end_fade)
        ])
    ]

  -- `while let Some(end) = next_sentence_end(&sentence_buf)`: each round takes a sentence out of the
  -- buffer, and its length is enough fuel.
  unfoldable pub sentence_loop : ℕ → Code Unit
  unfolding speak_sentence
  sentence_loop zero = pure tt
  sentence_loop (suc fuel) = do
    buf ← get_sentence_buf
    elim (next_sentence_end buf) [
      | none ↦ pure tt
      | some end ↦ (do
        (raw_sent, rest) ← or_panic (split_at end buf)
        set_sentence_buf rest
        speak_sentence raw_sent
        sentence_loop fuel)
    ]

  -- A delta, where the client takes whole sentences.
  unfoldable pub whole_delta : Str → Code Unit
  unfolding sentence_loop
  whole_delta delta = do
    buf ← get_sentence_buf
    set_sentence_buf (buf ++ delta)
    sentence_loop (length (buf ++ delta))

  abbrev pub close_if_open : Option tc.Input → Code Unit
  close_if_open none = pure tt
  close_if_open (some session) = close session

  unfoldable pub delta_step : Option tc.Input → Str → Code Unit
  unfolding incremental_delta whole_delta
  delta_step (some session) delta = incremental_delta session delta
  delta_step none delta = whole_delta delta

  -- `while let Some(item) = llm_rx.recv()`
  unfoldable pub deltas : Option tc.Input → List LlmReaderItem → Code Unit
  unfolding delta_step fail
  deltas session [] = pure tt
  deltas session (call_failed e ∷ more) = do
    close_if_open session
    fail (codes "llm error: " ++ show_error e) 1002
  deltas session (stream_failed e ∷ more) = do
    close_if_open session
    fail (codes "llm stream: " ++ show_error e) 1003
  deltas session (event e ∷ more) = do
    give (llm e.delta e.is_final)
    delta_step session e.delta
    if e.is_final then pure tt else deltas session more

  -- The audio of the last sentence: an error only ends it.
  unfoldable pub tail_stream : List (Result TtsEvent) → Code Unit
  unfolding feed_fade
  tail_stream [] = pure tt
  tail_stream (err e ∷ more) = pure tt
  tail_stream (ok t ∷ more) = do feed_fade t.bytes; if t.is_last then pure tt else tail_stream more

  -- What is left without the end of a sentence.
  unfoldable pub incremental_tail : tc.Input → Str → Code Unit
  unfolding flush_incremental_sentence speak_events close_and_fail
  incremental_tail session [] = pure tt
  incremental_tail session (c ∷ tail) = do
    flushed ← flush_incremental_sentence session
    elim flushed [
      | ok events ↦ speak_events events
      | err e ↦ close_and_fail session (codes "tts stream failed") 1005
    ]

  -- `short_sentence_buf.push(&tail).or_else(|| short_sentence_buf.flush())`
  unfoldable pub push_or_flush : Str → Str → Str × Option Str
  push_or_flush tail b =
      let (kept, out) = Buffer.push lib.is_alphanumeric b tail in
      elim out [ some t ↦ (kept, some t) | none ↦ Buffer.flush lib.is_alphanumeric kept ]

  unfoldable pub whole_tail : Str → Code Unit
  unfolding push_or_flush synthesize begin_fade tail_stream end_fade
  whole_tail tail = do
    last ← short_sentences (push_or_flush tail)
    elim last [
      | none ↦ pure tt
      | some text ↦ (do
        called ← synthesize text
        elim called [ err e ↦ pure tt | ok stream ↦ (do begin_fade; tail_stream stream; end_fade) ])
    ]

  unfoldable pub speak_tail : Option tc.Input → Code Unit
  unfolding incremental_tail whole_tail
  speak_tail session = do
    buf ← get_sentence_buf
    elim session [
      | some s ↦ incremental_tail s (trim buf)
      | none ↦ whole_tail (to_tts_text (trim buf))
    ]

  abbrev pub finish_if_open : Option tc.Input → Code Unit
  finish_if_open none = pure tt
  finish_if_open (some session) = call (λ w. (tc.finish w session, tt))

  unfoldable pub llm_tts_items : List LlmReaderItem → Code Unit
  unfolding fail deltas speak_tail emit_pcm
  llm_tts_items llm_rx = do
    opened ← call (λ w. tc.open_input_session w sid voice)
    elim opened [
      | err e ↦ fail (tts_error e) 1004
      | ok session ↦ (do
        deltas session llm_rx
        speak_tail session
        finish_if_open session
        last ← fade (λ f. some (finish f))
        emit_pcm last
        give_tts [] true)
    ]

  abbrev pub start : tc.World → Vars tc
  start w = record {
    sentence_buf = [];
    global_seq = 0;
    fader = Crossfade.new;
    short_sentence_buf = [];
    world = w;
  }
