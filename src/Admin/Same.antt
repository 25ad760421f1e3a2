-- ===== src/Admin/Same.antt =====
-- crates/voice_server/src/admin_api/mod.rs, pipeline/llm_tts.rs: a text is spoken by the administration
-- as an answer of the language model with this text is.
use voice_ai.Base.{
  ℕ, zero, suc, ◌≡◌, refl, sym, ap, ◌∙◌, Bool, true, false, Option, none, some, List, [], ◌∷◌, ◌++◌,
  length, ◌==◌, if◌then◌else◌, Str, trim, append-nil,
}
use voice_ai.Crossfade.{SentenceCrossfader, begin_sentence, feed, end_sentence, finish}
use voice_ai.Client.{ClientError, Result, ok, err, TtsEvent, TtsClient}
use voice_ai.Pipeline.Sentence.{next_sentence_end, split_at}
use voice_ai.Pipeline.Stream.{
  Stream, Flow, goes, returned, panicked, then_do, ◌>>=◌, ◌>>◌, pure, or_panic,
}
use voice_ai.Pipeline.Text.{to_tts_text}
use voice_ai.Pipeline.Text.Buffer as Buffer
use voice_ai.Pipeline.LlmTts.{
  LlmTtsItem, llm, tts, failed, event, Libraries, Vars, Code, call, set_sentence_buf,
  get_sentence_buf, short_sentences, fade, give_tts, overflows, numbered, emit_pcm, begin_fade,
  feed_fade, end_fade, fail, tts_error, synthesize, speak_stream, speak_sentence, sentence_loop,
  whole_delta, delta_step, deltas, tail_stream, push_or_flush, whole_tail, speak_tail,
  llm_tts_items, start,
}
use voice_ai.Admin.Tts.{
  speak_lines, speak_raw, text_loop, close_stream, last_text, build_tts_sentence_stream,
}

-- The codes of the errors of synthesis, as the administration has them.
abbrev pub recode : ℕ → ℕ
recode code = if code == 1004 then 1102 else (if code == 1005 then 1103 else code)

-- The lines for the items of a stream: without those of the language model.
abbrev pub lines : List LlmTtsItem → List LlmTtsItem
lines [] = []
lines (llm d f ∷ is) = lines is
lines (tts k a l ∷ is) = tts k a l ∷ lines is
lines (failed e c ∷ is) = failed e (recode c) ∷ lines is

lines-append : (is js : List LlmTtsItem) → lines (is ++ js) ≡ lines is ++ lines js
lines-append [] js = refl
lines-append (llm d f ∷ is) js = lines-append is js
lines-append (tts k a l ∷ is) js = ap (λ l'. tts k a l ∷ l') (lines-append is js)
lines-append (failed e c ∷ is) js = ap (λ l. failed e (recode c) ∷ l) (lines-append is js)

abbrev Ran : Type 0 → Type 0 → Type 0
Ran S A = List LlmTtsItem × S × Flow A

abbrev lined : {S A : Type 0} → List LlmTtsItem × S × Flow A → List LlmTtsItem × S × Flow A
lined r = (lines r.0, r.1, r.2)

-- The second piece does what the first one does, with the lines for its items.
record Same {S A : Type 0} (m n : Stream LlmTtsItem S A) : Type 0 where
  same : (s : S) → n s ≡ lined (m s)

module _ {S : Type 0} where
  lined-then :
      {A : Type 0} {B : Type 0} (r : Ran S A) (f g : A → Stream LlmTtsItem S B)
      → ((a : A) → Same (f a) (g a))
      → then_do (lines r.0) r.1 r.2 g ≡ lined (then_do r.0 r.1 r.2 f)
  lined-then (out, s, goes a) f g h =
      ap (λ r. (lines out ++ r.0, r.1, r.2)) ((h a).same s)
      ∙ ap (λ l. (l, (f a s).1, (f a s).2)) (sym (lines-append out (f a s).0))
  lined-then (out, s, returned) f g h = refl
  lined-then (out, s, panicked) f g h = refl

  Same-bind :
      {A : Type 0} {B : Type 0} {m n : Stream LlmTtsItem S A} {f g : A → Stream LlmTtsItem S B}
      → Same m n
      → ((a : A) → Same (f a) (g a))
      → Same (m >>= f) (n >>= g)
  Same-bind {A} {B} {m} {n} {f} {g} h k = record {
    same = λ s. ap (λ (r : Ran S A). then_do r.0 r.1 r.2 g) (h.same s) ∙ lined-then (m s) f g k;
  }

  Same-pure : {A : Type 0} (a : A) → Same {S = S} (pure a) (pure a)
  Same-pure a = record { same = λ s. refl }

  Same-or_panic : {A : Type 0} (o : Option A) → Same {S = S} (or_panic o) (or_panic o)
  Same-or_panic none = record { same = λ s. refl }
  Same-or_panic (some a) = record { same = λ s. refl }

  Same-if :
      {A : Type 0} {m n m' n' : Stream LlmTtsItem S A} (b : Bool)
      → Same m m'
      → Same n n'
      → Same (if b then m else n) (if b then m' else n')
  Same-if true h k = h
  Same-if false h k = k

-- An item of the language model before a piece, and a return behind it, change no line.
lines-around :
    {S : Type 0} (text : Str) (last : Bool) (r : List LlmTtsItem × S × Flow Unit)
    (rest : Unit → Stream LlmTtsItem S Unit)
    → (let done = then_do r.0 r.1 r.2 (λ _. pure tt) in
        lines (then_do (llm text last ∷ done.0) done.1 done.2 rest).0
        ≡ lines (then_do r.0 r.1 r.2 rest).0)
lines-around text last (out, s, goes tt) rest =
    ap (λ l. lines (l ++ (rest tt s).0)) (append-nil out)
lines-around text last (out, s, returned) rest = refl
lines-around text last (out, s, panicked) rest = refl

module _ (lib : Libraries) (tc : TtsClient) (sid : Str) (voice : Option Str) where
  Same-fade :
      (f : SentenceCrossfader → Option (SentenceCrossfader × List ℕ))
      → Same (fade lib tc sid voice f) (fade lib tc sid voice f)
  Same-fade f = record {
    same = λ s. elim (f s.fader) as (λ o. faded s o ≡ lined (faded s o)) [
      | none ↦ refl
      | some (g, pcm) ↦ refl
    ];
  }
    where
      faded : (s : Vars tc) → Option (SentenceCrossfader × List ℕ) → Ran (Vars tc) (List ℕ)
      faded s o = elim o [
        | none ↦ or_panic none s
        | some (g, pcm) ↦ ([], record s { fader = g }, goes pcm)
      ]

  numbered-lined :
      (b : Bool) (audio : Str) (is_last : Bool) (s : Vars tc)
      → numbered lib tc sid voice b audio is_last s
        ≡ lined (numbered lib tc sid voice b audio is_last s)
  numbered-lined true audio is_last s = refl
  numbered-lined false audio is_last s = refl

  Same-give :
      (audio : Str) (is_last : Bool)
      → Same (give_tts lib tc sid voice audio is_last) (give_tts lib tc sid voice audio is_last)
  Same-give audio is_last = record {
    same = λ s. numbered-lined (overflows lib tc sid voice s.global_seq) audio is_last s;
  }

  Same-emit : (pcm : List ℕ) → Same (emit_pcm lib tc sid voice pcm) (emit_pcm lib tc sid voice pcm)
  unfolding emit_pcm
  Same-emit [] = record { same = λ s. refl }
  Same-emit (b ∷ pcm) = Same-give (lib.base64 (b ∷ pcm)) false

  Same-call :
      {A : Type 0} (f : tc.World → tc.World × A)
      → Same (call lib tc sid voice f) (call lib tc sid voice f)
  Same-call f = record { same = λ s. refl }

  Same-set :
      (b : Str) → Same (set_sentence_buf lib tc sid voice b) (set_sentence_buf lib tc sid voice b)
  Same-set b = record { same = λ s. refl }

  Same-get : Same (get_sentence_buf lib tc sid voice) (get_sentence_buf lib tc sid voice)
  Same-get = record { same = λ s. refl }

  Same-short :
      (f : Str → Str × Option Str)
      → Same (short_sentences lib tc sid voice f) (short_sentences lib tc sid voice f)
  Same-short f = record { same = λ s. refl }

  Same-feed :
      (bytes : List ℕ) → Same (feed_fade lib tc sid voice bytes) (feed_fade lib tc sid voice bytes)
  unfolding feed_fade
  Same-feed bytes = Same-bind (Same-fade (λ f. feed lib.float lib.debug f bytes)) Same-emit

  Same-begin : Same (begin_fade lib tc sid voice) (begin_fade lib tc sid voice)
  unfolding begin_fade
  Same-begin = Same-fade (λ f. some (begin_sentence f, []))

  Same-end : Same (end_fade lib tc sid voice) (end_fade lib tc sid voice)
  unfolding end_fade
  Same-end = Same-bind (Same-fade (λ f. end_sentence lib.float lib.debug f)) Same-emit

  Same-stream :
      (es : List (Result TtsEvent))
      → Same (speak_stream lib tc sid voice es) (speak_lines lib tc sid voice es)
  unfolding speak_stream speak_lines fail
  Same-stream [] = Same-pure tt
  Same-stream (err e ∷ es) = record { same = λ s. refl }
  Same-stream (ok t ∷ es) =
      Same-bind (Same-feed t.bytes) (λ _. Same-if t.is_last (Same-pure tt) (Same-stream es))

  Same-tail :
      (es : List (Result TtsEvent))
      → Same (tail_stream lib tc sid voice es) (tail_stream lib tc sid voice es)
  unfolding tail_stream
  Same-tail [] = Same-pure tt
  Same-tail (err e ∷ es) = Same-pure tt
  Same-tail (ok t ∷ es) =
      Same-bind (Same-feed t.bytes) (λ _. Same-if t.is_last (Same-pure tt) (Same-tail es))

  Same-result :
      {A : Type 0} {f f' : A → Code lib tc sid voice Unit}
      {g g' : ClientError → Code lib tc sid voice Unit} (r : Result A)
      → ((a : A) → Same (f a) (f' a))
      → ((e : ClientError) → Same (g e) (g' e))
      → Same (elim r [ ok a ↦ f a | err e ↦ g e ]) (elim r [ ok a ↦ f' a | err e ↦ g' e ])
  Same-result (ok a) h k = h a
  Same-result (err e) h k = k e

  Same-option :
      {A : Type 0} {f f' : A → Code lib tc sid voice Unit} {m m' : Code lib tc sid voice Unit}
      (o : Option A)
      → ((a : A) → Same (f a) (f' a))
      → Same m m'
      → Same (elim o [ some a ↦ f a | none ↦ m ]) (elim o [ some a ↦ f' a | none ↦ m' ])
  Same-option none h k = k
  Same-option (some a) h k = h a

  Same-synthesize :
      (text : Str) → Same (synthesize lib tc sid voice text) (synthesize lib tc sid voice text)
  unfolding synthesize
  Same-synthesize text = Same-call (λ w. tc.synthesize w sid text voice)

  Same-fail_sentence :
      (e : ClientError)
      → Same
          (fail lib tc sid voice {A = Unit} (tts_error lib tc sid voice e) 1004)
          (fail lib tc sid voice {A = Unit} (tts_error lib tc sid voice e) 1102)
  unfolding fail
  Same-fail_sentence e = record { same = λ s. refl }

  Same-sentence :
      (raw : Str) → Same (speak_sentence lib tc sid voice raw) (speak_raw lib tc sid voice raw)
  unfolding speak_sentence speak_raw
  Same-sentence raw =
      Same-bind (Same-short (λ b. Buffer.push lib.is_alphanumeric b (to_tts_text raw))) (λ merged.
        Same-option merged
          (λ sent. Same-bind (Same-synthesize sent) (λ called.
            Same-result called
              (λ stream. Same-bind Same-begin (λ _. Same-bind (Same-stream stream) (λ _. Same-end)))
              (λ e. Same-fail_sentence e)))
          (Same-pure tt))

  Same-loop : (n : ℕ) → Same (sentence_loop lib tc sid voice n) (text_loop lib tc sid voice n)
  unfolding sentence_loop text_loop
  Same-loop zero = Same-pure tt
  Same-loop (suc n) = Same-bind Same-get (λ buf.
      Same-option (next_sentence_end buf)
        (λ end. Same-bind (Same-or_panic (split_at end buf)) (λ (raw_sent, rest).
          Same-bind (Same-set rest) (λ _. Same-bind (Same-sentence raw_sent) (λ _. Same-loop n))))
        (Same-pure tt))

  Same-whole_tail :
      (tail : Str) → Same (whole_tail lib tc sid voice tail) (whole_tail lib tc sid voice tail)
  unfolding whole_tail
  Same-whole_tail tail = Same-bind (Same-short (push_or_flush lib tc sid voice tail)) (λ last.
      Same-option last
        (λ text. Same-bind (Same-synthesize text) (λ called.
          Same-result called
            (λ stream. Same-bind Same-begin (λ _. Same-bind (Same-tail stream) (λ _. Same-end)))
            (λ e. Same-pure tt)))
        (Same-pure tt))

  Same-close : Same (close_stream lib tc sid voice) (close_stream lib tc sid voice)
  Same-close =
      Same-bind (Same-fade (λ f. some (finish f)))
        (λ last. Same-bind (Same-emit last) (λ _. Same-give [] true))

  Same-last : Same (last_text lib tc sid voice) (last_text lib tc sid voice)
  Same-last = Same-bind Same-get (λ buf. Same-whole_tail (to_tts_text (trim buf)))

  -- What `llm_tts_items` does after the sentence loop over the only delta.
  Same-build :
      Same
        (do
          text ← get_sentence_buf lib tc sid voice
          sentence_loop lib tc sid voice (length text)
          last_text lib tc sid voice
          close_stream lib tc sid voice)
        (build_tts_sentence_stream lib tc sid voice)
  unfolding build_tts_sentence_stream
  Same-build =
      Same-bind Same-get
        (λ text. Same-bind (Same-loop (length text)) (λ _. Same-bind Same-last (λ _. Same-close)))

  abbrev pub with_text : tc.World → Str → Vars tc
  with_text w text = record (start lib tc sid voice w) { sentence_buf = text }

  llm_tts_items-whole :
      (w w' : tc.World) (text : Str)
      → tc.open_input_session w sid voice ≡ (w', ok none)
      → lines
          (llm_tts_items lib tc sid voice
            (event (record { delta = text; is_final = true }) ∷ [])
            (start lib tc sid voice w)).0
        ≡ lines
            ((do
              text ← get_sentence_buf lib tc sid voice
              sentence_loop lib tc sid voice (length text)
              last_text lib tc sid voice
              close_stream lib tc sid voice)
              (with_text w' text)).0
  unfolding llm_tts_items deltas delta_step whole_delta speak_tail
  llm_tts_items-whole w w' text h = rw h (
      lines-around text true (sentence_loop lib tc sid voice (length text) (with_text w' text))
        (λ _. last_text lib tc sid voice >> close_stream lib tc sid voice))

  -- Where the client opens no session for text in parts, the lines that the administration gives for a
  -- text are those for the items of the whole pipeline when the language model answers with this text
  -- at once: the same audio with the same numbers, and a failure at the same place under a code of
  -- the administration. The state of the provider is that after the session was not opened.
  pub tts_stream-llm_tts_items :
      (w w' : tc.World) (text : Str)
      → tc.open_input_session w sid voice ≡ (w', ok none)
      → (build_tts_sentence_stream lib tc sid voice (with_text w' text)).0
        ≡ lines
            (llm_tts_items lib tc sid voice
              (event (record { delta = text; is_final = true }) ∷ [])
              (start lib tc sid voice w)).0
  tts_stream-llm_tts_items w w' text h =
      ap (λ (r : Ran (Vars tc) Unit). r.0) (Same-build.same (with_text w' text))
      ∙ sym (llm_tts_items-whole w w' text h)
