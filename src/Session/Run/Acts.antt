-- ===== src/Session/Run/Acts.antt =====
-- crates/voice_server/src/session/pipeline.rs: what holds of the acts of a whole run because it holds of
-- its steps: of each test, wait, observation and registration, and of each payload with the test of
-- the cancellation before it.
use voice_ai.Base.{
  ℕ, ◌-◌, ◌%◌, ◌^◌, not, ◌&&◌, ◌||◌, unwrap_or, ◌≡◌, refl, inl, inr, Bool, true, false, Option,
  some, List, [], ◌∷◌, ◌++◌, map, is_empty, All, Bool-cases, if◌then◌else◌, Str, trim,
}
use voice_ai.Cancel.{CancelTokens}
use voice_ai.Proto.{
  AgentPhase, transcribing, composing, speaking, error, VoicePayload, asr_partial, llm_delta,
  error_payload,
}
use voice_ai.Recognition.Parse.{parse_asr_text, format_asr_hint}
use voice_ai.Client.Wav.{wrap_pcm_as_wav}
use voice_ai.Client.{Result, ok, err, AsrEvent, Recognized, elapsed, recognized}
use voice_ai.Metrics.Guard.{
  PipelineResult, cancelled, success, failed, timeout, empty_response, Observation, observe_queue,
  observe_llm_complete, PipelineMetricsGuard, Told, set_result, record_asr_output_end,
  record_llm_first_text, record_tts_first_frame, record_first_audio_ws_sent, finish,
}
use voice_ai.Metrics.Guard.Inner.{
  is_edge, asr_end_inner, text_inner, frame_inner, sent_inner, finish_inner,
}
use voice_ai.Pipeline.LlmTts.{LlmTtsItem}
use voice_ai.Pipeline.LlmTts as LlmTts
use voice_ai.Pipeline.Stream.{Flow, goes, returned, panicked, then_do, ◌>>=◌, pure, return_now}
use voice_ai.Session.{DoubleOps, PipelineArgs}
use voice_ai.Session.Run.{
  Act, sends, reads_cancelled, waits, tells, replaces, Outside, RunState, Code, look, select, clock,
  tell, guard, when, stop_with, status, send_agent_status, send_or_stop, send_tts_audio, send_error,
  fail_with, status_or_stop, asr_ended, asr_loop, forward, cancel_prev, register, note_delta,
  on_llm, speak_status, send_audio_or_stop, end_speaking, on_tts, on_item, item_loop, answer,
  listen, respond, safe_pipeline_error_message, modify, get, has_audio, reading,
}

module _ (ct : CancelTokens) (fl : DoubleOps) (o : Outside ct fl) (args : PipelineArgs ct) where
  pub record HoldsOfSteps (P : List (Act ct fl) → Type 0) : Type 0 where
    pub nil : P []
    pub append : (xs ys : List (Act ct fl)) → P xs → P ys → P (xs ++ ys)
    pub looks : (b : Bool) → P (reads_cancelled b ∷ [])
    pub selects : (b : Bool) → P (waits b ∷ [])
    pub observes : (x : Observation) → is_edge x ≡ false → P (tells x ∷ [])
    pub registers : (prev : Option ct.Token) → P (replaces prev ∷ cancel_prev ct fl o args prev)
    pub sends_one :
        (p : VoicePayload fl.F64) (taken : Bool) → P (reads_cancelled false ∷ sends p taken ∷ [])
    pub sends_error :
        (code : ℕ) (taken taken' : Bool)
        → P (
            reads_cancelled false
            ∷ sends (status ct fl o args error true) taken
            ∷ sends (error_payload code safe_pipeline_error_message (some args.message_id)) taken'
            ∷ [])

  module _ {P : List (Act ct fl) → Type 0} (h : HoldsOfSteps P) where
    -- The acts of a piece have the property, from any state.
    record Does {A : Type 0} (m : Code ct fl A) : Type 0 where
      acts : (s : RunState ct fl) → P (m s).0

    append-then_do :
        {A : Type 0} {B : Type 0} (out : List (Act ct fl)) (s : RunState ct fl) (flow : Flow A)
        (f : A → Code ct fl B)
        → P out
        → ((a : A) → Does (f a))
        → P (then_do out s flow f).0
    append-then_do out s (goes a) f p d = h.append out (f a s).0 p ((d a).acts s)
    append-then_do out s returned f p d = p
    append-then_do out s panicked f p d = p

    Does-bind :
        {A : Type 0} {B : Type 0} {m : Code ct fl A} {f : A → Code ct fl B}
        → Does m
        → ((a : A) → Does (f a))
        → Does (m >>= f)
    Does-bind {m = m} {f = f} d e = record {
      acts = λ s. append-then_do (m s).0 (m s).1 (m s).2 f (d.acts s) e;
    }

    Does-pure : {A : Type 0} (a : A) → Does (pure a)
    Does-pure a = record { acts = λ s. h.nil }

    Does-if :
        {A : Type 0} (b : Bool) {m n : Code ct fl A} → Does m → Does n → Does (if b then m else n)
    Does-if true d e = d
    Does-if false d e = e

    Does-when : (b : Bool) {m : Code ct fl Unit} → Does m → Does (when ct fl o args b m)
    Does-when true d = d
    Does-when false d = Does-pure tt

    Does-select : Does (select ct fl o args)
    Does-select = record { acts = λ s. h.selects (o.waits_cancelled s.readings) }

    Does-clock : Does (clock ct fl o args)
    Does-clock = record { acts = λ s. h.nil }

    told-holds : (l : List Observation) → All (λ x. is_edge x ≡ false) l → P (map tells l)
    told-holds [] a = h.nil
    told-holds (x ∷ l) a =
        h.append (tells x ∷ []) (map tells l) (h.observes x a.0) (told-holds l a.1)

    Does-guard :
        (f : PipelineMetricsGuard → Told)
        → ((g : PipelineMetricsGuard) → All (λ x. is_edge x ≡ false) (f g).0)
        → Does (guard ct fl o args f)
    Does-guard f a = record { acts = λ s. told-holds (f s.metric_guard).0 (a s.metric_guard) }

    Does-stop : {A : Type 0} (r : PipelineResult) → Does (stop_with ct fl o args {A = A} r)
    Does-stop r = record { acts = λ s. h.nil }

    -- A test of the cancellation, with what follows it either way.
    Does-look :
        {A : Type 0} {m : Code ct fl A} (n : Code ct fl A)
        → Does m
        → ((s : RunState ct fl) → P (reads_cancelled false ∷ (n s).0))
        → Does (look ct fl o args >>= λ c. if c then m else n)
    Does-look {m = m} n d e = record { acts = λ s. at (o.is_cancelled s.readings) _ }
      where
        at : (b : Bool) (s : RunState ct fl) → P (reads_cancelled b ∷ ((if b then m else n) s).0)
        at true s = h.append (reads_cancelled true ∷ []) (m s).0 (h.looks true) (d.acts s)
        at false s = e s

    Does-send_or_stop : (p : VoicePayload fl.F64) → Does (send_or_stop ct fl o args p)
    Does-send_or_stop p = Does-look _ (Does-stop cancelled) (λ s. h.sends_one p _)

    Does-send_agent_status :
        (phase : AgentPhase) (finished : Bool)
        → Does (send_agent_status ct fl o args phase finished)
    unfolding send_agent_status
    Does-send_agent_status phase finished = Does-look _ (Does-pure false) (λ s. h.sends_one _ _)

    Does-send_tts_audio :
        (seq : ℕ) (audio : List ℕ) (is_last : Bool)
        → Does (send_tts_audio ct fl o args seq audio is_last)
    unfolding send_tts_audio
    Does-send_tts_audio seq audio is_last = Does-look _ (Does-pure false) (λ s. h.sends_one _ _)

    Does-send_error : {A : Type 0} (code : ℕ) → Does (send_error ct fl o args {A = A} code)
    unfolding send_error send_agent_status
    Does-send_error code = record {
      acts = λ s. elim (Bool-cases (o.is_cancelled s.readings)) [
        | inl c ↦ rw c (h.looks true)
        | inr c ↦ rw c (h.sends_error code _ _)
      ];
    }

    Does-fail :
        {A : Type 0} (r : PipelineResult) (code : ℕ) → Does (fail_with ct fl o args {A = A} r code)
    unfolding fail_with
    Does-fail r code =
        Does-bind (Does-guard (λ g. ([], set_result g r)) (λ g. tt)) (λ _. Does-send_error code)

    Does-status_or_stop : (phase : AgentPhase) → Does (status_or_stop ct fl o args phase)
    unfolding status_or_stop
    Does-status_or_stop phase =
        Does-bind (Does-send_agent_status phase false)
          (λ sent. Does-if sent (Does-pure tt) (Does-stop cancelled))

    Does-asr_ended : (t : ℕ) (out : Str × List AsrEvent) → Does (asr_ended ct fl o args t out)
    unfolding asr_ended
    Does-asr_ended t out = Does-bind Does-clock (λ at.
        Does-bind (Does-guard (λ g. record_asr_output_end g t at) (asr_end_inner t at))
          (λ _. Does-pure out))

    Does-select_or_stop :
        {A : Type 0} {m : Code ct fl A}
        → Does m
        → Does (select ct fl o args >>= λ c. if c then stop_with ct fl o args cancelled else m)
    Does-select_or_stop d = Does-bind Does-select (λ c. Does-if c (Does-stop cancelled) d)

    Does-asr_loop :
        (t : ℕ) (es : List (Result AsrEvent)) (prompt : Str) (asr_events : List AsrEvent)
        → Does (asr_loop ct fl o args t prompt asr_events es)
    unfolding asr_loop
    Does-asr_loop t [] prompt asr_events = Does-select_or_stop (Does-pure _)
    Does-asr_loop t (err e ∷ es) prompt asr_events = Does-select_or_stop (Does-fail failed 1001)
    Does-asr_loop t (ok e ∷ es) prompt asr_events =
        Does-select_or_stop (Does-if e.is_final (Does-asr_ended t _) (Does-asr_loop t es _ _))

    Does-forward : (es : List AsrEvent) → Does (forward ct fl o args es)
    unfolding forward
    Does-forward [] = Does-pure tt
    Does-forward (e ∷ es) =
        Does-bind
          (Does-send_or_stop (asr_partial args.session_id e.text e.is_final false args.message_id))
          (λ _. Does-forward es)

    Does-modify : (f : RunState ct fl → RunState ct fl) → Does (modify ct fl o args f)
    Does-modify f = record { acts = λ s. h.nil }

    Does-get : {A : Type 0} (f : RunState ct fl → A) → Does (get ct fl o args f)
    Does-get f = record { acts = λ s. h.nil }

    Does-reading :
        {A : Type 0} (f : ℕ → A) (acts : A → List (Act ct fl))
        → ((a : A) → P (acts a))
        → Does (reading ct fl o args f acts)
    Does-reading f acts p = record { acts = λ s. p (f s.readings) }

    Does-tell : (x : Observation) → is_edge x ≡ false → Does (tell ct fl o args x)
    Does-tell x e = record { acts = λ s. h.observes x e }

    Does-has_audio : Does (has_audio ct fl o args)
    Does-has_audio = record { acts = λ s. h.nil }

    Does-register : Does (register ct fl o args)
    unfolding register
    Does-register =
        Does-bind (Does-reading o.current _ h.registers)
          (λ prev. Does-modify (λ s. record s { registered = true }))

    Does-note_delta :
        (t : ℕ) (delta : Str) (is_final : Bool) → Does (note_delta ct fl o args t delta is_final)
    unfolding note_delta
    Does-note_delta t delta is_final =
        Does-bind (Does-get (λ s. not (is_empty (trim delta)) && not s.llm_first_token_recorded))
          (λ first.
            Does-bind
              (Does-when first (
                Does-bind (Does-modify (λ s. record s { llm_first_token_recorded = true })) (λ _.
                  Does-bind Does-clock
                    (λ at. Does-guard (λ g. record_llm_first_text g t at) (text_inner t at)))))
              (λ _.
                Does-bind (Does-get (λ s. is_final && not s.llm_completed_recorded)) (λ complete.
                  Does-when complete (
                    Does-bind (Does-modify (λ s. record s { llm_completed_recorded = true })) (λ _.
                      Does-bind Does-clock
                        (λ at. Does-tell (observe_llm_complete (at - t)) refl))))))

    Does-on_llm :
        (t : ℕ) (delta : Str) (is_final : Bool) → Does (on_llm ct fl o args t delta is_final)
    unfolding on_llm
    Does-on_llm t delta is_final = Does-when (not (is_empty delta) || is_final) (
        Does-bind (Does-note_delta t delta is_final)
          (λ _. Does-send_or_stop (llm_delta args.session_id delta is_final args.message_id)))

    Does-speak_status : Does (speak_status ct fl o args)
    unfolding speak_status
    Does-speak_status = Does-bind (Does-get (λ s. s.speaking_sent)) (λ spoken.
        Does-when (not spoken) (
          Does-bind (Does-status_or_stop speaking)
            (λ _. Does-modify (λ s. record s { speaking_sent = true }))))

    Does-send_audio_or_stop :
        (seq : ℕ) (audio : List ℕ) (is_last : Bool)
        → Does (send_audio_or_stop ct fl o args seq audio is_last)
    unfolding send_audio_or_stop
    Does-send_audio_or_stop seq audio is_last =
        Does-bind (Does-send_tts_audio seq audio is_last)
          (λ sent. Does-if sent (Does-pure tt) (Does-stop cancelled))

    Does-return : {A : Type 0} → Does (return_now {A = A})
    Does-return = record { acts = λ s. h.nil }

    Does-end_speaking : Does (end_speaking ct fl o args)
    unfolding end_speaking
    Does-end_speaking =
        Does-bind (Does-send_agent_status speaking true)
          (λ sent. Does-if sent (Does-pure tt) Does-return)

    Does-on_tts :
        (seq : ℕ) (audio : Str) (is_last : Bool) → Does (on_tts ct fl o args seq audio is_last)
    unfolding on_tts
    Does-on_tts seq audio is_last =
        let bytes = unwrap_or (o.decode audio) [] in
        Does-bind Does-has_audio (λ heard.
          Does-bind
            (Does-when (not (is_empty bytes) && not heard) (
              Does-bind Does-clock
                (λ at. Does-guard (λ g. record_tts_first_frame g at) (frame_inner at))))
            (λ _. Does-bind Does-speak_status (λ _.
              Does-bind (Does-send_audio_or_stop seq bytes is_last) (λ _.
                Does-bind
                  (Does-when (not (is_empty bytes) && not heard) (
                    Does-bind Does-clock
                      (λ at. Does-guard (λ g. record_first_audio_ws_sent g at) (sent_inner at))))
                  (λ _. Does-when is_last Does-end_speaking)))))

    Does-on_item : (t : ℕ) (item : LlmTtsItem) → Does (on_item ct fl o args t item)
    unfolding on_item
    Does-on_item t (LlmTts.llm delta is_final) = Does-on_llm t delta is_final
    Does-on_item t (LlmTts.tts seq audio is_last) = Does-on_tts seq audio is_last
    Does-on_item t (LlmTts.failed e code) = Does-fail failed (code % 2 ^ 32)

    Does-item_loop : (t : ℕ) (items : List LlmTtsItem) → Does (item_loop ct fl o args t items)
    unfolding item_loop
    Does-item_loop t [] = Does-select_or_stop (Does-pure tt)
    Does-item_loop t (item ∷ items) = Does-bind Does-select (λ c.
        Does-bind (Does-if c (Does-stop cancelled) (Does-pure tt))
          (λ _. Does-bind (Does-on_item t item) (λ _. Does-item_loop t items)))

    Does-answer :
        (prompt : Str) (asr_events : List AsrEvent) → Does (answer ct fl o args prompt asr_events)
    unfolding answer
    Does-answer prompt asr_events =
        let parsed = parse_asr_text prompt in
        let hint = format_asr_hint parsed.emotion parsed.event in
        Does-if (is_empty parsed.text) (Does-stop empty_response) (
          Does-bind (Does-forward asr_events) (λ _. Does-bind Does-register (λ _.
            Does-bind (Does-status_or_stop composing) (λ _. Does-bind Does-clock (λ t.
              Does-bind (Does-item_loop t (o.llm_tts_items parsed.text hint)) (λ _.
                Does-bind Does-clock
                  (λ at. Does-guard (λ g. finish g success at) (finish_inner success at))))))))

    Does-listen : (t : ℕ) (r : Recognized) → Does (listen ct fl o args t r)
    unfolding listen
    Does-listen t elapsed = Does-fail timeout 1001
    Does-listen t (recognized (err e)) = Does-fail failed 1001
    Does-listen t (recognized (ok events)) = Does-asr_loop t events [] []

    Does-respond : Does (respond ct fl o args)
    unfolding respond
    Does-respond = Does-bind (Does-status_or_stop transcribing) (λ _. Does-bind Does-clock (λ t.
        Does-bind (Does-tell (observe_queue (t - args.input_ended_at)) refl) (λ _.
          Does-bind Does-select (λ c.
            Does-bind (Does-if c (Does-stop cancelled) (Does-pure tt)) (λ _.
              Does-bind
                (Does-listen t (
                  o.recognize args.session_id
                    (wrap_pcm_as_wav args.audio args.sample_rate args.channels)))
                (λ heard.
                  Does-if (is_empty (trim heard.0)) (Does-stop empty_response)
                    (Does-answer (trim heard.0) heard.1)))))))

    pub respond-holds : (s : RunState ct fl) → P (respond ct fl o args s).0
    respond-holds s = Does-respond.acts s
