-- ===== src/Session/Run.antt =====
-- crates/voice_server/src/session/pipeline.rs: `run_pipeline`, from the audio of one utterance to the
-- payloads that are sent down. What a run does is the list of its acts. What it reads from outside (the
-- clock, the cancellation token, the shared mutex, whether a payload was taken) may change between any
-- two of its steps, so the readings are functions of the number of readings before.
pub mod Acts
pub mod Guarded
pub mod Counted
mod Tests
use voice_ai.Base.{
  ℕ, ◌+◌, ◌-◌, ◌%◌, ◌^◌, Bool, true, false, not, ◌&&◌, ◌||◌, Option, none, some, List, [], ◌∷◌,
  ◌++◌, map, is_empty, if◌then◌else◌, unwrap_or, Str, codes, trim,
}
use voice_ai.Cancel.{CancelTokens}
use voice_ai.Proto.{
  AgentPhase, listening, transcribing, searching, composing, speaking, error, VoicePayload,
  asr_partial, llm_delta, tts_audio, agent_status, error_payload,
}
use voice_ai.Client.{Result, ok, err, AsrEvent, Recognized, elapsed, recognized}
use voice_ai.Client.Wav.{wrap_pcm_as_wav}
use voice_ai.Metrics.Guard.{
  PipelineResult, success, failed, timeout, cancelled, empty_response, Observation, observe_queue,
  observe_llm_complete, PipelineMetricsGuard, Told, start, has_first_audio, record_asr_output_end,
  record_llm_first_text, record_tts_first_frame, record_first_audio_ws_sent, finish, set_result,
  drop_guard,
}
use voice_ai.Pipeline.LlmTts.{LlmTtsItem}
use voice_ai.Pipeline.LlmTts as LlmTts
use voice_ai.Pipeline.Stream.{Stream, Flow, goes, ◌>>=◌, ◌>>◌, pure, return_now}
use voice_ai.Recognition.Parse.{parse_asr_text, format_asr_hint}
use voice_ai.Recognition.Rich.{rich_transcription_postprocess}
use voice_ai.Session.{DoubleOps, PipelineArgs}

abbrev pub safe_pipeline_error_message : Str
safe_pipeline_error_message = codes "服务暂时不可用，请稍后再试。"

unfoldable pub agent_label : AgentPhase → Str
agent_label listening = codes "正在聆听"
agent_label transcribing = codes "正在理解"
agent_label searching = codes "正在查资料"
agent_label composing = codes "正在组织答案"
agent_label speaking = codes "正在回答"
agent_label error = codes "暂时遇到问题"

-- `Drop` of `CurrentCancelGuard`: the content of the mutex after it.
abbrev pub drop_current : (ct : CancelTokens) → ct.Token → Option ct.Token → Option ct.Token
drop_current ct own none = none
drop_current ct own (some c) = if ct.same c own then none else some c

module _ (ct : CancelTokens) (fl : DoubleOps) where
  pub data Act : Type 0 where
    sends : VoicePayload fl.F64 → (taken : Bool) → Act
    reads_cancelled : Bool → Act
    waits : (cancelled : Bool) → Act
    tells : Observation → Act
    replaces : (prev : Option ct.Token) → Act
    cancels : ct.Token → Act
    leaves : Option ct.Token → Act

  -- The readings; `waits_cancelled` says that a `select!` took the branch of the cancellation.
  -- `emojis` is the order of a hash set, `decode` the decoding of base64, `output_format` that of the
  -- synthesis client, and `llm_tts_items` are the items of the stream for a prompt and a hint.
  pub record Outside : Type 0 where
    pub is_cancelled : ℕ → Bool
    pub waits_cancelled : ℕ → Bool
    pub takes : ℕ → VoicePayload fl.F64 → Bool
    pub now : ℕ → ℕ
    pub current : ℕ → Option ct.Token
    pub recognize : (session_id : Str) (wav : List ℕ) → Recognized
    pub llm_tts_items : (prompt : Str) (asr_hint : Option Str) → List LlmTtsItem
    pub output_format : Option ℕ × ℕ
    pub decode : Str → Option (List ℕ)
    pub emojis : Str

  -- How many readings there were, the guard of the metrics and the flags of the loop.
  pub record RunState : Type 0 where
    pub readings : ℕ
    pub metric_guard : PipelineMetricsGuard
    pub registered : Bool
    pub speaking_sent : Bool
    pub llm_first_token_recorded : Bool
    pub llm_completed_recorded : Bool

  abbrev pub Code : Type 0 → Type 0
  Code A = Stream Act RunState A

  module _ (o : Outside) (args : PipelineArgs ct) where
    abbrev pub reading : {A : Type 0} → (ℕ → A) → (A → List Act) → Code A
    reading f acts =
        λ s. let a = f s.readings in (acts a, record s { readings = s.readings + 1 }, goes a)

    abbrev pub look : Code Bool
    look = reading o.is_cancelled (λ b. reads_cancelled b ∷ [])

    abbrev pub select : Code Bool
    select = reading o.waits_cancelled (λ b. waits b ∷ [])

    abbrev pub clock : Code ℕ
    clock = reading o.now (λ t. [])

    abbrev pub send_down : VoicePayload fl.F64 → Code Bool
    send_down p = reading (λ n. o.takes n p) (λ taken. sends p taken ∷ [])

    abbrev pub tell : Observation → Code Unit
    tell observation = λ s. (tells observation ∷ [], s, goes tt)

    -- A method of the guard.
    abbrev pub guard : (PipelineMetricsGuard → Told) → Code Unit
    guard f = λ s.
        let (told, g) = f s.metric_guard in (map tells told, record s { metric_guard = g }, goes tt)

    abbrev pub has_audio : Code Bool
    has_audio = λ s. ([], s, goes (has_first_audio s.metric_guard))

    abbrev pub modify : (RunState → RunState) → Code Unit
    modify f = λ s. ([], f s, goes tt)

    abbrev pub get : {A : Type 0} → (RunState → A) → Code A
    get f = λ s. ([], s, goes (f s))

    abbrev pub when : Bool → Code Unit → Code Unit
    when true m = m
    when false m = pure tt

    -- `metric_guard.set_result(..); return`
    abbrev pub stop_with : {A : Type 0} → PipelineResult → Code A
    stop_with result = do guard (λ g. ([], set_result g result)); return_now

    abbrev pub status : AgentPhase → Bool → VoicePayload fl.F64
    status phase finished =
        agent_status args.session_id phase (agent_label phase) none args.message_id finished

    unfoldable pub send_agent_status : AgentPhase → Bool → Code Bool
    unfolding agent_label
    send_agent_status phase finished = do
      c ← look
      if c then pure false else (do send_down (status phase finished); pure true)

    -- A payload, unless the run is cancelled: the test stands directly before the sending.
    abbrev pub send_or_stop : VoicePayload fl.F64 → Code Unit
    send_or_stop p = do c ← look; if c then stop_with cancelled else (do send_down p; pure tt)

    unfoldable pub send_tts_audio : ℕ → List ℕ → Bool → Code Bool
    send_tts_audio seq audio is_last = do
      c ← look
      if c
          then pure false
          else send_down (
              tts_audio args.session_id seq audio is_last o.output_format.0 (some o.output_format.1)
                args.message_id)

    unfoldable pub send_error : {A : Type 0} → ℕ → Code A
    unfolding send_agent_status
    send_error code = do
      sent ← send_agent_status error true
      if sent
          then (do
            send_down (error_payload code safe_pipeline_error_message (some args.message_id))
            return_now)
          else return_now

    abbrev pub fail_with : {A : Type 0} → PipelineResult → ℕ → Code A
    unfolding send_error
    fail_with result code = do guard (λ g. ([], set_result g result)); send_error code

    -- A status, or the end of the run as a cancelled one.
    abbrev pub status_or_stop : AgentPhase → Code Unit
    unfolding send_agent_status
    status_or_stop phase = do
      sent ← send_agent_status phase false
      if sent then pure tt else stop_with cancelled

    abbrev pub asr_ended : ℕ → Str × List AsrEvent → Code (Str × List AsrEvent)
    unfolding record_asr_output_end
    asr_ended t out = do at ← clock; guard (λ g. record_asr_output_end g t at); pure out

    unfoldable pub asr_loop :
        (asr_started_at : ℕ) (prompt : Str) (asr_events : List AsrEvent)
        → List (Result AsrEvent)
        → Code (Str × List AsrEvent)
    unfolding asr_ended
    asr_loop t prompt asr_events [] = do
      c ← select
      if c then stop_with cancelled else pure (prompt, asr_events)
    asr_loop t prompt asr_events (err e ∷ es) = do
      c ← select
      if c then stop_with cancelled else fail_with failed 1001
    asr_loop t prompt asr_events (ok e ∷ es) =
        let cleaned = rich_transcription_postprocess o.emojis e.text in
        let prompt' = if is_empty cleaned then prompt else cleaned in
        let events' = asr_events ++ record { text = cleaned; is_final = e.is_final } ∷ [] in
        let rest = asr_loop t prompt' events' es in
        (do
          c ← select
          if c
              then stop_with cancelled
              else (if e.is_final then asr_ended t (prompt', events') else rest))

    unfoldable pub forward : List AsrEvent → Code Unit
    forward [] = pure tt
    forward (e ∷ es) = do
      send_or_stop (asr_partial args.session_id e.text e.is_final false args.message_id)
      forward es

    abbrev pub cancel_prev : Option ct.Token → List Act
    cancel_prev none = []
    cancel_prev (some prev) = cancels prev ∷ []

    unfoldable pub register : Code Unit
    register = do
      prev ← reading o.current (λ prev. replaces prev ∷ cancel_prev prev)
      modify (λ s. record s { registered = true })

    -- The metrics of a delta that is sent.
    abbrev pub note_delta : (llm_started_at : ℕ) → Str → Bool → Code Unit
    unfolding trim record_llm_first_text
    note_delta t delta is_final = do
      first ← get (λ s. not (is_empty (trim delta)) && not s.llm_first_token_recorded)
      when first (do
        modify (λ s. record s { llm_first_token_recorded = true })
        at ← clock
        guard (λ g. record_llm_first_text g t at))
      complete ← get (λ s. is_final && not s.llm_completed_recorded)
      when complete (do
        modify (λ s. record s { llm_completed_recorded = true })
        at ← clock
        tell (observe_llm_complete (at - t)))

    unfoldable pub on_llm : (llm_started_at : ℕ) → Str → Bool → Code Unit
    unfolding note_delta
    on_llm t delta is_final = when (not (is_empty delta) || is_final) (do
      note_delta t delta is_final
      send_or_stop (llm_delta args.session_id delta is_final args.message_id))

    abbrev pub speak_status : Code Unit
    unfolding status_or_stop
    speak_status = do
      spoken ← get (λ s. s.speaking_sent)
      when (not spoken)
          (do status_or_stop speaking; modify (λ s. record s { speaking_sent = true }))

    abbrev pub send_audio_or_stop : ℕ → List ℕ → Bool → Code Unit
    unfolding send_tts_audio
    send_audio_or_stop seq audio is_last = do
      sent ← send_tts_audio seq audio is_last
      if sent then pure tt else stop_with cancelled

    -- After the last item: the end of speaking, or the end of the run as it stands.
    abbrev pub end_speaking : Code Unit
    unfolding send_agent_status
    end_speaking = do sent ← send_agent_status speaking true; if sent then pure tt else return_now

    unfoldable pub on_tts : ℕ → Str → Bool → Code Unit
    unfolding has_first_audio record_tts_first_frame record_first_audio_ws_sent speak_status
        send_audio_or_stop end_speaking
    on_tts seq audio is_last =
        let bytes = unwrap_or (o.decode audio) [] in
        (do
          heard ← has_audio
          let is_first_audio = not (is_empty bytes) && not heard
          when is_first_audio (do at ← clock; guard (λ g. record_tts_first_frame g at))
          speak_status
          send_audio_or_stop seq bytes is_last
          when is_first_audio (do at ← clock; guard (λ g. record_first_audio_ws_sent g at))
          when is_last end_speaking)

    abbrev pub on_item : (llm_started_at : ℕ) → LlmTtsItem → Code Unit
    unfolding on_llm on_tts send_error
    on_item t (LlmTts.llm delta is_final) = on_llm t delta is_final
    on_item t (LlmTts.tts seq audio is_last) = on_tts seq audio is_last
    on_item t (LlmTts.failed e code) = fail_with failed (code % 2 ^ 32)

    unfoldable pub item_loop : (llm_started_at : ℕ) → List LlmTtsItem → Code Unit
    unfolding on_item
    item_loop t [] = do c ← select; if c then stop_with cancelled else pure tt
    item_loop t (item ∷ items) =
        let rest = item_loop t items in
        (do c ← select; if c then stop_with cancelled else pure tt; on_item t item; rest)

    -- From the text of the recognition on.
    unfoldable pub answer : Str → List AsrEvent → Code Unit
    unfolding forward register status_or_stop item_loop finish
    answer prompt asr_events =
        let parsed = parse_asr_text prompt in
        let hint = format_asr_hint parsed.emotion parsed.event in
        if is_empty parsed.text then stop_with empty_response else (do
          forward asr_events
          register
          status_or_stop composing
          t ← clock
          item_loop t (o.llm_tts_items parsed.text hint)
          at ← clock
          guard (λ g. finish g success at))

    abbrev pub listen : (asr_started_at : ℕ) → Recognized → Code (Str × List AsrEvent)
    unfolding asr_loop send_error
    listen t elapsed = fail_with timeout 1001
    listen t (recognized (err e)) = fail_with failed 1001
    listen t (recognized (ok events)) = asr_loop t [] [] events

    unfoldable pub respond : Code Unit
    unfolding status_or_stop listen answer
    respond = do
      status_or_stop transcribing
      t ← clock
      tell (observe_queue (t - args.input_ended_at))
      c ← select
      if c then stop_with cancelled else pure tt
      heard ←
          listen t (
            o.recognize args.session_id (wrap_pcm_as_wav args.audio args.sample_rate args.channels))
      let prompt = trim heard.0
      if is_empty prompt then stop_with empty_response else answer prompt heard.1

    abbrev pub begin : RunState
    unfolding start
    begin = record {
      readings = 1;
      metric_guard = (start args.input_started_at args.input_ended_at (o.now 0)).1;
      registered = false;
      speaking_sent = false;
      llm_first_token_recorded = false;
      llm_completed_recorded = false;
    }

    -- The guards are dropped, the one of the registration first.
    abbrev pub released : RunState → List Act
    released s =
        if s.registered
        then leaves (drop_current ct args.cancel (o.current s.readings)) ∷ []
        else []

    unfoldable pub run_pipeline : List Act
    unfolding start respond drop_guard
    run_pipeline =
        let (acts, s, flow) = respond begin in
        map tells (start args.input_started_at args.input_ended_at (o.now 0)).0
        ++ (acts ++ (released s ++ map tells (drop_guard s.metric_guard (o.now (s.readings + 1)))))
