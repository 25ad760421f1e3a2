-- ===== src/Metrics/Guard.antt =====
-- crates/voice_server/src/metrics.rs: `PipelineMetricsGuard`, as long as it lives. What a call tells the
-- sink is the list that it returns. Instants are nanoseconds, and `duration_since` stops at zero.
pub mod Inner
use voice_ai.Base.{ℕ, ◌-◌, Bool, true, false, Option, none, some, List, [], ◌∷◌, if◌then◌else◌}

pub data PipelineResult : Type 0 where
  success failed timeout cancelled empty_response : PipelineResult

pub data Observation : Type 0 where
  pipeline_started : Observation
  pipeline_finished : PipelineResult → Observation
  observe_pipeline_duration : ℕ → Observation
  observe_input_end_to_asr_output_end observe_asr : ℕ → Observation
  observe_input_end_to_llm_first_text observe_llm_first_token : ℕ → Observation
  observe_e2e_first_audio : (since_start since_end : ℕ) → Observation
  observe_llm_first_text_to_tts_first_frame : ℕ → Observation
  observe_input_end_to_ws_first_audio_sent : ℕ → Observation
  observe_tts_first_frame_to_ws_first_audio_sent : ℕ → Observation
  observe_e2e_complete : (since_start since_end : ℕ) → Observation
  observe_queue observe_llm_complete : ℕ → Observation

pub record PipelineMetricsGuard : Type 0 where
  pub input_started_at : ℕ
  pub input_ended_at : ℕ
  pub started_at : ℕ
  pub llm_first_text_at : Option ℕ
  pub tts_first_frame_at : Option ℕ
  pub first_audio_ws_sent_recorded : Bool
  pub completed_recorded : Bool
  pub result : PipelineResult

-- What a method tells the sink, and the guard after it.
abbrev pub Told : Type 0
Told = List Observation × PipelineMetricsGuard

unfoldable pub start : (input_started_at input_ended_at now : ℕ) → Told
start input_started_at input_ended_at now = (
  pipeline_started ∷ [],
  record {
    input_started_at = input_started_at;
    input_ended_at = input_ended_at;
    started_at = now;
    llm_first_text_at = none;
    tts_first_frame_at = none;
    first_audio_ws_sent_recorded = false;
    completed_recorded = false;
    result = failed;
  },
)

abbrev pub is_some : Option ℕ → Bool
is_some none = false
is_some (some x) = true

unfoldable pub has_first_audio : PipelineMetricsGuard → Bool
has_first_audio g = is_some g.tts_first_frame_at

unfoldable pub record_asr_output_end : PipelineMetricsGuard → (asr_started_at at : ℕ) → Told
record_asr_output_end g asr_started_at at = (
  observe_input_end_to_asr_output_end (at - g.input_ended_at)
      ∷ observe_asr (at - asr_started_at)
      ∷ [],
  g,
)

unfoldable pub record_llm_first_text : PipelineMetricsGuard → (llm_started_at at : ℕ) → Told
record_llm_first_text g llm_started_at at = if is_some g.llm_first_text_at then ([], g) else (
  observe_input_end_to_llm_first_text (at - g.input_ended_at)
      ∷ observe_llm_first_token (at - llm_started_at)
      ∷ [],
  record g { llm_first_text_at = some at },
)

abbrev pub after_text : Option ℕ → ℕ → List Observation
after_text none at = []
after_text (some t) at = observe_llm_first_text_to_tts_first_frame (at - t) ∷ []

unfoldable pub record_tts_first_frame : PipelineMetricsGuard → ℕ → Told
record_tts_first_frame g at = if is_some g.tts_first_frame_at then ([], g) else (
  observe_e2e_first_audio (at - g.input_started_at) (at - g.input_ended_at)
      ∷ after_text g.llm_first_text_at at,
  record g { tts_first_frame_at = some at },
)

abbrev pub first_sent : Option ℕ → PipelineMetricsGuard → ℕ → Told
first_sent none g at = ([], g)
first_sent (some t) g at = (
  observe_input_end_to_ws_first_audio_sent (at - g.input_ended_at)
      ∷ observe_tts_first_frame_to_ws_first_audio_sent (at - t)
      ∷ [],
  record g { first_audio_ws_sent_recorded = true },
)

unfoldable pub record_first_audio_ws_sent : PipelineMetricsGuard → ℕ → Told
record_first_audio_ws_sent g at =
    if g.first_audio_ws_sent_recorded then ([], g) else first_sent g.tts_first_frame_at g at

unfoldable pub finish : PipelineMetricsGuard → PipelineResult → ℕ → Told
finish g result at = if g.completed_recorded then ([], g) else (
  observe_e2e_complete (at - g.input_started_at) (at - g.input_ended_at) ∷ [],
  record g { completed_recorded = true; result = result },
)

unfoldable pub set_result : PipelineMetricsGuard → PipelineResult → PipelineMetricsGuard
set_result g result = record g { result = result }

-- `Drop`
unfoldable pub drop_guard : PipelineMetricsGuard → ℕ → List Observation
drop_guard g now = observe_pipeline_duration (now - g.started_at) ∷ pipeline_finished g.result ∷ []
