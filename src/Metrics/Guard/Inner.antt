-- ===== src/Metrics/Guard/Inner.antt =====
-- crates/voice_server/src/metrics.rs: the methods of PipelineMetricsGuard but start and drop make only
-- observations other than the first and the last of a run.
use voice_ai.Base.{ℕ, ◌≡◌, refl, inl, inr, Bool, true, false, Option, none, some, All, Bool-cases}
use voice_ai.Metrics.Guard.{
  PipelineResult, Observation, is_some, pipeline_started, pipeline_finished, PipelineMetricsGuard,
  record_asr_output_end, record_llm_first_text, record_tts_first_frame, first_sent,
  record_first_audio_ws_sent, finish, after_text,
}

-- The two observations with which a guard begins and ends.
abbrev pub is_edge : Observation → Bool
is_edge pipeline_started = true
is_edge (pipeline_finished r) = true
is_edge _ = false

pub asr_end_inner :
    (t at : ℕ) (g : PipelineMetricsGuard)
    → All (λ x. is_edge x ≡ false) (record_asr_output_end g t at).0
asr_end_inner t at g = unfold record_asr_output_end in (refl, (refl, tt))

pub text_inner :
    (t at : ℕ) (g : PipelineMetricsGuard)
    → All (λ x. is_edge x ≡ false) (record_llm_first_text g t at).0
unfolding record_llm_first_text
text_inner t at g = elim (Bool-cases (is_some g.llm_first_text_at)) [
  | inl e ↦ rw e tt
  | inr e ↦ rw e (refl, (refl, tt))
]

after_text_inner : (t : Option ℕ) (at : ℕ) → All (λ x. is_edge x ≡ false) (after_text t at)
after_text_inner none at = tt
after_text_inner (some t) at = (refl, tt)

pub frame_inner :
    (at : ℕ) (g : PipelineMetricsGuard)
    → All (λ x. is_edge x ≡ false) (record_tts_first_frame g at).0
unfolding record_tts_first_frame
frame_inner at g = elim (Bool-cases (is_some g.tts_first_frame_at)) [
  | inl e ↦ rw e tt
  | inr e ↦ rw e (refl, after_text_inner g.llm_first_text_at at)
]

first_sent_inner :
    (t : Option ℕ) (g : PipelineMetricsGuard) (at : ℕ)
    → All (λ x. is_edge x ≡ false) (first_sent t g at).0
first_sent_inner none g at = tt
first_sent_inner (some t) g at = (refl, (refl, tt))

pub sent_inner :
    (at : ℕ) (g : PipelineMetricsGuard)
    → All (λ x. is_edge x ≡ false) (record_first_audio_ws_sent g at).0
unfolding record_first_audio_ws_sent
sent_inner at g = elim (Bool-cases g.first_audio_ws_sent_recorded) [
  | inl e ↦ rw e tt
  | inr e ↦ rw e (first_sent_inner g.tts_first_frame_at _ at)
]

pub finish_inner :
    (r : PipelineResult) (at : ℕ) (g : PipelineMetricsGuard)
    → All (λ x. is_edge x ≡ false) (finish g r at).0
unfolding finish
finish_inner r at g = elim (Bool-cases g.completed_recorded) [
  | inl e ↦ rw e tt
  | inr e ↦ rw e (refl, tt)
]
