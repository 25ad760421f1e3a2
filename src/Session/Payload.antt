-- ===== src/Session/Payload.antt =====
-- crates/voice_server/src/session/mod.rs: `on_payload_with_trace_id`, the whole dispatch.
use voice_ai.Base.{
  ℕ, ◌*◌, true, not, ◌&&◌, ◌||◌, List, [], ◌∷◌, ◌++◌, is_empty, ltb, ◌==◌, if◌then◌else◌, Str,
  codes, decimal,
}
use voice_ai.Proto.{
  ClientMetricKind, first_audio_received_to_playback, input_end_to_final_audio_sent, VoicePayload,
  session_start, session_end, interrupt, retry, playback_started, client_metric_report, audio_chunk,
}
use voice_ai.Cancel.{CancelTokens}
use voice_ai.Session.ClientMetrics.{remember_client_metric_once}
use voice_ai.Session.{
  DoubleOps, Clock, VoiceSession, Effect, observes_playback, observes_final_audio_sent,
  on_session_start, on_audio_chunk, on_interrupt, on_retry,
}

abbrev pub max_playback_delay_ms : ℕ
max_playback_delay_ms = 30_000

module _ (ct : CancelTokens) (fl : DoubleOps) where
  open fl use {F64, is_finite, le, of_nat, div, from_secs}

  unfoldable pub on_playback_started :
      VoiceSession ct
      → Clock
      → (message_id : Str) (request_id delay_ms : ℕ) → VoiceSession ct × List (Effect ct fl)
  on_playback_started s clock message_id request_id delay_ms =
      let legacy = if request_id == 0 then [] else codes "legacy-request-" ++ decimal request_id in
      let id = if is_empty message_id then legacy else message_id in
      let (reported, counted) =
        remember_client_metric_once s.client_metrics_reported (id, first_audio_received_to_playback)
          clock.received in
      if is_empty id || ltb max_playback_delay_ms delay_ms then (s, []) else (
        record s { client_metrics_reported = reported },
        if counted then observes_playback (delay_ms * 1_000_000) ∷ [] else [],
      )

  abbrev observed : ClientMetricKind → ℕ → Effect ct fl
  observed first_audio_received_to_playback d = observes_playback d
  observed input_end_to_final_audio_sent d = observes_final_audio_sent d

  unfoldable pub on_client_metric_report :
      VoiceSession ct
      → Clock
      → (message_id : Str) (metric : ClientMetricKind) (duration_ms : F64)
      → VoiceSession ct × List (Effect ct fl)
  on_client_metric_report s clock message_id metric duration_ms =
      let in_range = le (of_nat 0) duration_ms && le duration_ms (of_nat 30_000) in
      let (reported, counted) =
        remember_client_metric_once s.client_metrics_reported (message_id, metric) clock.received in
      if is_empty message_id || not (is_finite duration_ms) || not in_range then (s, []) else (
        record s { client_metrics_reported = reported },
        if counted then observed metric (from_secs (div duration_ms (of_nat 1_000))) ∷ [] else [],
      )

  unfoldable pub on_session_end : VoiceSession ct → VoiceSession ct
  on_session_end s = record s { tokens = ct.cancel s.tokens s.global_cancel; closed = true }

  -- The arms of the `match`, for a session that is open.
  unfoldable pub handle :
      VoiceSession ct → Clock → Str → VoicePayload F64 → VoiceSession ct × List (Effect ct fl)
  handle s clock fresh (session_start _ sample_rate channels _ _ voice) =
      (on_session_start ct fl s sample_rate channels voice, [])
  handle s clock fresh (audio_chunk _ _ _ bytes is_last message_id) =
      on_audio_chunk ct fl s clock fresh bytes is_last message_id
  handle s clock fresh (interrupt _) = on_interrupt ct fl s
  handle s clock fresh (retry _) = on_retry ct fl s clock fresh
  handle s clock fresh (playback_started _ message_id request_id delay_ms) =
      on_playback_started s clock message_id request_id delay_ms
  handle s clock fresh (client_metric_report _ message_id metric duration_ms) =
      on_client_metric_report s clock message_id metric duration_ms
  handle s clock fresh (session_end _ _) = (on_session_end s, [])
  handle s clock fresh _ = (s, [])

  unfoldable pub on_payload_with_trace_id :
      VoiceSession ct
      → Clock
      → (fresh trace_id : Str) → VoicePayload F64
      → VoiceSession ct × List (Effect ct fl)
  on_payload_with_trace_id s clock fresh trace_id p =
      let s' : VoiceSession ct = record s { trace_id = trace_id } in
      if s.closed then (s', []) else handle s' clock fresh p

  -- `Drop`
  unfoldable pub drop_session : VoiceSession ct → VoiceSession ct
  drop_session s = record s { tokens = ct.cancel s.tokens s.global_cancel }

  -- A history of payloads, each with its clock, its trace id and the id that it would draw, and all effects in order.
  pub record Arrival : Type 0 where
    pub clock : Clock
    pub fresh : Str
    pub trace_id : Str
    pub payload : VoicePayload F64

  unfoldable pub run : VoiceSession ct → List Arrival → VoiceSession ct × List (Effect ct fl)
  run s [] = (s, [])
  run s (a ∷ as') =
      let (s1, out) = on_payload_with_trace_id s a.clock a.fresh a.trace_id a.payload in
      let (s2, more) = run s1 as' in (s2, out ++ more)
