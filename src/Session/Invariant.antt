-- ===== src/Session/Invariant.antt =====
-- What holds of a session between two payloads.
use voice_ai.Base.{
  ℕ, ◌≤◌, ◌<◌, ◌≡◌, refl, Bool, false, Option, none, some, List, [], ◌∷◌, ◌++◌, length, concat, ltb,
  leb, is_empty, Str, ◌||◌, ◌&&◌, not, codes, decimal, ◌==◌, if◌then◌else◌, arith, tests,
  Bool-cases, Option-cases, inl, inr,
}
use voice_ai.Proto.{
  VoicePayload, ClientMetricKind, session_start, session_end, interrupt, retry, playback_started,
  client_metric_report, audio_chunk, first_audio_received_to_playback,
}
use voice_ai.Cancel.{CancelTokens}
use voice_ai.Session.Audio
use voice_ai.Session.Audio.{
  AudioAccumulator, IsCounted, max_audio_bytes, min_utterance_bytes, max_utterance_ms,
  push-IsCounted, push, drain, len, elapsed_ms,
}
use voice_ai.Session.ClientMetrics.{Reported, max_client_metric_reports, remember_bounded}
use voice_ai.Session.{
  DoubleOps, Clock, VoiceSession, new_session, trigger_pipeline, on_session_start, buffer_chunk,
  on_audio_chunk, cancel_all, replay, on_interrupt, on_retry,
}
use voice_ai.Session.Payload.{
  max_playback_delay_ms, Arrival, run, on_playback_started, on_client_metric_report, on_session_end,
  handle, on_payload_with_trace_id,
}

-- A request that can be replayed was long enough, and has its message id.
abbrev pub Replayable : Option (List ℕ) → Option Str → Type 0
Replayable none id = Unit
Replayable (some audio) none = ⊥
Replayable (some audio) (some id) = min_utterance_bytes ≤ length audio

-- The part that a trigger needs of its session: the byte counter is exact, a saved request can be
-- replayed, and the report table is within its limit.
pub record Ready (buf : AudioAccumulator) (audio : Option (List ℕ)) (id : Option Str) (m : Reported)
    : Type 0 where
  pub counted : IsCounted buf
  pub replayable : Replayable audio id
  pub reports : length m ≤ max_client_metric_reports

-- Moreover, what is buffered between two payloads is below the limit.
pub record Sound (buf : AudioAccumulator) (audio : Option (List ℕ)) (id : Option Str) (m : Reported)
    : Type 0 where
  pub ready : Ready buf audio id m
  pub bounded : buf.total_bytes < max_audio_bytes

abbrev pub IsReady : (ct : CancelTokens) → VoiceSession ct → Type 0
IsReady ct s =
    Ready s.audio_buf s.last_request_audio s.last_request_message_id s.client_metrics_reported

abbrev pub IsSound : (ct : CancelTokens) → VoiceSession ct → Type 0
IsSound ct s =
    Sound s.audio_buf s.last_request_audio s.last_request_message_id s.client_metrics_reported

module _ (ct : CancelTokens) (fl : DoubleOps) where
  pub new-IsSound :
      (w : ct.World) (sid : Str) (now : ℕ) (trace_id : Str)
      → IsSound ct (new_session ct fl w sid now trace_id)
  unfolding new_session Audio.new
  new-IsSound w sid now trace_id = record {
    ready = record { counted = refl; replayable = tt; reports = omega arith };
    bounded = omega arith;
  }

  trigger-IsSound :
      (s : VoiceSession ct) (ended now : ℕ) (fresh : Str)
      → IsReady ct s
      → IsSound ct (trigger_pipeline ct fl s ended now fresh).0
  unfolding trigger_pipeline drain
  trigger-IsSound s ended now fresh r =
      elim (Bool-cases (ltb (length (concat s.audio_buf.chunks)) min_utterance_bytes)) [
        | inl short ↦ rw short (record {
          ready = record { counted = refl; replayable = r.replayable; reports = r.reports };
          bounded = omega arith;
        })
        | inr enough ↦ rw enough (record {
          ready = record {
            counted = refl;
            replayable = omega (tests, enough);
            reports = r.reports;
          };
          bounded = omega arith;
        })
      ]

  buffer-IsReady :
      (s : VoiceSession ct) (clock : Clock) (bytes : List ℕ) (id : Str)
      → IsReady ct s
      → IsReady ct (buffer_chunk ct fl s clock bytes id)
  unfolding buffer_chunk
  buffer-IsReady s clock bytes id r = record {
    counted = push-IsCounted s.audio_buf bytes clock.pushed r.counted;
    replayable = r.replayable;
    reports = r.reports;
  }

  not_full : (a b : Bool) (n : ℕ) → (a || b || leb max_audio_bytes n) ≡ false → n < max_audio_bytes
  not_full a b n h = ground arith

  chunk-IsSound :
      (s : VoiceSession ct) (clock : Clock) (fresh : Str) (bytes : List ℕ) (is_last : Bool)
      (id : Str)
      → IsSound ct s
      → IsSound ct (on_audio_chunk ct fl s clock fresh bytes is_last id).0
  unfolding on_audio_chunk len
  chunk-IsSound s clock fresh bytes is_last id h =
      let b = buffer_chunk ct fl s clock bytes id in
      let ready = buffer-IsReady s clock bytes id h.ready in
      let long = leb max_utterance_ms (elapsed_ms b.audio_buf clock.checked) in
      let fires = is_last || long || leb max_audio_bytes b.audio_buf.total_bytes in
      elim (Bool-cases fires) [
        | inl fire ↦ rw fire (trigger-IsSound b clock.received clock.triggered fresh ready)
        | inr quiet ↦ rw quiet (record {
          ready = ready;
          bounded = not_full is_last long b.audio_buf.total_bytes quiet;
        })
      ]

  retry-IsSound :
      (s : VoiceSession ct) (clock : Clock) (fresh : Str)
      → IsSound ct s
      → IsSound ct (on_retry ct fl s clock fresh).0
  unfolding on_retry replay cancel_all drain
  retry-IsSound s clock fresh h = elim (Option-cases s.last_request_audio) [
    | inl nothing ↦ rw (nothing, on_retry) h
    | inr (audio, saved) ↦
        rw (saved, on_retry)
          (trigger-IsSound _ clock.checked clock.triggered fresh (record {
            counted = push-IsCounted (drain s.audio_buf).0 audio clock.pushed refl;
            replayable = h.ready.replayable;
            reports = h.ready.reports;
          }))
  ]

  playback-IsSound :
      (s : VoiceSession ct) (clock : Clock) (id : Str) (request_id delay : ℕ)
      → IsSound ct s
      → IsSound ct (on_playback_started ct fl s clock id request_id delay).0
  unfolding on_playback_started
  playback-IsSound s clock id request_id delay h =
      let key =
        if is_empty id
        then (if request_id == 0 then [] else codes "legacy-request-" ++ decimal request_id)
        else id in
      let kept =
        remember_bounded s.client_metrics_reported (key, first_audio_received_to_playback)
          clock.received h.ready.reports in
      elim (Bool-cases (is_empty key || ltb max_playback_delay_ms delay)) [
        | inl bad ↦ rw bad h
        | inr good ↦ rw good (record {
          ready = record {
            counted = h.ready.counted;
            replayable = h.ready.replayable;
            reports = kept;
          };
          bounded = h.bounded;
        })
      ]

  report-IsSound :
      (s : VoiceSession ct) (clock : Clock) (id : Str) (metric : ClientMetricKind) (d : fl.F64)
      → IsSound ct s
      → IsSound ct (on_client_metric_report ct fl s clock id metric d).0
  unfolding on_client_metric_report
  report-IsSound s clock id metric d h =
      let kept =
        remember_bounded s.client_metrics_reported (id, metric) clock.received h.ready.reports in
      let range = fl.le (fl.of_nat 0) d && fl.le d (fl.of_nat 30_000) in
      elim (Bool-cases (is_empty id || not (fl.is_finite d) || not range)) [
        | inl bad ↦ rw bad h
        | inr good ↦ rw good (record {
          ready = record {
            counted = h.ready.counted;
            replayable = h.ready.replayable;
            reports = kept;
          };
          bounded = h.bounded;
        })
      ]

  handle-IsSound :
      (s : VoiceSession ct) (clock : Clock) (fresh : Str) (p : VoicePayload fl.F64)
      → IsSound ct s
      → IsSound ct (handle ct fl s clock fresh p).0
  unfolding handle on_session_start on_interrupt on_session_end
  handle-IsSound s clock fresh (session_start _ _ _ _ _ _) h = h
  handle-IsSound s clock fresh (audio_chunk _ _ _ bytes is_last id) h =
      chunk-IsSound s clock fresh bytes is_last id h
  handle-IsSound s clock fresh (interrupt _) h = h
  handle-IsSound s clock fresh (retry _) h = retry-IsSound s clock fresh h
  handle-IsSound s clock fresh (playback_started _ id request_id delay) h =
      playback-IsSound s clock id request_id delay h
  handle-IsSound s clock fresh (client_metric_report _ id metric d) h =
      report-IsSound s clock id metric d h
  handle-IsSound s clock fresh (session_end _ _) h = h
  handle-IsSound s clock fresh _ h = h

  -- Every payload keeps the session sound.
  pub on_payload-IsSound :
      (s : VoiceSession ct) (clock : Clock) (fresh trace_id : Str) (p : VoicePayload fl.F64)
      → IsSound ct s
      → IsSound ct (on_payload_with_trace_id ct fl s clock fresh trace_id p).0
  unfolding on_payload_with_trace_id
  on_payload-IsSound s clock fresh trace_id p h = elim (Bool-cases s.closed) [
    | inl done ↦ rw done h
    | inr open_still ↦ rw open_still (handle-IsSound _ clock fresh p h)
  ]

  run-IsSound_from :
      (s : VoiceSession ct) (as' : List (Arrival ct fl))
      → IsSound ct s
      → IsSound ct (run ct fl s as').0
  unfolding run
  run-IsSound_from s [] h = h
  run-IsSound_from s (a ∷ as') h =
      run-IsSound_from (on_payload_with_trace_id ct fl s a.clock a.fresh a.trace_id a.payload).0 as'
        (on_payload-IsSound s a.clock a.fresh a.trace_id a.payload h)

  -- After any payloads a new session is sound: the byte counter is exact, less than the limit is
  -- buffered, a saved request is at least of the minimal length and has its message id, and the
  -- report table is within its limit.
  pub run-IsSound :
      (w : ct.World) (sid : Str) (now : ℕ) (trace_id : Str) (as' : List (Arrival ct fl))
      → IsSound ct (run ct fl (new_session ct fl w sid now trace_id) as').0
  run-IsSound w sid now trace_id as' =
      run-IsSound_from (new_session ct fl w sid now trace_id) as' (new-IsSound w sid now trace_id)
