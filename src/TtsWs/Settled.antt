-- ===== src/TtsWs/Settled.antt =====
-- crates/voice_server/src/client/tts_ws.rs: reading events, and the end of a session, give up the lease.
use voice_ai.Base.{
  ℕ, max, ◌-◌, ◌==◌, ltb, refl, Bool, true, false, not, Option, none, some, List, [], ◌∷◌, length,
  if◌then◌else◌,
}
use voice_ai.Client.{ClientError, ok, err}
use voice_ai.TtsWs.Message.{TtsWsConfig, audio_start, audio, audio_done, session_done, error}
use voice_ai.TtsWs.Session.{Frame, late, frame, Outside, Call, ◌>>◌, observe, give_up}
use voice_ai.TtsWs.Events.{
  give_error, note_interval, note_first, on_audio, note_complete, on_session_done, elapsed_now,
  on_frame, read_round, read_loop, next_event,
}
use voice_ai.TtsWs.Uses.{Uses, Uses-bind, Uses-observe, Uses-pure, Uses-get, Uses-modify, Uses-when}
use voice_ai.TtsWs.Discipline.{Uses-now, reconnect_allowed}
use voice_ai.TtsWs.Session.{
  audio_chunk, first_audio, complete, audio_duration, realtime_factor, provider_error, collecting,
}
use voice_ai.TtsWs.Events.{Event, timed_out, saturating_add, rate}

module _ (cfg : TtsWsConfig) (o : Outside) where
  Uses-give_up : Uses false (give_up o) false
  unfolding give_up
  Uses-give_up = record { allowed = λ s h. reconnect_allowed o s.lease s refl; holds = λ s h. refl }

  Uses-give_error : (e : ClientError) → Uses false (give_error cfg o e) false
  unfolding give_error
  Uses-give_error e = Uses-bind false Uses-give_up (λ _.
      Uses-bind false
        (Uses-modify false (λ s. record s { utterance_started_at = none }) (λ s. refl))
        (λ _. Uses-pure false (some (err e))))

  Uses-note_interval : (t : Option ℕ) (n : ℕ) → Uses false (note_interval cfg o t n) false
  Uses-note_interval none n = Uses-pure false tt
  Uses-note_interval (some t) n = Uses-observe false _

  Uses-note_first : (t : Option ℕ) → Uses false (note_first cfg o t) false
  Uses-note_first none = Uses-pure false tt
  Uses-note_first (some t) =
      Uses-bind false (Uses-now o false) (λ n. Uses-observe false (first_audio (n - t)))

  Uses-on_audio : (bytes : List ℕ) → Uses false (on_audio cfg o bytes) false
  unfolding on_audio
  Uses-on_audio bytes = Uses-bind false (Uses-observe false (audio_chunk (length bytes))) (λ _.
      Uses-bind false (Uses-now o false) (λ t.
        Uses-bind false (Uses-get false (λ s. s.last_audio_at)) (λ last.
          Uses-bind false (Uses-note_interval last t) (λ _.
            Uses-bind false
              (Uses-modify false
                (λ s. record s {
                  last_audio_at = some t;
                  audio_bytes = saturating_add 64 s.audio_bytes (length bytes);
                  seq = saturating_add 32 s.seq 1;
                })
                (λ s. refl))
              (λ _. Uses-bind false (Uses-get false (λ s. s.first_audio_logged)) (λ logged.
                Uses-bind false
                  (Uses-modify false (λ s. record s { first_audio_logged = true }) (λ s. refl))
                  (λ _. Uses-bind false (Uses-get false (λ s. s.utterance_started_at)) (λ started.
                    Uses-bind false (Uses-when false (not logged) (Uses-note_first started)) (λ _.
                      Uses-bind false (Uses-get false (λ s. s.seq)) (λ seq.
                        Uses-pure false (
                          some
                            (ok (record { seq = seq; bytes = bytes; is_last = false })))))))))))))

  Uses-note_complete : (t : Option ℕ) → Uses false (note_complete cfg o t) false
  Uses-note_complete none = Uses-pure false tt
  Uses-note_complete (some t) = Uses-bind false (Uses-now o false) (λ n.
      Uses-bind false (Uses-observe false (complete (n - t))) (λ _.
        Uses-bind false (Uses-get false (λ s. s.audio_bytes)) (λ bytes.
          Uses-bind false
            (Uses-observe false (audio_duration bytes (rate cfg o) (max cfg.channels 1)))
            (λ _. Uses-when false (ltb 0 (n - t)) (
              Uses-observe false
                (realtime_factor bytes (rate cfg o) (max cfg.channels 1) (n - t)))))))

  Uses-on_session_done : Uses false (on_session_done cfg o) false
  unfolding on_session_done
  Uses-on_session_done = Uses-bind false (Uses-get false (λ s. s.utterance_started_at)) (λ started.
      Uses-bind false (Uses-note_complete started) (λ _.
        Uses-bind false
          (Uses-modify false
            (λ s. record s {
              utterance_text = [];
              utterance_state = collecting;
              utterance_started_at = none;
              first_audio_logged = false;
              audio_bytes = 0;
              last_audio_at = none;
              seq = saturating_add 32 s.seq 1;
            })
            (λ s. refl))
          (λ _. Uses-bind false (Uses-get false (λ s. s.seq)) (λ seq.
            Uses-pure false (some (ok (record { seq = seq; bytes = []; is_last = true })))))))

  Uses-provider_error :
      (e : ClientError) → Uses false (observe provider_error >> give_error cfg o e) false
  Uses-provider_error e =
      Uses-bind false (Uses-observe false provider_error) (λ _. Uses-give_error e)

  Uses-on_frame :
      (f : Frame) {rest : Call Event}
      → Uses false rest false
      → Uses false (on_frame cfg o f rest) false
  unfolding on_frame
  Uses-on_frame late u = Uses-give_error _
  Uses-on_frame (frame (ok (audio bytes))) u = Uses-on_audio bytes
  Uses-on_frame (frame (ok audio_start)) u = u
  Uses-on_frame (frame (ok (audio_done false))) u = u
  Uses-on_frame (frame (ok (audio_done true))) u = Uses-provider_error _
  Uses-on_frame (frame (ok session_done)) u = Uses-on_session_done
  Uses-on_frame (frame (ok (error message))) u = Uses-provider_error _
  Uses-on_frame (frame (err e)) u = Uses-give_error e

  Uses-elapsed_now : (t : Option ℕ) → Uses false (elapsed_now cfg o t) false
  Uses-elapsed_now none = Uses-pure false cfg.timeout
  Uses-elapsed_now (some t) =
      Uses-bind false (Uses-now o false) (λ n. Uses-pure false (cfg.timeout - (n - t)))

  pub Uses-choice :
      {A : Type 0} (b : Bool) {m n : Call A}
      → Uses false m false
      → Uses false n false
      → Uses false (if b then m else n) false
  Uses-choice true u v = u
  Uses-choice false u v = v

  Uses-read_round :
      (lease : Option ℕ) {more : Call Event}
      → Uses false more false
      → Uses false (read_round cfg o lease more) false
  unfolding read_round
  Uses-read_round none u = Uses-pure false none
  Uses-read_round (some lease) {more} u =
      Uses-bind false (Uses-get false (λ s. s.utterance_started_at)) (λ started.
        Uses-bind false (Uses-elapsed_now started)
          (λ remaining. Uses-choice (remaining == 0) (Uses-give_error (timed_out cfg o)) u))

  pub Uses-read_loop : (fs : List Frame) → Uses false (read_loop cfg o fs) false
  unfolding read_loop
  Uses-read_loop [] =
      Uses-bind false (Uses-get false (λ s. s.lease))
        (λ lease. Uses-read_round lease (Uses-give_error (timed_out cfg o)))
  Uses-read_loop (f ∷ fs) = Uses-bind false (Uses-get false (λ s. s.lease)) (λ lease.
      Uses-read_round lease (
        Uses-bind false (Uses-modify false (λ s. record s { incoming = fs }) (λ s. refl))
          (λ _. Uses-on_frame f (Uses-read_loop fs))))

  pub Uses-next_event : Uses false (next_event cfg o) false
  unfolding next_event
  Uses-next_event = record {
    allowed = λ s h. (Uses-read_loop s.incoming).allowed s h;
    holds = λ s h. (Uses-read_loop s.incoming).holds s h;
  }
