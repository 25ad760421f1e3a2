-- ===== src/Session/Control.antt =====
-- What the control payloads do: the end of a session, an interruption, and a replay.
use voice_ai.Base.{
  unwrap_or, or_else, ℕ, ◌≤◌, ◌≡◌, refl, ap, ◌∙◌, true, false, Option, none, some, List, [], ◌∷◌,
  append-nil, length, concat, Str, if◌then◌else◌, arith, le→not_ltb, codes,
}
use voice_ai.Proto.{VoicePayload, llm_delta, session_end, interrupt, retry}
use voice_ai.Cancel.{CancelTokens, CancelLaws}
use voice_ai.Session.Audio.{min_utterance_bytes, drain, push}
use voice_ai.Session.{
  DoubleOps, Clock, VoiceSession, PipelineArgs, sends, spawns, request_retried, pipeline_args,
  next_id, trigger_pipeline, cancel_all, on_interrupt, replay, on_retry,
}
use voice_ai.Session.Payload.{on_session_end, handle, on_payload_with_trace_id, Arrival, run}
use voice_ai.Session.Invariant.{IsSound, Replayable}

module _ (ct : CancelTokens) (fl : DoubleOps) where
  closed_step :
      (s : VoiceSession ct) (clock : Clock) (fresh trace_id : Str) (p : VoicePayload fl.F64)
      → s.closed ≡ true
      → on_payload_with_trace_id ct fl s clock fresh trace_id p
        ≡ (record s { trace_id = trace_id }, [])
  unfolding on_payload_with_trace_id
  closed_step s clock fresh trace_id p h =
      let s' : VoiceSession ct = record s { trace_id = trace_id } in
      ap (λ b. if b then (s', []) else handle ct fl s' clock fresh p) h

  pub open_step :
      (s : VoiceSession ct) (clock : Clock) (fresh trace_id : Str) (p : VoicePayload fl.F64)
      → s.closed ≡ false
      → on_payload_with_trace_id ct fl s clock fresh trace_id p
        ≡ handle ct fl (record s { trace_id = trace_id }) clock fresh p
  unfolding on_payload_with_trace_id
  open_step s clock fresh trace_id p h =
      let s' : VoiceSession ct = record s { trace_id = trace_id } in
      ap (λ b. if b then (s', []) else handle ct fl s' clock fresh p) h

  closed_run :
      (s : VoiceSession ct) (as' : List (Arrival ct fl))
      → s.closed ≡ true
      → ((run ct fl s as').1 ≡ [])
        × ((run ct fl s as').0.tokens ≡ s.tokens)
        × ((run ct fl s as').0.audio_buf ≡ s.audio_buf)
  unfolding run
  closed_run s [] h = (refl, refl, refl)
  closed_run s (a ∷ as') h =
      let (e, t, b) = closed_run (record s { trace_id = a.trace_id }) as' h in
      rw (closed_step s a.clock a.fresh a.trace_id a.payload h) (e, t, b)

  -- After `SessionEnd` no further payload has an effect or is buffered, and the token that every
  -- pipeline of the session descends from is cancelled.
  pub session_end_silences :
      (laws : CancelLaws ct) (s : VoiceSession ct) (clock : Clock) (fresh trace_id sid reason : Str)
      (as' : List (Arrival ct fl))
      → s.closed ≡ false
      → let t =
          (on_payload_with_trace_id ct fl s clock fresh trace_id (session_end sid reason)).0 in
        ((run ct fl t as').1 ≡ [])
        × (ct.is_cancelled (run ct fl t as').0.tokens s.global_cancel ≡ true)
        × ((run ct fl t as').0.audio_buf ≡ s.audio_buf)
  unfolding on_payload_with_trace_id handle on_session_end
  session_end_silences laws s clock fresh trace_id sid reason as' still_open =
      let t : VoiceSession ct = record s {
        trace_id = trace_id;
        tokens = ct.cancel s.tokens s.global_cancel;
        closed = true;
      } in
      let (e, w, b) = closed_run t as' refl in
      rw still_open (e, rw w (laws.cancel_self s.tokens s.global_cancel), b)

  cancelled_after :
      (laws : CancelLaws ct) (s : VoiceSession ct) (u : ct.Token)
      → laws.Child s.tokens s.global_cancel u
      → ct.is_cancelled (cancel_all ct fl s).tokens u ≡ true
  unfolding cancel_all
  cancelled_after laws s u child =
      laws.new_keeps (ct.cancel s.tokens s.global_cancel) u (
        laws.cancel_known s.tokens s.global_cancel u
          (laws.child_known s.tokens s.global_cancel u child))
      ∙ laws.cancel_child s.tokens s.global_cancel u child

  -- `Interrupt` cancels every pipeline made from the session's token, leaves a token that is not
  -- cancelled and no current pipeline, and sends one final delta with the id of the last request.
  -- Buffered audio and the saved request stay.
  pub interrupt_cancels :
      (laws : CancelLaws ct) (s : VoiceSession ct) (clock : Clock) (fresh trace_id sid : Str)
      (u : ct.Token)
      → s.closed ≡ false
      → laws.Child s.tokens s.global_cancel u
      → let (t, effects) = on_payload_with_trace_id ct fl s clock fresh trace_id (interrupt sid) in
        (ct.is_cancelled t.tokens u ≡ true)
        × (ct.is_cancelled t.tokens t.global_cancel ≡ false)
        × (t.current_real_cancel ≡ none)
        × (effects
            ≡ sends (
                llm_delta s.session_id
                  (codes "[已打断]")
                  true
                  (unwrap_or s.last_request_message_id []))
              ∷ [])
        × (t.audio_buf ≡ s.audio_buf)
        × (t.last_request_audio ≡ s.last_request_audio)
  unfolding on_payload_with_trace_id handle on_interrupt
  interrupt_cancels laws s clock fresh trace_id sid u still_open child = rw still_open (
    cancelled_after laws s u child,
    (laws.new_fresh (ct.cancel s.tokens s.global_cancel)).1,
    refl,
    refl,
    refl,
    refl,
  )

  pub trigger_spawns :
      (s : VoiceSession ct) (ended now : ℕ) (fresh : Str)
      → min_utterance_bytes ≤ length (concat s.audio_buf.chunks)
      → ((trigger_pipeline ct fl s ended now fresh).1
          ≡ spawns (pipeline_args ct fl s ended now fresh) ∷ [])
        × ((trigger_pipeline ct fl s ended now fresh).0.tokens
            ≡ (ct.child_token s.tokens s.global_cancel).0)
  unfolding trigger_pipeline drain
  trigger_spawns s ended now fresh enough =
      rw (le→not_ltb (length (concat s.audio_buf.chunks)) min_utterance_bytes enough) (refl, refl)

  replay-audio :
      (s : VoiceSession ct) (clock : Clock) (audio : List ℕ)
      → concat (replay ct fl s clock audio).audio_buf.chunks ≡ audio
  unfolding replay drain push
  replay-audio s clock audio = append-nil audio

  saved_enough :
      {o : Option (List ℕ)} {n : Option Str} {audio : List ℕ} {id : Str}
      → Replayable o n
      → o ≡ some audio
      → n ≡ some id
      → min_utterance_bytes ≤ length audio
  saved_enough {o} {n} {audio} {id} r saved named =
      let r' : Replayable (some audio) n = rw saved at r in
      let r'' : Replayable (some audio) (some id) = rw named at r' in r''

  retried :
      (s : VoiceSession ct) (clock : Clock) (fresh : Str) (audio : List ℕ)
      → s.last_request_audio ≡ some audio
      → on_retry ct fl s clock fresh ≡ (
          let (after, effects) =
            trigger_pipeline ct fl
              (replay ct fl s clock audio)
              clock.checked
              clock.triggered
              fresh in
          (after, request_retried ∷ effects))
  unfolding on_retry
  retried s clock fresh audio saved =
      ap
        (λ (o : Option (List ℕ)). elim o [
          | none ↦ (s, request_retried ∷ [])
          | some audio' ↦
              let (after, effects) =
                trigger_pipeline ct fl (replay ct fl s clock audio') clock.checked clock.triggered
                  fresh in
              (after, request_retried ∷ effects)
        ])
        saved

  replay_args :
      (s : VoiceSession ct) (clock : Clock) (fresh : Str) (audio : List ℕ) (id : Str)
      → s.last_request_message_id ≡ some id
      → let args =
          pipeline_args ct fl (replay ct fl s clock audio) clock.checked clock.triggered fresh in
        (args.audio ≡ audio)
        × (args.message_id ≡ id)
        × (args.request_id ≡ next_id s.next_request_id)
  unfolding pipeline_args replay drain cancel_all push
  replay_args s clock fresh audio id named =
      (append-nil audio, ap (λ o. unwrap_or (or_else o o) fresh) named, refl)

  replay_tokens :
      (laws : CancelLaws ct) (s : VoiceSession ct) (clock : Clock) (audio : List ℕ) (u : ct.Token)
      → laws.Child s.tokens s.global_cancel u
      → let r = replay ct fl s clock audio in
        (ct.is_cancelled (ct.child_token r.tokens r.global_cancel).0 u ≡ true)
        × (ct.is_cancelled
              (ct.child_token r.tokens r.global_cancel).0
              (ct.child_token r.tokens r.global_cancel).1
            ≡ false)
  unfolding replay cancel_all
  replay_tokens laws s clock audio u child =
      let w = ct.cancel s.tokens s.global_cancel in
      let (w', g) = ct.new_token w in
      let known =
        laws.cancel_known s.tokens s.global_cancel u
          (laws.child_known s.tokens s.global_cancel u child) in
      (
        laws.child_keeps (ct.new_token w).0 (ct.new_token w).1 u (laws.new_known w u known)
            ∙ laws.new_keeps w u known
            ∙ laws.cancel_child s.tokens s.global_cancel u child,
        laws.child_born (ct.new_token w).0 (ct.new_token w).1 (laws.new_fresh w).0
            ∙ (laws.new_fresh w).1,
      )

  -- `Retry` of a saved request stops the pipelines of the session and starts one new request with
  -- the saved audio and the saved message id, a new request id and a token that is not cancelled.
  pub retry_replays :
      (laws : CancelLaws ct) (s : VoiceSession ct) (clock : Clock) (fresh trace_id sid id : Str)
      (audio : List ℕ) (u : ct.Token)
      → IsSound ct s
      → s.closed ≡ false
      → s.last_request_audio ≡ some audio
      → s.last_request_message_id ≡ some id
      → laws.Child s.tokens s.global_cancel u
      → let (t, out) = on_payload_with_trace_id ct fl s clock fresh trace_id (retry sid) in
        (args : PipelineArgs ct) × (out ≡ request_retried ∷ spawns args ∷ [])
        × (args.audio ≡ audio)
        × (args.message_id ≡ id)
        × (args.request_id ≡ next_id s.next_request_id)
        × (ct.is_cancelled t.tokens u ≡ true)
        × (ct.is_cancelled t.tokens args.cancel ≡ false)
  unfolding handle pipeline_args
  retry_replays laws s clock fresh trace_id sid id audio u sound still_open saved named child =
      let s' : VoiceSession ct = record s { trace_id = trace_id } in
      let r = replay ct fl s' clock audio in
      let enough = saved_enough sound.ready.replayable saved named in
      let long : min_utterance_bytes ≤ length (concat r.audio_buf.chunks) =
        omega (arith, enough, ap length (replay-audio s' clock audio)) in
      let (same_audio, same_id, same_request) = replay_args s' clock fresh audio id named in
      let (stopped, alive) = replay_tokens laws s' clock audio u child in
      let (out, tokens) = trigger_spawns r clock.checked clock.triggered fresh long in
      rw
        (
          open_step s clock fresh trace_id (retry sid) still_open,
          retried s' clock fresh audio saved,
        )
        (
          pipeline_args ct fl r clock.checked clock.triggered fresh,
          ap (◌∷◌ request_retried) out,
          same_audio,
          same_id,
          same_request,
          ap (λ w. ct.is_cancelled w u) tokens ∙ stopped,
          ap (λ w. ct.is_cancelled w (ct.child_token r.tokens r.global_cancel).1) tokens ∙ alive,
        )
