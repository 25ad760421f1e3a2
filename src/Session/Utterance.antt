-- ===== src/Session/Utterance.antt =====
-- An utterance that arrives in several frames and is triggered by its last one.
use voice_ai.Base.{
  unwrap_or, or_else, ℕ, ◌+◌, ◌-◌, ◌/◌, ◌≤◌, ◌<◌, ◌≡◌, refl, sym, ap, ◌∙◌, Bool, true, false, ◌||◌,
  some, List, [], ◌∷◌, ◌++◌, append-nil, append_assoc, length, is_empty, concat, length-append, leb,
  ◌==◌, Str, if◌then◌else◌, arith, All, map,
}
use voice_ai.Proto.{audio_chunk}
use voice_ai.Cancel.{CancelTokens}
use voice_ai.Session.Audio.{
  min_utterance_bytes, max_audio_bytes, max_utterance_ms, IsCounted, concat-snoc, drain, push, len,
  elapsed_ms,
}
use voice_ai.Session.{
  DoubleOps, Clock, VoiceSession, PipelineArgs, Effect, spawns, next_id, pipeline_args,
  trigger_pipeline, buffer_chunk, on_audio_chunk,
}
use voice_ai.Session.Payload.{handle, on_payload_with_trace_id, Arrival, run}
use voice_ai.Session.Control.{open_step, trigger_spawns}

-- A frame of audio as it arrives.
pub record Frame : Type 0 where
  pub clock : Clock
  pub fresh : Str
  pub trace_id : Str
  pub sid : Str
  pub seq : ℕ
  pub timestamp_ms : ℕ
  pub bytes : List ℕ
  pub message_id : Str

abbrev pub spoken : List Frame → List ℕ
spoken fs = concat (map (λ (f : Frame). f.bytes) fs)

-- The frame is checked less than the longest utterance after the given instant.
abbrev pub IsInTime : ℕ → Frame → Type 0
IsInTime start f = (f.clock.checked - start) / 1_000_000 < max_utterance_ms

module _ (ct : CancelTokens) (fl : DoubleOps) where
  abbrev pub arrival : Bool → Frame → Arrival ct fl
  arrival is_last f = record {
    clock = f.clock;
    fresh = f.fresh;
    trace_id = f.trace_id;
    payload = audio_chunk f.sid f.seq f.timestamp_ms f.bytes is_last f.message_id;
  }

  -- All frames but the last one, and the last one.
  abbrev pub utterance : List Frame → Frame → List (Arrival ct fl)
  utterance fs last = map (arrival false) fs ++ arrival true last ∷ []

  -- The session holds the bytes of an utterance that began with the given frame.
  record Holds (s : VoiceSession ct) (f : Frame) (bs : List ℕ) (n : ℕ) : Type 0 where
    still_open : s.closed ≡ false
    held : concat s.audio_buf.chunks ≡ bs
    counted : s.audio_buf.total_bytes ≡ length bs
    started : s.audio_buf.started_at ≡ f.clock.pushed
    since : s.input_started_at ≡ some f.clock.first
    named : s.current_message_id ≡ some f.message_id
    count : s.next_request_id ≡ n

  abbrev after : VoiceSession ct → Frame → VoiceSession ct
  after s f = buffer_chunk ct fl (record s { trace_id = f.trace_id }) f.clock f.bytes f.message_id

  Holds-after :
      (s : VoiceSession ct) (f g : Frame) (bs : List ℕ) (n : ℕ)
      → Holds s f bs n
      → 0 < length bs
      → Holds (after s g) f (bs ++ g.bytes) n
  unfolding buffer_chunk push len
  Holds-after s f g bs n h some_bytes =
      let busy : (s.audio_buf.total_bytes == 0) ≡ false = ground (arith, h.counted) in
      record {
        still_open = h.still_open;
        held = concat-snoc s.audio_buf.chunks g.bytes ∙ ap (λ xs. xs ++ g.bytes) h.held;
        counted = omega (arith, h.counted, length-append bs g.bytes);
        started = rw busy h.started;
        since = rw busy h.since;
        named = rw busy h.named;
        count = h.count;
      }

  soon_after :
      (s : VoiceSession ct) (f g : Frame) (bs : List ℕ) (n : ℕ)
      → Holds (after s g) f bs n
      → IsInTime f.clock.pushed g
      → elapsed_ms (after s g).audio_buf g.clock.checked < max_utterance_ms
  unfolding elapsed_ms
  soon_after s f g bs n h soon = rw h.started soon

  quiet_step :
      (s : VoiceSession ct) (g : Frame)
      → s.closed ≡ false
      → (elapsed_ms (after s g).audio_buf g.clock.checked < max_utterance_ms)
      → (after s g).audio_buf.total_bytes < max_audio_bytes
      → on_payload_with_trace_id ct fl s g.clock g.fresh g.trace_id (arrival false g).payload
        ≡ (after s g, [])
  unfolding handle on_audio_chunk len
  quiet_step s g still_open in_time small =
      let b = after s g in
      let quiet : (leb max_utterance_ms (elapsed_ms b.audio_buf g.clock.checked)
            || leb max_audio_bytes b.audio_buf.total_bytes)
          ≡ false =
        ground arith in
      open_step ct fl s g.clock g.fresh g.trace_id (arrival false g).payload still_open
      ∙ ap
          (λ t.
            if t
            then trigger_pipeline ct fl b g.clock.received g.clock.triggered g.fresh
            else (b, []))
          quiet

  -- What one run gives: a request with these bytes and the name and the start of the first frame.
  abbrev pub Requested : List (Effect ct fl) → (first last : Frame) (bs : List ℕ) (n : ℕ) → Type 0
  Requested out first last bs n =
      (args : PipelineArgs ct) × (out ≡ spawns args ∷ [])
      × (args.audio ≡ bs)
      × (args.message_id ≡ first.message_id)
      × (args.request_id ≡ next_id n)
      × (args.input_started_at ≡ first.clock.first)
      × (args.input_ended_at ≡ last.clock.received)

  last_step :
      (s : VoiceSession ct) (f g : Frame) (bs : List ℕ) (n : ℕ)
      → Holds s f bs n
      → 0 < length bs
      → min_utterance_bytes ≤ length (bs ++ g.bytes)
      → Requested
          (on_payload_with_trace_id ct fl s g.clock g.fresh g.trace_id (arrival true g).payload).1
          f
          g
          (bs ++ g.bytes)
          n
  unfolding handle on_audio_chunk pipeline_args drain
  last_step s f g bs n h some_bytes enough =
      let b = after s g in
      let k = Holds-after s f g bs n h some_bytes in
      let long : min_utterance_bytes ≤ length (concat b.audio_buf.chunks) =
        omega (arith, enough, ap length k.held) in
      let (out, _) = trigger_spawns ct fl b g.clock.received g.clock.triggered g.fresh long in
      rw (open_step ct fl s g.clock g.fresh g.trace_id (arrival true g).payload h.still_open) (
        pipeline_args ct fl b g.clock.received g.clock.triggered g.fresh,
        out,
        k.held,
        ap (λ o. unwrap_or (or_else o b.last_request_message_id) g.fresh) k.named,
        ap next_id k.count,
        ap (λ o. unwrap_or o g.clock.triggered) k.since,
        refl,
      )

  rest_of_it :
      (s : VoiceSession ct) (f : Frame) (bs : List ℕ) (n : ℕ) (gs : List Frame) (last : Frame)
      → Holds s f bs n
      → 0 < length bs
      → All (IsInTime f.clock.pushed) gs
      → length bs + length (spoken gs) < max_audio_bytes
      → min_utterance_bytes ≤ length (bs ++ (spoken gs ++ last.bytes))
      → Requested (run ct fl s (utterance gs last)).1 f last (bs ++ (spoken gs ++ last.bytes)) n
  unfolding run
  rest_of_it s f bs n [] last h some_bytes in_time small enough =
      rw
        (append-nil
          (on_payload_with_trace_id ct fl s last.clock last.fresh last.trace_id
            (arrival true last).payload).1)
        (last_step s f last bs n h some_bytes enough)
  rest_of_it s f bs n (g ∷ gs) last h some_bytes (soon, in_time) small enough =
      let k = Holds-after s f g bs n h some_bytes in
      let sizes : length (bs ++ g.bytes) ≡ length bs + length g.bytes = length-append bs g.bytes in
      let parts : length (g.bytes ++ spoken gs) ≡ length g.bytes + length (spoken gs) =
        length-append g.bytes (spoken gs) in
      let same : (bs ++ g.bytes) ++ (spoken gs ++ last.bytes)
          ≡ bs ++ ((g.bytes ++ spoken gs) ++ last.bytes) =
        append_assoc bs g.bytes (spoken gs ++ last.bytes)
        ∙ ap (◌++◌ bs) (sym (append_assoc g.bytes (spoken gs) last.bytes)) in
      let quiet =
        quiet_step s g h.still_open (soon_after s f g (bs ++ g.bytes) n k soon)
          (omega (arith, k.counted, small, sizes, parts)) in
      let rest =
        rest_of_it (after s g) f (bs ++ g.bytes) n gs last k (omega (arith, some_bytes, sizes))
          in_time (omega (arith, small, sizes, parts)) (omega (arith, ap length same, enough)) in
      rw (quiet, sym same) rest

  Holds-first :
      (s : VoiceSession ct) (f : Frame)
      → s.closed ≡ false
      → concat s.audio_buf.chunks ≡ []
      → IsCounted s.audio_buf
      → is_empty f.message_id ≡ false
      → Holds (after s f) f f.bytes s.next_request_id
  unfolding buffer_chunk push len
  Holds-first s f still_open nothing counted named =
      let none_yet : s.audio_buf.total_bytes ≡ 0 = counted ∙ ap length nothing in
      let idle : (s.audio_buf.total_bytes == 0) ≡ true = ground (arith, none_yet) in
      record {
        still_open = still_open;
        held = concat-snoc s.audio_buf.chunks f.bytes ∙ ap (λ xs. xs ++ f.bytes) nothing;
        counted = omega (arith, none_yet);
        started = rw idle refl;
        since = rw idle refl;
        named = rw (idle, named) refl;
        count = refl;
      }

  -- Frames of audio whose first one has bytes and a message id, that arrive at an open session with
  -- an empty buffer, below the limits of time and size before the last frame, and that are together
  -- at least of the minimal length, start one request: with all their bytes in order, the id and the
  -- time of the first frame, the time of the last one, and the next request id.
  pub utterance-Requested :
      (s : VoiceSession ct) (first : Frame) (fs : List Frame) (last : Frame)
      → s.closed ≡ false
      → concat s.audio_buf.chunks ≡ []
      → IsCounted s.audio_buf
      → 0 < length first.bytes
      → is_empty first.message_id ≡ false
      → All (IsInTime first.clock.pushed) (first ∷ fs)
      → length first.bytes + length (spoken fs) < max_audio_bytes
      → min_utterance_bytes ≤ length (first.bytes ++ (spoken fs ++ last.bytes))
      → Requested
          (run ct fl s (utterance (first ∷ fs) last)).1
          first
          last
          (first.bytes ++ (spoken fs ++ last.bytes))
          s.next_request_id
  unfolding run
  utterance-Requested s first fs last still_open nothing counted some_bytes named (soon, in_time)
        small enough =
      let k = Holds-first s first still_open nothing counted named in
      let quiet =
        quiet_step s first still_open
          (soon_after s first first first.bytes s.next_request_id k soon)
          (omega (arith, k.counted, small)) in
      rw quiet (
        rest_of_it (after s first) first first.bytes s.next_request_id fs last k some_bytes in_time
          small enough)
