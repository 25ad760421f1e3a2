-- ===== src/Session/Tests.antt =====
-- Runs of the session at concrete values, with tokens that are numbers.
use voice_ai.Base.{
  ℕ, ◌*◌, ◌/◌, suc, ◌+◌, ◌<◌, ◌≡◌, refl, Bool, true, false, ◌||◌, none, some, List, [], ◌∷◌, any,
  All, leb, ◌==◌, if◌then◌else◌, arith, codes, replicate,
}
use voice_ai.Cancel.{CancelTokens, CancelLaws}
use voice_ai.Proto.{VoicePayload, audio_chunk, session_end, interrupt, retry, llm_delta}
use voice_ai.Session.{
  listening, DoubleOps, Clock, VoiceSession, PipelineArgs, sends, spawns, request_retried, next_id,
  new_session,
}
use voice_ai.Session.Payload.{on_payload_with_trace_id, Arrival, run}
use voice_ai.Session.Invariant.{IsSound, run-IsSound}
use voice_ai.Session.Control.{session_end_silences, interrupt_cancels, retry_replays}
use voice_ai.Session.Utterance.{Frame, Requested, utterance, utterance-Requested}

-- The next token, and which tokens are cancelled.
abbrev pub TestWorld : Type 0
TestWorld = ℕ × (ℕ → Bool)

abbrev pub change : ℕ → Bool → (ℕ → Bool) → ℕ → Bool
change i b f j = if j == i then b else f j

abbrev pub test_tokens : CancelTokens
test_tokens = record {
  World = TestWorld;
  Token = ℕ × List ℕ;
  new_token = λ (n, f). ((suc n, change n false f), (n, []));
  child_token = λ (n, f) (i, up). ((suc n, change n false f), (n, i ∷ up));
  cancel = λ (n, f) (i, up). (n, change i true f);
  is_cancelled = λ (n, f) (i, up). f i || any f up;
  same = λ (i, up) (j, up'). i == j;
}

abbrev pub Below : ℕ → List ℕ → Type 0
Below n is = All (λ i. i < n) is

pub any-change :
    (n : ℕ) (b : Bool) (f : ℕ → Bool) (is : List ℕ) → Below n is → any (change n b f) is ≡ any f is
any-change n b f [] h = refl
any-change n b f (i ∷ is) (lt, h) = ground (arith, any-change n b f is h)

pub Below-suc : (n : ℕ) (is : List ℕ) → Below n is → Below (suc n) is
Below-suc n [] h = tt
Below-suc n (i ∷ is) (lt, h) = (omega (arith, lt), Below-suc n is h)

pub any-cancel :
    (i : ℕ) (f : ℕ → Bool) (is : List ℕ) → any f is ≡ true → any (change i true f) is ≡ true
any-cancel i f [] h = h
any-cancel i f (j ∷ is) h = ground (arith, any-cancel i f is)

abbrev pub test_laws : CancelLaws test_tokens
test_laws = record {
  Known = λ (n, f) (i, up). Below n (i ∷ up);
  Child = λ (n, f) (i, up) (j, above). (above ≡ i ∷ up) × Below n (j ∷ above);
  new_fresh = λ (n, f). ((omega arith, tt), ground arith);
  new_keeps = λ (n, f) (i, up) h. any-change n false f (i ∷ up) h;
  new_known = λ (n, f) (i, up) h. Below-suc n (i ∷ up) h;
  child_made = λ (n, f) (i, up) h. (refl, (omega arith, Below-suc n (i ∷ up) h));
  child_born = λ (n, f) (i, up) h. ground (arith, any-change n false f (i ∷ up) h);
  child_keeps = λ (n, f) (i, up) (j, above) h. any-change n false f (j ∷ above) h;
  child_known = λ (n, f) (i, up) (j, above) (e, h). h;
  cancel_self = λ (n, f) (i, up). ground arith;
  cancel_child = λ (n, f) (i, up) (j, above) (e, h). ground arith;
  cancel_known = λ (n, f) (i, up) (j, above) h. h;
  cancel_keeps = λ (n, f) (i, up) (j, above) h. any-cancel i f (j ∷ above) h;
}

abbrev pub whole_numbers : DoubleOps
whole_numbers = record {
  F64 = ℕ;
  is_finite = λ _. true;
  le = leb;
  of_nat = λ n. n;
  div = λ a b. a / b;
  from_secs = λ n. n * 1_000_000_000;
}

abbrev at : ℕ → Clock
at n = record { received = n; first = n + 1; pushed = n + 2; checked = n + 3; triggered = n + 4 }

abbrev one_request : List ℕ
one_request = replicate 6_400 7

-- A session whose first request is running.
abbrev busy : VoiceSession test_tokens
busy = record {
  session_id = codes "s1";
  state = listening;
  closed = false;
  tokens = (2, λ _. false);
  global_cancel = (0, []);
  current_real_cancel = some (1, 0 ∷ []);
  next_request_id = 1;
  client_metrics_reported = [];
  trace_id = codes "t1";
  audio_buf = record { chunks = []; total_bytes = 0; started_at = 0 };
  input_started_at = none;
  last_request_audio = some one_request;
  current_message_id = none;
  last_request_message_id = some (codes "m1");
  sample_rate = 16_000;
  channels = 1;
  client_voice = none;
}

busy-IsSound : IsSound test_tokens busy
busy-IsSound = record {
  ready = record { counted = refl; replayable = omega arith; reports = omega arith };
  bounded = omega arith;
}

abbrev says : VoicePayload ℕ → Arrival test_tokens whole_numbers
says p = record { clock = at 100; fresh = codes "f"; trace_id = codes "t2"; payload = p }

abbrev chunk : VoicePayload ℕ
chunk = audio_chunk (codes "s1") 0 0 (1 ∷ 2 ∷ []) false (codes "m2")

run-IsSound_example :
    IsSound test_tokens
      (run test_tokens whole_numbers
        (new_session test_tokens whole_numbers (0, λ _. false) (codes "s1") 0 (codes "t"))
        (says chunk ∷ says (retry (codes "s1")) ∷ [])).0
run-IsSound_example =
    run-IsSound test_tokens whole_numbers (0, λ _. false) (codes "s1") 0 (codes "t")
      (says chunk ∷ says (retry (codes "s1")) ∷ [])

session_end_silences_example :
    let t =
      (on_payload_with_trace_id test_tokens whole_numbers busy
        (at 5)
        []
        (codes "t")
        (session_end (codes "s1") [])).0 in
    ((run test_tokens whole_numbers t (says chunk ∷ says (retry (codes "s1")) ∷ [])).1 ≡ [])
    × (test_tokens.is_cancelled
          (run test_tokens whole_numbers t (says chunk ∷ says (retry (codes "s1")) ∷ [])).0.tokens
          (0, [])
        ≡ true)
    × ((run test_tokens whole_numbers t (says chunk ∷ says (retry (codes "s1")) ∷ [])).0.audio_buf
        ≡ busy.audio_buf)
session_end_silences_example =
    session_end_silences test_tokens whole_numbers test_laws busy (at 5) [] (codes "t") (codes "s1")
      [] (says chunk ∷ says (retry (codes "s1")) ∷ []) refl

interrupt_cancels_example :
    let (t, effects) =
      on_payload_with_trace_id test_tokens whole_numbers busy
        (at 5)
        []
        (codes "t")
        (interrupt (codes "s1")) in
    (test_tokens.is_cancelled t.tokens (1, 0 ∷ []) ≡ true)
    × (test_tokens.is_cancelled t.tokens t.global_cancel ≡ false)
    × (t.current_real_cancel ≡ none)
    × (effects ≡ sends (llm_delta (codes "s1") (codes "[已打断]") true (codes "m1")) ∷ [])
    × (t.audio_buf ≡ busy.audio_buf)
    × (t.last_request_audio ≡ some one_request)
interrupt_cancels_example =
    interrupt_cancels test_tokens whole_numbers test_laws busy (at 5) [] (codes "t") (codes "s1")
      (1, 0 ∷ []) refl (refl, (omega arith, (omega arith, tt)))

retry_replays_example :
    let (t, out) =
      on_payload_with_trace_id test_tokens whole_numbers busy
        (at 5)
        []
        (codes "t")
        (retry (codes "s1")) in
    (args : PipelineArgs test_tokens) × (out ≡ request_retried ∷ spawns args ∷ [])
    × (args.audio ≡ one_request)
    × (args.message_id ≡ codes "m1")
    × (args.request_id ≡ next_id 1)
    × (test_tokens.is_cancelled t.tokens (1, 0 ∷ []) ≡ true)
    × (test_tokens.is_cancelled t.tokens args.cancel ≡ false)
retry_replays_example =
    retry_replays test_tokens whole_numbers test_laws busy (at 5) [] (codes "t") (codes "s1")
      (codes "m1") one_request (1, 0 ∷ []) busy-IsSound refl refl refl
      (refl, (omega arith, (omega arith, tt)))

abbrev part : ℕ → List ℕ → Frame
part n bs = record {
  clock = at n;
  fresh = [];
  trace_id = codes "t";
  sid = codes "s1";
  seq = n;
  timestamp_ms = n;
  bytes = bs;
  message_id = codes "m2";
}

utterance-Requested_example :
    Requested test_tokens whole_numbers
      (run test_tokens whole_numbers busy (
        utterance test_tokens whole_numbers
          (part 1 (5 ∷ []) ∷ part 2 (6 ∷ []) ∷ [])
          (part 3 one_request))).1
      (part 1 (5 ∷ []))
      (part 3 one_request)
      (5 ∷ 6 ∷ one_request)
      1
utterance-Requested_example =
    utterance-Requested test_tokens whole_numbers busy (part 1 (5 ∷ [])) (part 2 (6 ∷ []) ∷ [])
      (part 3 one_request) refl refl refl (omega arith) refl (omega arith, (omega arith, tt))
      (omega arith) (omega arith)
