-- ===== src/TtsWs/Tests.antt =====
-- The pool and a session on concrete calls.
use voice_ai.Base.{
  any, ℕ, ◌≤◌, ◌≡◌, refl, ◌==◌, ◌⊎◌, if◌then◌else◌, true, false, Option, none, some, List, [], ◌∷◌,
  ◌++◌, length, count, codes, arith,
}
use voice_ai.Client.{ClientError, ws, ok}
use voice_ai.TtsWs.Message.{TtsWsConfig, audio, audio_start, session_done}
use voice_ai.TtsWs.Pool.{
  TtsWsPool, TtsWsLease, take_idle, take_first, reserve, connected, check_owner, release,
}
use voice_ai.TtsWs.Pool.Tasks.{Section, takes, reserves, connects, releases, apply, run, start}
use voice_ai.TtsWs.Pool.Exclusive.{owners, run-exclusive}
use voice_ai.TtsWs.Pool.Slots.{run-bounded}
use voice_ai.TtsWs.Pool.Handover.{release-taken}
use voice_ai.TtsWs.Session.{
  Outside, Frame, frame, TtsWsInputSession, new_session, send_text, flush, send_accepted,
  ensure_lease, ensure_held, acquire_lease, send, send_on, retry_text, reconnect, give_up,
  flush_lease, flush_held, retry_done,
}
use voice_ai.TtsWs.Events.{
  event_loop, synthesize, calls, close, finish, SessionCall, sends_text, flushes, reads,
}
use voice_ai.TtsWs.Uses.{held_after}
use voice_ai.TtsWs.Ended.{calls-end, synthesize-ends}
use voice_ai.TtsWs.Texts.{heard}
use voice_ai.TtsWs.Delivered.{send_text-heard}
use voice_ai.TtsWs.Fuel.{event_loop_enough}
use voice_ai.TtsWs.Flushed.{flush-heard}

abbrev first_lease : TtsWsLease
first_lease = record { entry = 0; session_id = codes "a"; generation = 1; lease_id = 1 }

-- A connection is opened, given back, taken by another session, and given back once more by the first.
abbrev two_sessions : List Section
two_sessions =
    reserves (codes "a") 0
    ∷ connects 0 1
    ∷ releases first_lease 2
    ∷ takes (codes "b") 0
    ∷ releases first_lease 3
    ∷ []

run-exclusive_example : owners 0 (run two_sessions (start 4)) ≤ 1
run-exclusive_example = run-exclusive 4 two_sessions 0 (omega arith)

second_owns : owners 0 (run two_sessions (start 4)) ≡ 1
unfolding run apply reserve connected release take_idle check_owner
second_owns = refl

run-bounded_example :
    (length (run two_sessions (start 0)).pool.entries ≤ 1)
    × (count (λ j. j == 0) (run two_sessions (start 0)).pool.entries ≤ 1)
run-bounded_example = run-bounded 0 two_sessions 0

abbrev in_use_pool : TtsWsPool
in_use_pool = (run (reserves (codes "a") 0 ∷ connects 0 1 ∷ []) (start 1)).pool

first_lease_owns : check_owner first_lease in_use_pool ≡ true
unfolding run apply reserve connected check_owner
first_lease_owns = refl

first_lease_listed : any (λ i. i == 0) in_use_pool.entries ≡ true
unfolding run apply reserve connected
first_lease_listed = refl

release-taken_example :
    (check_owner first_lease (release first_lease 5 in_use_pool).1 ≡ false)
    × (k : TtsWsLease) × (q : TtsWsPool) × (take_first
          (codes "b")
          (release first_lease 5 in_use_pool).1.entries
          (release first_lease 5 in_use_pool).1
        ≡ some (k, q))
    × (check_owner k q ≡ true)
release-taken_example =
    release-taken first_lease 5 (codes "b") in_use_pool first_lease_owns first_lease_listed

abbrev config : TtsWsConfig
config = record {
  voice = none;
  task_type = none;
  language = none;
  instructions = none;
  response_format = codes "pcm";
  sample_rate = some 24000;
  channels = 1;
  ref_audio = none;
  ref_text = none;
  max_new_tokens = none;
  stream_audio = true;
  timeout = 1000;
  max_connections = 4;
}

-- The second message that is sent does not arrive.
abbrev second_fails : ℕ → Option ClientError
second_fails n = if n == 3 then some (ws (codes "gone")) else none

abbrev outside : Outside
outside = record { acquire_error = λ n. none; send_error = second_fails; clock = λ n. n }

abbrev frames : List Frame
frames = frame (ok audio_start) ∷ frame (ok (audio (1 ∷ 2 ∷ []))) ∷ frame (ok session_done) ∷ []

abbrev script : List SessionCall
script = sends_text (codes "a") ∷ sends_text (codes "b") ∷ flushes ∷ reads ∷ reads ∷ []

calls-end_example :
    (held_after
        ((calls config outside script (new_session frames)).0
          ++ (finish config outside (calls config outside script (new_session frames)).1).0)
        none
      ≡ some none)
    × (held_after
          ((calls config outside script (new_session frames)).0
            ++ (close config outside (calls config outside script (new_session frames)).1).0)
          none
        ≡ some none)
calls-end_example = calls-end config outside script frames

synthesize-ends_example :
    held_after (synthesize config outside frames (codes "a")).0 none ≡ some none
synthesize-ends_example = synthesize-ends config outside frames (codes "a")

-- A session that has sent "a" and has its lease.
abbrev talking : TtsWsInputSession
talking = record (new_session frames) {
  lease = some 0;
  config_sent = true;
  utterance_text = codes "a";
  input_started_at = some 2;
  readings = 3;
}

talking_accepts : (send_text outside (codes "b") talking).2 ≡ ok tt
unfolding send_text send_accepted ensure_lease ensure_held acquire_lease send send_on retry_text
    reconnect give_up
talking_accepts = refl

send_text-heard_example :
    ((heard (send_text outside (codes "b") talking).0 (codes "a", false, false)
        ≡ (codes "ab", false, false))
      ⊎ (heard (send_text outside (codes "b") talking).0 (codes "a", false, false)
          ≡ (codes "b", false, true)))
    × ((send_text outside (codes "b") talking).1.utterance_text ≡ codes "ab")
send_text-heard_example = send_text-heard outside (codes "b") talking (codes "a") talking_accepts

-- What it had heard before is not said again.
first_text_lost :
    heard (send_text outside (codes "b") talking).0 (codes "a", false, false)
    ≡ (codes "b", false, true)
unfolding send_text send_accepted ensure_lease ensure_held acquire_lease send send_on retry_text
    reconnect give_up
first_text_lost = refl

talking_flushes : (flush outside talking).2 ≡ ok tt
unfolding flush flush_lease flush_held acquire_lease send send_on retry_done reconnect give_up
talking_flushes = refl

flush-heard_example :
    ((heard (flush outside talking).0 (codes "a", false, false)).0 ≡ codes "a")
    × ((heard (flush outside talking).0 (codes "a", false, false)).1 ≡ true)
flush-heard_example = flush-heard outside talking false false talking_flushes

event_loop_enough_example :
    event_loop config outside 10 talking ≡ event_loop config outside 6 talking
event_loop_enough_example = event_loop_enough config outside 4 6 talking (omega arith)
