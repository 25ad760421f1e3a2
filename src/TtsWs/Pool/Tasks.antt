-- ===== src/TtsWs/Pool/Tasks.antt =====
-- crates/voice_server/src/client/tts_ws.rs: any number of tasks over one pool. A run is a sequence of the
-- sections of Pool, each for any entry and lease, in any order: those of the code are among them.
use voice_ai.Base.{ℕ, ltb, if◌then◌else◌, Option, none, some, List, [], ◌∷◌, Str}
use voice_ai.TtsWs.Pool.{
  TtsWsPool, TtsWsLease, take_idle, reserve, connected, connect_failed, sent, forget, mark_closed,
  reap, release, new_pool,
}

pub data Section : Type 0 where
  takes : (session_id : Str) (entry : ℕ) → Section
  reserves : (session_id : Str) (now : ℕ) → Section
  connects : (entry now : ℕ) → Section
  fails_connect : (entry : ℕ) → Section
  sends : (entry now : ℕ) → Section
  forgets : (entry : ℕ) → Section
  invalidates : (entry : ℕ) → Section
  reaps : (entry generation lease_id now : ℕ) → Section
  releases : TtsWsLease → (now : ℕ) → Section

-- The pool, with the leases that were given out so far, the newest first.
pub record System : Type 0 where
  pub pool : TtsWsPool
  pub issued : List TtsWsLease

abbrev pub give_out : Option (TtsWsLease × TtsWsPool) → System → System
give_out none s = s
give_out (some (l, p)) s = record { pool = p; issued = l ∷ s.issued }

abbrev pub with_pool : TtsWsPool → System → System
with_pool p s = record s { pool = p }

-- No task has an address that is not yet in use.
unfoldable pub apply : Section → System → System
apply (takes session_id i) s =
    if ltb i s.pool.allocated then give_out (take_idle session_id i s.pool) s else s
apply (reserves session_id now) s = give_out (reserve session_id now s.pool) s
apply (connects i now) s = with_pool (connected i now s.pool) s
apply (fails_connect i) s = with_pool (connect_failed i s.pool) s
apply (sends i now) s = with_pool (sent i now s.pool) s
apply (forgets i) s = with_pool (forget i s.pool) s
apply (invalidates i) s = with_pool (mark_closed i s.pool) s
apply (reaps i generation lease_id now) s = with_pool (reap i generation lease_id now s.pool).1 s
apply (releases l now) s = with_pool (release l now s.pool).1 s

unfoldable pub run : List Section → System → System
run [] s = s
run (a ∷ more) s = run more (apply a s)

abbrev pub start : ℕ → System
start max_connections = record { pool = new_pool max_connections; issued = [] }
