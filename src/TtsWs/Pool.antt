-- ===== src/TtsWs/Pool.antt =====
-- crates/voice_server/src/client/tts_ws.rs: the pool of connections. Each function is what one holder of
-- a lock does before it lets go of it, so that tasks interleave between any two of them. An `Arc` of an
-- entry is its address in the store; instants are nanoseconds.
pub mod Tasks
pub mod Versions
pub mod Exclusive
pub mod Slots
pub mod Handover
use voice_ai.Base.{
  ℕ, suc, ◌+◌, ◌-◌, ◌%◌, ◌^◌, max, ltb, leb, ◌==◌, Bool, true, false, not, ◌&&◌, Option, none, some,
  List, [], ◌∷◌, ◌++◌, length, keep, if◌then◌else◌, Str, ◌is◌, str_eq,
}

pub data ConnectionState : Type 0 where
  connecting idle in_use closed : ConnectionState

abbrev pub is_idle : ConnectionState → Bool
is_idle idle = true
is_idle _ = false

abbrev pub is_in_use : ConnectionState → Bool
is_in_use in_use = true
is_in_use _ = false

abbrev pub is_active : ConnectionState → Bool
is_active connecting = true
is_active in_use = true
is_active _ = false

pub record ConnectionMeta : Type 0 where
  pub state : ConnectionState
  pub generation : ℕ
  pub lease_id : ℕ
  pub owner_session_id : Option Str
  pub last_sent_at : ℕ
  pub idle_since : Option ℕ

-- The store has the entries that were made, `allocated` of them; the pool has the addresses of some.
pub record TtsWsPool : Type 0 where
  pub store : ℕ → ConnectionMeta
  pub allocated : ℕ
  pub entries : List ℕ
  pub max_connections : ℕ

pub record TtsWsLease : Type 0 where
  pub entry : ℕ
  pub session_id : Str
  pub generation : ℕ
  pub lease_id : ℕ

-- `n.wrapping_add(1).max(1)` of a u64
abbrev pub bump : ℕ → ℕ
bump n = max ((n + 1) % 2 ^ 64) 1

abbrev pub write : ℕ → ConnectionMeta → (ℕ → ConnectionMeta) → ℕ → ConnectionMeta
write i m store j = if i == j then m else store j

abbrev pub put : ℕ → ConnectionMeta → TtsWsPool → TtsWsPool
put i m p = record p { store = write i m p.store }

abbrev pub new_meta : Str → ℕ → ConnectionMeta
new_meta session_id now = record {
  state = connecting;
  generation = 1;
  lease_id = 1;
  owner_session_id = some session_id;
  last_sent_at = now;
  idle_since = none;
}

-- No entry is made yet.
abbrev pub new_pool : ℕ → TtsWsPool
new_pool max_connections = record {
  store = λ _. record (new_meta [] 0) { state = closed; owner_session_id = none };
  allocated = 0;
  entries = [];
  max_connections = max max_connections 1;
}

-- The lease that an idle entry gives out, and the entry afterwards.
abbrev pub lease_of : Str → ℕ → ConnectionMeta → TtsWsLease
lease_of session_id i m = record {
  entry = i;
  session_id = session_id;
  generation = m.generation;
  lease_id = bump m.lease_id;
}

abbrev pub taken_by : Str → ConnectionMeta → ConnectionMeta
taken_by session_id m = record m {
  state = in_use;
  owner_session_id = some session_id;
  lease_id = bump m.lease_id;
  idle_since = none;
}

-- `acquire` at one entry of its snapshot.
unfoldable pub take_idle : Str → ℕ → TtsWsPool → Option (TtsWsLease × TtsWsPool)
take_idle session_id i p =
    let m = p.store i in
    if is_idle m.state
    then some (lease_of session_id i m, put i (taken_by session_id m) p)
    else none

-- `acquire` over its snapshot, where no other task comes between.
unfoldable pub take_first : Str → List ℕ → TtsWsPool → Option (TtsWsLease × TtsWsPool)
take_first session_id [] p = none
take_first session_id (i ∷ snapshot) p = elim (take_idle session_id i p) [
  | some taken ↦ some taken
  | none ↦ take_first session_id snapshot p
]

-- `acquire` where no entry was idle: `none` is the wait for a release.
unfoldable pub reserve : Str → ℕ → TtsWsPool → Option (TtsWsLease × TtsWsPool)
reserve session_id now p =
    if ltb (length p.entries) p.max_connections
    then some (
      record { entry = p.allocated; session_id = session_id; generation = 1; lease_id = 1 },
      record (put p.allocated (new_meta session_id now) p) {
        allocated = suc p.allocated;
        entries = p.entries ++ p.allocated ∷ [];
      },
    )
    else none

-- `acquire` after its handshake.
unfoldable pub connected : ℕ → ℕ → TtsWsPool → TtsWsPool
connected i now p = put i (record (p.store i) { state = in_use; last_sent_at = now }) p

-- `acquire` after a handshake that failed.
unfoldable pub connect_failed : ℕ → TtsWsPool → TtsWsPool
connect_failed i p =
    let m = p.store i in
    put i (record m { state = closed; owner_session_id = none; generation = bump m.generation }) p

-- A message was sent.
unfoldable pub sent : ℕ → ℕ → TtsWsPool → TtsWsPool
sent i now p = put i (record (p.store i) { last_sent_at = now }) p

-- `entries.retain`
unfoldable pub forget : ℕ → TtsWsPool → TtsWsPool
forget i p = record p { entries = keep (λ candidate. not (candidate == i)) p.entries }

-- `invalidate` at the entry; the pool forgets it when the connection is closed.
unfoldable pub mark_closed : ℕ → TtsWsPool → TtsWsPool
mark_closed i p =
    let m = p.store i in
    put i
      (record m {
        state = closed;
        owner_session_id = none;
        generation = bump m.generation;
        idle_since = none;
      })
      p

-- Twenty seconds.
abbrev pub reap_after : ℕ
reap_after = 20000000000

abbrev pub idle_long : Option ℕ → ℕ → Bool
idle_long none now = false
idle_long (some t) now = leb reap_after (now - t)

unfoldable pub should_reap : ConnectionMeta → (generation lease_id now : ℕ) → Bool
should_reap m generation lease_id now =
    is_idle m.state
    && m.generation == generation
    && m.lease_id == lease_id
    && idle_long m.idle_since now

-- The task of `schedule_reap` when it wakes; true where it goes on to close the connection.
unfoldable pub reap : ℕ → (generation lease_id now : ℕ) → TtsWsPool → Bool × TtsWsPool
unfolding should_reap mark_closed
reap i generation lease_id now p =
    if should_reap (p.store i) generation lease_id now then (true, mark_closed i p) else (false, p)

abbrev pub is_owner : Option Str → Str → Bool
is_owner none session_id = false
is_owner (some owner) session_id = owner is session_id

-- True where the check lets the lease pass.
unfoldable pub check_owner : TtsWsLease → TtsWsPool → Bool
check_owner l p =
    let m = p.store l.entry in
    is_in_use m.state
    && m.generation == l.generation
    && m.lease_id == l.lease_id
    && is_owner m.owner_session_id l.session_id

abbrev pub given_back : ℕ → ConnectionMeta → ConnectionMeta
given_back now m = record m { state = idle; owner_session_id = none; idle_since = some now }

unfoldable pub release : TtsWsLease → ℕ → TtsWsPool → Bool × TtsWsPool
release l now p =
    let m = p.store l.entry in
    if is_in_use m.state && m.generation == l.generation && m.lease_id == l.lease_id
    then (true, put l.entry (given_back now m) p)
    else (false, p)

-- `refresh_pool_gauges`: the connections that are active and those that are idle.
unfoldable pub pool_gauges : TtsWsPool → ℕ × ℕ
pool_gauges p = (
  length (keep (λ i. is_active (p.store i).state) p.entries),
  length (keep (λ i. is_idle (p.store i).state) p.entries),
)
