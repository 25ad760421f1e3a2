-- ===== src/Agent/Memory/Redis.antt =====
-- crates/voice_server/src/agent/redis_store.rs: the store that instances share. The Redis commands and
-- the JSON codec are parameters with the behaviour that their documentation states.
use voice_ai.Base.{
  ℕ, suc, ◌+◌, ◌-◌, ◌%◌, ◌^◌, max, ltb, if◌then◌else◌, ◌⊎◌, ◌≡◌, Option, none, some, List, [], ◌∷◌,
  ◌++◌, take, reverse, Str, str_eq,
}
use voice_ai.Agent.Memory.{Message, MemoryStore}

pub data ℤ : Type 0 where
  pos negsuc : ℕ → ℤ

-- The `as i64` of a `u64`.
unfoldable pub as_i64 : ℕ → ℤ
as_i64 n = let m = n % 2 ^ 64 in if ltb m (2 ^ 63) then pos m else negsuc (2 ^ 64 - 1 - m)

-- The commands that the store sends; `none` is an error reply or a lost connection. `items` is the
-- list under a key, head first, and `Healthy` says that the commands go through.
pub record RedisServer : Type 1 where
  pub Db : Type 0
  pub lrange_all : Db → Str → Option (List Str)
  pub lpush : Db → Str → Str → Option Db
  pub ltrim : Db → Str → ℕ → Option Db
  pub expire : Db → Str → ℤ → Option Db
  pub del : Db → Str → Option Db
  pub llen : Db → Str → Option ℕ
  pub items : Db → Str → List Str
  pub Healthy : Db → Type 0

-- The documented behaviour of the commands on a list, for calls between which no time to live ends.
-- `EXPIRE` refuses a number of seconds that is too large, keeps the list for another positive number,
-- and deletes the key for the number 0.
pub record RedisLaws (r : RedisServer) : Type 0 where
  pub lrange_law : (d : r.Db) (k : Str) → r.Healthy d → r.lrange_all d k ≡ some (r.items d k)
  pub lpush_law :
      (d : r.Db) (k v : Str)
      → r.Healthy d
      → (e : r.Db) × (r.lpush d k v ≡ some e) × r.Healthy e × (r.items e k ≡ v ∷ r.items d k)
  pub ltrim_law :
      (d : r.Db) (k : Str) (upper : ℕ)
      → r.Healthy d
      → (e : r.Db) × (r.ltrim d k upper ≡ some e)
        × r.Healthy e
        × (r.items e k ≡ take (upper + 1) (r.items d k))
  pub expire_law :
      (d : r.Db) (k : Str) (secs : ℕ)
      → r.Healthy d
      → (r.expire d k (pos (suc secs)) ≡ none)
        ⊎ ((e : r.Db) × (r.expire d k (pos (suc secs)) ≡ some e)
            × r.Healthy e
            × (r.items e k ≡ r.items d k))
  pub expire_zero_law :
      (d : r.Db) (k : Str)
      → r.Healthy d
      → (e : r.Db) × (r.expire d k (pos 0) ≡ some e) × r.Healthy e × (r.items e k ≡ [])

pub record JsonCodec : Type 0 where
  pub to_string : Message → Option Str
  pub from_str : Str → Option Message

-- `serde_json` writes every message, and reads back what it wrote.
pub record JsonLaws (j : JsonCodec) : Type 0 where
  pub round_trip : (m : Message) → (s : Str) × (j.to_string m ≡ some s) × (j.from_str s ≡ some m)

module _ (r : RedisServer) (j : JsonCodec) where
  pub record RedisStore : Type 0 where
    pub db : r.Db
    pub window_size : ℕ
    pub key_prefix : Str
    pub ttl_secs : ℕ

  unfoldable pub connect_with_prefix : r.Db → ℕ → Str → ℕ → RedisStore
  connect_with_prefix db window_size key_prefix ttl_secs = record {
    db = db;
    window_size = max window_size 1;
    key_prefix = key_prefix;
    ttl_secs = ttl_secs;
  }

  abbrev pub key : RedisStore → Str → Str
  key s sid = s.key_prefix ++ sid

  -- `filter_map`: an entry that is no message is skipped.
  unfoldable pub decode_all : List Str → List Message
  decode_all [] = []
  decode_all (s ∷ ss) =
      let rest = decode_all ss in elim (j.from_str s) [ none ↦ rest | some m ↦ m ∷ rest ]

  unfoldable pub history : RedisStore → Str → List Message
  history s sid = elim (r.lrange_all s.db (key s sid)) [
    | none ↦ []
    | some raw ↦ reverse (decode_all (reverse raw))
  ]

  -- A failed `LTRIM` or `EXPIRE` is logged, and the call goes on.
  abbrev pub or_same : Option r.Db → r.Db → r.Db
  or_same (some e) d = e
  or_same none d = d

  unfoldable pub append : RedisStore → Str → Message → RedisStore
  unfolding as_i64
  append s sid m = elim (j.to_string m) [
    | none ↦ s
    | some payload ↦ elim (r.lpush s.db (key s sid) payload) [
      | none ↦ s
      | some d1 ↦
          let d2 = or_same (r.ltrim d1 (key s sid) (s.window_size - 1)) d1 in
          let d3 = or_same (r.expire d2 (key s sid) (as_i64 s.ttl_secs)) d2 in record s { db = d3 }
    ]
  ]

  unfoldable pub clear : RedisStore → Str → RedisStore
  clear s sid = record s { db = or_same (r.del s.db (key s sid)) s.db }

  unfoldable pub len : RedisStore → Str → ℕ
  len s sid = elim (r.llen s.db (key s sid)) [ none ↦ 0 | some n ↦ n ]

  unfoldable pub append_all : RedisStore → Str → List Message → RedisStore
  append_all s sid [] = s
  append_all s sid (m ∷ ms) = append_all (append s sid m) sid ms

abbrev pub redis_store : (r : RedisServer) → JsonCodec → MemoryStore
redis_store r j = record {
  State = RedisStore r j;
  history = history r j;
  append = append r j;
  clear = clear r j;
  len = len r j;
}
