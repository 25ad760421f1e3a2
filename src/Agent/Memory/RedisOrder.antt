-- ===== src/Agent/Memory/RedisOrder.antt =====
-- The order in which the Redis store gives the messages of a session.
use voice_ai.Base.{some, ℕ, suc, ◌-◌, ◌≤◌, ◌≡◌, refl, ap, ◌∙◌, List, [], map, Str}
use voice_ai.Agent.Memory.{Message}
use voice_ai.Agent.Memory.Redis.{
  RedisServer, RedisLaws, pos, as_i64, JsonCodec, JsonLaws, RedisStore, key, decode_all, history,
  append,
}

-- The time to live is a positive number also as an `i64`.
abbrev pub IsPositive : ℕ → Type 0
IsPositive ttl_secs = (n : ℕ) × (as_i64 ttl_secs ≡ pos (suc n))

module _ (r : RedisServer) (j : JsonCodec) (rl : RedisLaws r) (jl : JsonLaws j) where
  encode : Message → Str
  encode m = (jl.round_trip m).0

  -- The list under the session's key holds these messages, newest first.
  record Holds (s : RedisStore r j) (sid : Str) (newest_first : List Message) : Type 0 where
    healthy : r.Healthy s.db
    held : r.items s.db (key r j s sid) ≡ map encode newest_first
    room : 1 ≤ s.window_size
    ttl : IsPositive s.ttl_secs

  -- Over a healthy server, a time to live of 0 seconds leaves nothing of a session after each message
  -- that is appended.
  pub redis_forgets :
      (s : RedisStore r j) (sid : Str) (m : Message)
      → r.Healthy s.db
      → s.ttl_secs ≡ 0
      → history r j (append r j s sid m) sid ≡ []
  unfolding append history encode as_i64 decode_all
  redis_forgets s sid m healthy never =
      let k = key r j s sid in
      let (d1, e1, h1, i1) = rl.lpush_law s.db k (encode m) healthy in
      let (d2, e2, h2, i2) = rl.ltrim_law d1 k (s.window_size - 1) h1 in
      let (d3, e3, h3, i3) = rl.expire_zero_law d2 k h2 in
      let due : r.expire d2 k (as_i64 s.ttl_secs) ≡ some d3 =
        ap (λ n. r.expire d2 k (as_i64 n)) never ∙ e3 in
      let after : append r j s sid m ≡ record s { db = d3 } =
        rw ((jl.round_trip m).1, e1, e2, due, append) refl in
      rw after (rw (rl.lrange_law d3 k h3, i3, history) refl)
