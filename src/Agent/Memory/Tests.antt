-- ===== src/Agent/Memory/Tests.antt =====
-- The memory stores on a concrete conversation.
use voice_ai.Base.{
  suc, zero, inr, ℕ, ◌+◌, ◌≡◌, refl, max, Option, none, some, List, [], ◌∷◌, take, if◌then◌else◌,
  Str, str_eq, ◌is◌, is_refl, last_part, ◌==◌, lookup, insert,
}
use voice_ai.Agent.Memory.{Role, system, user, assistant, Message, IsWindow}
use voice_ai.Agent.Memory.ShortTerm
use voice_ai.Agent.Memory.InMemory
use voice_ai.Agent.Memory.InMemory.{in_memory_store, IsSound, in_memory_store-IsWindow}
use voice_ai.Agent.Memory.Window.{Call, appends, calls, said, in_memory-history}
use voice_ai.Agent.Memory.Redis.{
  ℤ, pos, negsuc, RedisServer, RedisLaws, JsonCodec, JsonLaws, connect_with_prefix, history, append,
}
use voice_ai.Agent.Memory.RedisOrder.{redis_forgets}

abbrev hello : Message
hello = record { role = user; content = 1 ∷ 2 ∷ [] }

abbrev reply : Message
reply = record { role = assistant; content = 3 ∷ [] }

abbrev question : Message
question = record { role = user; content = 4 ∷ [] }

abbrev alice : Str
alice = 7 ∷ []

abbrev talk : List Call
talk =
    appends alice hello ∷ appends (8 ∷ []) reply ∷ appends alice reply ∷ appends alice question ∷ []

two_kept :
    InMemory.history (calls in_memory_store (InMemory.new 2) talk) alice ≡ reply ∷ question ∷ []
unfolding InMemory.history InMemory.append InMemory.mem_for InMemory.new ShortTerm.push
    ShortTerm.new ShortTerm.history lookup insert
two_kept = refl

in_memory-history_example :
    in_memory_store.history (calls in_memory_store (InMemory.new 2) talk) alice
    ≡ last_part (max 2 1) (said alice talk)
in_memory-history_example = in_memory-history 2 talk alice

in_memory_store-IsWindow_example : IsWindow in_memory_store 2 (IsSound 2)
in_memory_store-IsWindow_example = in_memory_store-IsWindow 2

-- A server that answers every command, and a codec of one number and the content.
abbrev without : Str → (Str → List Str) → Str → List Str
without k d j = if k is j then [] else d j

-- A number that is not positive deletes the key.
abbrev expire_at : (Str → List Str) → Str → ℤ → Option (Str → List Str)
expire_at d k (pos zero) = some (without k d)
expire_at d k (pos (suc n)) = some d
expire_at d k (negsuc n) = some (without k d)

abbrev server : RedisServer
server = record {
  Db = Str → List Str;
  lrange_all = λ d k. some (d k);
  lpush = λ d k v. some (λ j. if k is j then v ∷ d j else d j);
  ltrim = λ d k upper. some (λ j. if k is j then take (upper + 1) (d j) else d j);
  expire = expire_at;
  del = λ d k. some (λ j. if k is j then [] else d j);
  llen = λ d k. some 0;
  items = λ d k. d k;
  Healthy = λ d. Unit {0};
}

server_laws : RedisLaws server
server_laws = record {
  lrange_law = λ d k h. refl;
  lpush_law = λ d k v h. ((λ j. if k is j then v ∷ d j else d j), refl, tt, rw (is_refl k) refl);
  ltrim_law = λ d k upper h.
      ((λ j. if k is j then take (upper + 1) (d j) else d j), refl, tt, rw (is_refl k) refl);
  expire_law = λ d k secs h. inr (d, refl, tt, refl);
  expire_zero_law = λ d k h. (without k d, refl, tt, rw (is_refl k) refl);
}

abbrev role_code : Role → ℕ
role_code system = 0
role_code user = 1
role_code assistant = 2

abbrev role_of : ℕ → Role
role_of n = if n == 0 then system else if n == 1 then user else assistant

abbrev read_message : Str → Option Message
read_message [] = none
read_message (c ∷ rest) = some (record { role = role_of c; content = rest })

abbrev codec : JsonCodec
codec = record { to_string = λ m. some (role_code m.role ∷ m.content); from_str = read_message }

role_round_trip : (r : Role) → role_of (role_code r) ≡ r
role_round_trip system = refl
role_round_trip user = refl
role_round_trip assistant = refl

codec_laws : JsonLaws codec
codec_laws = record {
  round_trip = λ m. (role_code m.role ∷ m.content, refl, rw (role_round_trip m.role) refl);
}

redis_forgets_example :
    history server codec
      (append server codec (connect_with_prefix server codec (λ k. []) 2 [] 0) alice hello)
      alice
    ≡ []
unfolding connect_with_prefix
redis_forgets_example =
    redis_forgets server codec server_laws codec_laws
      (connect_with_prefix server codec (λ k. []) 2 [] 0) alice hello tt refl
