-- ===== src/Agent/Memory.antt =====
-- crates/voice_server/src/agent/memory.rs: messages and the interface of the conversation memory,
-- the trait `MemoryStore`. The mutexes of its implementations serialise the calls.
pub mod ShortTerm
pub mod InMemory
pub mod Window
pub mod Redis
pub mod RedisOrder
mod Tests
use voice_ai.Base.{
  ℕ, last_part, ◌≡◌, Bool, List, [], ◌∷◌, ◌++◌, length, ◌==◌, Str, if◌then◌else◌, str_eq, ◌is◌,
}

pub data Role : Type 0 where
  system user assistant : Role

unfoldable pub as_str : Role → Str
as_str system = b's' ∷ b'y' ∷ b's' ∷ b't' ∷ b'e' ∷ b'm' ∷ []
as_str user = b'u' ∷ b's' ∷ b'e' ∷ b'r' ∷ []
as_str assistant = b'a' ∷ b's' ∷ b's' ∷ b'i' ∷ b's' ∷ b't' ∷ b'a' ∷ b'n' ∷ b't' ∷ []

pub record Message : Type 0 where
  pub role : Role
  pub content : Str

pub record MemoryStore : Type 1 where
  pub State : Type 0
  pub history : State → Str → List Message
  pub append : State → Str → Message → State
  pub clear : State → Str → State
  pub len : State → Str → ℕ

-- The default body of the trait.
pub store_is_empty : (st : MemoryStore) → st.State → Str → Bool
store_is_empty st s sid = st.len s sid == 0

-- What the doc comments of the trait promise of a store with a window of `n`: `history` is the last
-- `n` messages of the session, oldest first, and a session is not touched by calls for another.
pub record IsWindow (st : MemoryStore) (n : ℕ) (Good : st.State → Type 0) : Type 0 where
  pub append_good : (s : st.State) (sid : Str) (m : Message) → Good s → Good (st.append s sid m)
  pub clear_good : (s : st.State) (sid : Str) → Good s → Good (st.clear s sid)
  pub history-append :
      (s : st.State) (sid other : Str) (m : Message)
      → Good s
      → st.history (st.append s sid m) other
        ≡ (if sid is other then last_part n (st.history s other ++ m ∷ []) else st.history s other)
  pub history-clear :
      (s : st.State) (sid other : Str)
      → Good s
      → st.history (st.clear s sid) other ≡ (if sid is other then [] else st.history s other)
  pub len-history : (s : st.State) (sid : Str) → Good s → st.len s sid ≡ length (st.history s sid)
