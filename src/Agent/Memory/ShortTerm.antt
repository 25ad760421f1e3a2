-- ===== src/Agent/Memory/ShortTerm.antt =====
-- crates/voice_server/src/agent/memory.rs: `ShortTermMemory`, the window of one conversation.
use voice_ai.Base.{
  last_part, ℕ, ◌-◌, ◌≤◌, max, ◌≡◌, refl, List, [], ◌∷◌, ◌++◌, length, ◌==◌, if◌then◌else◌, arith,
  length-append, length-drop, Bool-cases, ==_iff, inl, inr, ap,
}
use voice_ai.Agent.Memory.{Message}

pub record ShortTermMemory : Type 0 where
  pub capacity : ℕ
  pub items : List Message

unfoldable pub new : ℕ → ShortTermMemory
new capacity = record { capacity = max capacity 1; items = [] }

-- `VecDeque::pop_front`.
abbrev pub pop_front : List Message → List Message
pop_front [] = []
pop_front (m ∷ ms) = ms

unfoldable pub push : ShortTermMemory → Message → ShortTermMemory
push s m =
    let items = if length s.items == s.capacity then pop_front s.items else s.items in
    record s { items = items ++ m ∷ [] }

unfoldable pub history : ShortTermMemory → List Message
history s = s.items

unfoldable pub len : ShortTermMemory → ℕ
len s = length s.items

unfoldable pub clear : ShortTermMemory → ShortTermMemory
clear s = record s { items = [] }

pub record IsBounded (s : ShortTermMemory) : Type 0 where
  pub room : 1 ≤ s.capacity
  pub within : length s.items ≤ s.capacity

pub new-IsBounded : (n : ℕ) → IsBounded (new n)
unfolding new
new-IsBounded n = omega arith

abbrev pushed : ℕ → List Message → Message → List Message
pushed c l m = (if length l == c then pop_front l else l) ++ m ∷ []

-- Dropping the oldest of a full window is keeping the newest of the longer list.
pushed-last_part :
    (c : ℕ) (l : List Message) (m : Message)
    → 1 ≤ c
    → length l ≤ c
    → pushed c l m ≡ last_part c (l ++ m ∷ [])
pushed-last_part c l m room within = elim (Bool-cases (length l == c)) [
  | inl full ↦ rw full (go l (omega (arith, (==_iff (length l) c).0 full)))
  | inr some_left ↦
      let short : length (l ++ m ∷ []) - c ≡ 0 = ground (arith, length-append l (m ∷ [])) in
      rw (some_left, short) refl
]
  where
    go : (k : List Message) → length k ≡ c → pop_front k ++ m ∷ [] ≡ last_part c (k ++ m ∷ [])
    go [] e = absurd (omega arith)
    go (x ∷ k) e =
        let one : length ((x ∷ k) ++ m ∷ []) - c ≡ 1 =
          omega (arith, length-append (x ∷ k) (m ∷ [])) in
        rw one refl

pub history-push :
    (s : ShortTermMemory) (m : Message)
    → IsBounded s
    → history (push s m) ≡ last_part s.capacity (history s ++ m ∷ [])
unfolding history push
history-push s m b = pushed-last_part s.capacity s.items m b.room b.within

pub push-IsBounded : (s : ShortTermMemory) (m : Message) → IsBounded s → IsBounded (push s m)
unfolding push
push-IsBounded s m b = record {
  room = b.room;
  within = omega (
    arith,
    ap length (pushed-last_part s.capacity s.items m b.room b.within),
    length-drop (length (s.items ++ m ∷ []) - s.capacity) (s.items ++ m ∷ []),
    b.room,
  );
}
