-- ===== src/Agent/Memory/InMemory.antt =====
-- crates/voice_server/src/agent/memory.rs: `InMemoryStore`, a map from session to window.
use voice_ai.Base.{
  last_part, ℕ, ◌≤◌, max, ◌≡◌, refl, ap, ◌∙◌, inl, inr, Option, none, some, List, [], ◌∷◌, ◌++◌,
  length, if◌then◌else◌, Str, str_eq, ◌is◌, lookup, insert, lookup-insert, arith, Option-cases,
  Bool-cases,
}
use voice_ai.Agent.Memory.ShortTerm
use voice_ai.Agent.Memory.ShortTerm.{
  ShortTermMemory, IsBounded, new-IsBounded, push-IsBounded, history-push,
}
use voice_ai.Agent.Memory.{Message, MemoryStore, IsWindow}

pub record InMemoryStore : Type 0 where
  pub window_size : ℕ
  pub map : List (Str × ShortTermMemory)

unfoldable pub new : ℕ → InMemoryStore
new window_size = record { window_size = max window_size 1; map = [] }

abbrev pub or_new : Option ShortTermMemory → ℕ → ShortTermMemory
or_new (some w) n = w
or_new none n = ShortTerm.new n

-- `entry(..).or_insert_with(..)`: the window that `append` writes to.
unfoldable pub mem_for : InMemoryStore → Str → ShortTermMemory
mem_for s sid = or_new (lookup sid s.map) s.window_size

abbrev history_of : Option ShortTermMemory → List Message
history_of (some w) = ShortTerm.history w
history_of none = []

unfoldable pub history : InMemoryStore → Str → List Message
history s sid = history_of (lookup sid s.map)

unfoldable pub append : InMemoryStore → Str → Message → InMemoryStore
append s sid m = record s { map = insert sid (ShortTerm.push (mem_for s sid) m) s.map }

abbrev cleared :
    Option ShortTermMemory → Str → List (Str × ShortTermMemory) → List (Str × ShortTermMemory)
cleared (some w) sid map = insert sid (ShortTerm.clear w) map
cleared none sid map = map

unfoldable pub clear : InMemoryStore → Str → InMemoryStore
clear s sid = record s { map = cleared (lookup sid s.map) sid s.map }

abbrev len_of : Option ShortTermMemory → ℕ
len_of (some w) = ShortTerm.len w
len_of none = 0

unfoldable pub len : InMemoryStore → Str → ℕ
len s sid = len_of (lookup sid s.map)

abbrev pub in_memory_store : MemoryStore
in_memory_store = record {
  State = InMemoryStore;
  history = history;
  append = append;
  clear = clear;
  len = len;
}

-- Every window of the map has the capacity of the store.
abbrev Windows : ℕ → InMemoryStore → Type 0
Windows n s =
    (sid : Str) (w : ShortTermMemory) → lookup sid s.map ≡ some w → (w.capacity ≡ n) × IsBounded w

pub record IsSound (n : ℕ) (s : InMemoryStore) : Type 0 where
  pub sized : s.window_size ≡ n
  pub at_least : 1 ≤ n
  pub windows : Windows n s

pub new-IsSound : (n : ℕ) → IsSound (max n 1) (new n)
unfolding new lookup
new-IsSound n = record { sized = refl; at_least = omega arith; windows = λ sid w e. absurd (cc) }

module _ (n : ℕ) (s : InMemoryStore) (good : IsSound n s) where
  mem_for-window : (sid : Str) → ((mem_for s sid).capacity ≡ n) × IsBounded (mem_for s sid)
  unfolding mem_for
  mem_for-window sid = elim (Option-cases (lookup sid s.map)) [
    | inl none_yet ↦ rw none_yet (fresh, new-IsBounded s.window_size)
    | inr (w, found) ↦ rw found (good.windows sid w found)
  ]
    where
      fresh : (ShortTerm.new s.window_size).capacity ≡ n
      fresh = unfold ShortTerm.new in omega (arith, good.sized, good.at_least)

  mem_for-history : (sid : Str) → ShortTerm.history (mem_for s sid) ≡ history s sid
  unfolding mem_for history ShortTerm.history ShortTerm.new
  mem_for-history sid = ground (arith, Option-cases (lookup sid s.map))

  insert-IsSound :
      (sid : Str) (v : ShortTermMemory)
      → (v.capacity ≡ n) × IsBounded v
      → IsSound n (record s { map = insert sid v s.map })
  insert-IsSound sid v ok = record { sized = good.sized; at_least = good.at_least; windows = at }
    where
      at : Windows n (record s { map = insert sid v s.map })
      at other w e = elim (Bool-cases (sid is other)) [
        | inl same ↦
            let found : some v ≡ some w = rw (lookup-insert sid other v s.map, same) at e in
            ground (arith, found, ok)
        | inr apart ↦ good.windows other w (rw (lookup-insert sid other v s.map, apart) at e)
      ]

  append-IsSound : (sid : Str) (m : Message) → IsSound n (append s sid m)
  unfolding append
  append-IsSound sid m =
      let (c, b) = mem_for-window sid in
      insert-IsSound sid (ShortTerm.push (mem_for s sid) m)
        (unfold ShortTerm.push in c, push-IsBounded (mem_for s sid) m b)

  history-append_lem :
      (sid other : Str) (m : Message)
      → history (append s sid m) other
        ≡ (if sid is other then last_part n (history s other ++ m ∷ []) else history s other)
  unfolding append mem_for ShortTerm.push history
  history-append_lem sid other m = elim (Bool-cases (sid is other)) [
    | inl same ↦
        let (c, b) = mem_for-window sid in
        let e : sid ≡ other = (str_eq.beq_iff sid other).0 same in
        rw same (
          ap history_of (lookup-insert sid other (ShortTerm.push (mem_for s sid) m) s.map)
          ∙ (rw same (history-push (mem_for s sid) m b ∙ (rw (c, mem_for-history sid, e) refl))))
    | inr apart ↦ rw apart (
        ap history_of
          (lookup-insert sid other (ShortTerm.push (mem_for s sid) m) s.map ∙ (rw apart refl)))
  ]

  clear-IsSound : (sid : Str) → IsSound n (clear s sid)
  unfolding clear
  clear-IsSound sid = elim (Option-cases (lookup sid s.map)) [
    | inl missing ↦ rw missing good
    | inr (w, found) ↦ rw found (
        insert-IsSound sid (ShortTerm.clear w) (
          unfold ShortTerm.clear in
          (
            (good.windows sid w found).0,
            record { room = (good.windows sid w found).1.room; within = omega arith },
          )))
  ]

  history-clear_lem :
      (sid other : Str)
      → history (clear s sid) other ≡ (if sid is other then [] else history s other)
  unfolding clear history ShortTerm.clear ShortTerm.history
  history-clear_lem sid other = elim (Option-cases (lookup sid s.map)) [
    | inl missing ↦ elim (Bool-cases (sid is other)) [
      | inl same ↦
          let e : sid ≡ other = (str_eq.beq_iff sid other).0 same in
          rw (missing, same, ← e, missing) refl
      | inr apart ↦ rw (missing, apart) refl
    ]
    | inr (w, found) ↦ elim (Bool-cases (sid is other)) [
      | inl same ↦ rw (found, lookup-insert sid other (ShortTerm.clear w) s.map, same) refl
      | inr apart ↦ rw (found, lookup-insert sid other (ShortTerm.clear w) s.map, apart) refl
    ]
  ]

  len-history_lem : (sid : Str) → len s sid ≡ length (history s sid)
  unfolding len history ShortTerm.len ShortTerm.history
  len-history_lem sid = ground (arith, Option-cases (lookup sid s.map))

-- The in-process store keeps what the trait promises: for every session the last `n` messages in
-- order, no session disturbs another, and `len` counts the history.
pub in_memory_store-IsWindow : (n : ℕ) → IsWindow in_memory_store n (IsSound n)
in_memory_store-IsWindow n = record {
  append_good = λ s sid m good. append-IsSound n s good sid m;
  clear_good = λ s sid good. clear-IsSound n s good sid;
  history-append = λ s sid other m good. history-append_lem n s good sid other m;
  history-clear = λ s sid other good. history-clear_lem n s good sid other;
  len-history = λ s sid good. len-history_lem n s good sid;
}
