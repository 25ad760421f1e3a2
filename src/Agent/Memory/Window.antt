-- ===== src/Agent/Memory/Window.antt =====
-- What any store with a window remembers after a history of calls for several sessions.
use voice_ai.Base.{
  ℕ, max, ◌≡◌, refl, sym, ◌∙◌, inl, inr, List, [], ◌∷◌, ◌++◌, if◌then◌else◌, Str, str_eq, ◌is◌,
  last_part, last_part-append, last_part-nil, lookup, Bool-cases,
}
use voice_ai.Agent.Memory.{Message, MemoryStore, IsWindow}
use voice_ai.Agent.Memory.InMemory
use voice_ai.Agent.Memory.InMemory.{in_memory_store, in_memory_store-IsWindow, new-IsSound}

-- The calls that change a store.
pub data Call : Type 0 where
  appends : Str → Message → Call
  clears : Str → Call

abbrev pub call : (st : MemoryStore) → st.State → Call → st.State
call st s (appends sid m) = st.append s sid m
call st s (clears sid) = st.clear s sid

abbrev pub calls : (st : MemoryStore) → st.State → List Call → st.State
calls st s [] = s
calls st s (c ∷ cs) = calls st (call st s c) cs

-- The messages of one session since it was last cleared, oldest first.
abbrev pub said_from : Str → List Message → List Call → List Message
said_from sid acc [] = acc
said_from sid acc (appends other m ∷ cs) =
    said_from sid (if other is sid then acc ++ m ∷ [] else acc) cs
said_from sid acc (clears other ∷ cs) = said_from sid (if other is sid then [] else acc) cs

abbrev pub said : Str → List Call → List Message
said sid cs = said_from sid [] cs

module _ (st : MemoryStore) (n : ℕ) {Good : st.State → Type 0} (window : IsWindow st n Good) where
  history-calls_from :
      (s : st.State) (sid : Str) (acc : List Message) (cs : List Call)
      → Good s
      → st.history s sid ≡ last_part n acc
      → st.history (calls st s cs) sid ≡ last_part n (said_from sid acc cs)
  history-calls_from s sid acc [] good e = e
  history-calls_from s sid acc (appends other m ∷ cs) good e =
      history-calls_from (st.append s other m) sid _ cs (window.append_good s other m good)
        (window.history-append s other sid m good ∙ step)
    where
      step :
          (if other is sid then last_part n (st.history s sid ++ m ∷ []) else st.history s sid)
          ≡ last_part n (if other is sid then acc ++ m ∷ [] else acc)
      step = elim (Bool-cases (other is sid)) [
        | inl same ↦ rw (same, e) (last_part-append n acc (m ∷ []))
        | inr apart ↦ rw (apart, e) refl
      ]
  history-calls_from s sid acc (clears other ∷ cs) good e =
      history-calls_from (st.clear s other) sid _ cs (window.clear_good s other good)
        (window.history-clear s other sid good ∙ step)
    where
      step :
          (if other is sid then [] else st.history s sid)
          ≡ last_part n (if other is sid then [] else acc)
      step = elim (Bool-cases (other is sid)) [
        | inl same ↦ rw same (sym (last_part-nil n))
        | inr apart ↦ rw (apart, e) refl
      ]

new_history : (n : ℕ) (sid : Str) → InMemory.history (InMemory.new n) sid ≡ []
unfolding InMemory.new InMemory.history lookup
new_history n sid = refl

-- After any calls, for any sessions and in any order, the in-process store holds for each session
-- the last `max n 1` messages said in it since it was last cleared, oldest first.
pub in_memory-history :
    (n : ℕ) (cs : List Call) (sid : Str)
    → in_memory_store.history (calls in_memory_store (InMemory.new n) cs) sid
      ≡ last_part (max n 1) (said sid cs)
in_memory-history n cs sid =
    history-calls_from in_memory_store (max n 1) (in_memory_store-IsWindow (max n 1))
      (InMemory.new n) sid [] cs (new-IsSound n) (new_history n sid ∙ sym (last_part-nil (max n 1)))
