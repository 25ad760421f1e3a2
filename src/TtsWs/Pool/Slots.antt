-- ===== src/TtsWs/Pool/Slots.antt =====
-- crates/voice_server/src/client/tts_ws.rs: the places of the pool, of which there are no more than
-- allowed.
use voice_ai.Base.{
  ℕ, suc, ◌+◌, ◌≤◌, ◌<◌, max, ltb, ◌==◌, ◌≡◌, refl, inl, inr, Bool, not, ◌&&◌, List, [], ◌∷◌, ◌++◌,
  length, length-append, keep, All, All-map, Bool-cases, count, count-eq-zero, str_eq, arith,
}
use voice_ai.TtsWs.Pool.{
  TtsWsPool, is_idle, is_in_use, take_idle, reserve, connected, connect_failed, sent, forget,
  mark_closed, should_reap, reap, release,
}
use voice_ai.TtsWs.Pool.Tasks.{
  Section, takes, reserves, connects, fails_connect, sends, forgets, invalidates, reaps, releases,
  System, apply, run, start,
}

-- The places: entries that were made, each at most once, and no more than allowed.
record Sound (most allowed made : ℕ) (entries : List ℕ) : Type 0 where
  within : All (λ i. i < made) entries
  once : (i : ℕ) → count (λ j. j == i) entries ≤ 1
  few : length entries ≤ most
  same : allowed ≡ most

abbrev SoundPool : ℕ → TtsWsPool → Type 0
SoundPool most p = Sound most p.max_connections p.allocated p.entries

length-keep : (q : ℕ → Bool) (xs : List ℕ) → length (keep q xs) ≤ length xs
length-keep q [] = omega arith
length-keep q (x ∷ xs) = ground (arith, length-keep q xs)

count-keep : (q r : ℕ → Bool) (xs : List ℕ) → count r (keep q xs) ≤ count r xs
count-keep q r [] = omega arith
count-keep q r (x ∷ xs) = ground (arith, count-keep q r xs)

All-keep : (P : ℕ → Type 0) (q : ℕ → Bool) (xs : List ℕ) → All P xs → All P (keep q xs)
All-keep P q [] h = tt
All-keep P q (x ∷ xs) (h, hs) = elim (Bool-cases (q x)) [
  | inl e ↦ rw e (h, All-keep P q xs hs)
  | inr e ↦ rw e (All-keep P q xs hs)
]

All-last : (P : ℕ → Type 0) (xs : List ℕ) (x : ℕ) → All P xs → P x → All P (xs ++ x ∷ [])
All-last P [] x h k = (k, tt)
All-last P (y ∷ xs) x (h, hs) k = (h, All-last P xs x hs k)

absent_above : (n : ℕ) (xs : List ℕ) → All (λ j. j < n) xs → count (λ j. j == n) xs ≡ 0
absent_above n xs h =
    count-eq-zero (λ j. j == n) xs (All-map xs (λ j (below : j < n). ground arith) h)

count-append : (q : ℕ → Bool) (xs ys : List ℕ) → count q (xs ++ ys) ≡ count q xs + count q ys
count-append q [] ys = omega arith
count-append q (x ∷ xs) ys = ground (arith, count-append q xs ys)

-- A new entry takes a place.
Sound-more :
    {most allowed made : ℕ} {entries : List ℕ}
    → length entries < allowed
    → Sound most allowed made entries
    → Sound most allowed (suc made) (entries ++ made ∷ [])
Sound-more {made = made} {entries = entries} h v = record {
  within =
      All-last (λ i. i < suc made) entries made
        (All-map entries (λ j (b : j < made). omega arith) v.within) (omega arith);
  once = λ i. elim (Bool-cases (made == i)) [
    | inl e ↦
        ground (
          arith,
          count-append (λ j. j == i) entries (made ∷ []),
          absent_above made entries v.within,
        )
    | inr e ↦ ground (arith, count-append (λ j. j == i) entries (made ∷ []), v.once i)
  ];
  few = omega (arith, length-append {0} entries (made ∷ []), v.few, v.same);
  same = v.same;
}

apply-Sound :
    {most : ℕ} (a : Section) (s : System) → SoundPool most s.pool → SoundPool most (apply a s).pool
unfolding apply take_idle reserve connected connect_failed sent forget mark_closed reap release
apply-Sound (takes session_id i) s v = elim (Bool-cases (ltb i s.pool.allocated)) [
  | inr e ↦ rw e v
  | inl e ↦
      rw e (elim (Bool-cases (is_idle (s.pool.store i).state)) [ inl f ↦ rw f v | inr f ↦ rw f v ])
]
apply-Sound (reserves session_id now) s v =
    elim (Bool-cases (ltb (length s.pool.entries) s.pool.max_connections)) [
      | inl e ↦ rw e (Sound-more (ground arith) v)
      | inr e ↦ rw e v
    ]
apply-Sound (connects i now) s v = v
apply-Sound (fails_connect i) s v = v
apply-Sound (sends i now) s v = v
apply-Sound (forgets i) s v = record {
  within = All-keep _ _ s.pool.entries v.within;
  once = λ j. omega (arith, count-keep (λ c. not (c == i)) (λ c. c == j) s.pool.entries, v.once j);
  few = omega (arith, length-keep (λ c. not (c == i)) s.pool.entries, v.few);
  same = v.same;
}
apply-Sound (invalidates i) s v = v
apply-Sound (reaps i generation lease_id now) s v =
    elim (Bool-cases (should_reap (s.pool.store i) generation lease_id now)) [
      | inl e ↦ rw e v
      | inr e ↦ rw e v
    ]
apply-Sound (releases l now) s v =
    let m = s.pool.store l.entry in
    elim (Bool-cases
      (is_in_use m.state && m.generation == l.generation && m.lease_id == l.lease_id)) [
        | inl e ↦ rw e v
        | inr e ↦ rw e v
      ]

run-Sound :
    {most : ℕ} (sections : List Section) (s : System)
    → SoundPool most s.pool
    → SoundPool most (run sections s).pool
unfolding run
run-Sound [] s v = v
run-Sound (a ∷ more) s v = run-Sound more (apply a s) (apply-Sound a s v)

-- The pool never has more connections than allowed, one where none are, and none of them twice.
pub run-bounded :
    (max_connections : ℕ) (sections : List Section) (i : ℕ)
    → (let entries = (run sections (start max_connections)).pool.entries in
        (length entries ≤ max max_connections 1) × (count (λ j. j == i) entries ≤ 1))
run-bounded max_connections sections i =
    let v =
      run-Sound {most = max max_connections 1} sections (start max_connections)
        (record { within = tt; once = λ j. omega arith; few = omega arith; same = refl }) in
    (v.few, v.once i)
