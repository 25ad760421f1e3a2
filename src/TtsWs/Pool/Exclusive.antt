-- ===== src/TtsWs/Pool/Exclusive.antt =====
-- crates/voice_server/src/client/tts_ws.rs: no two leases own a connection at once.
use voice_ai.Base.{
  ℕ, suc, ◌+◌, ◌-◌, ◌^◌, ◌≤◌, ◌<◌, ltb, ◌==◌, ◌≡◌, refl, sym, ap, subst, ==_iff, ◌∙◌, inl, inr,
  ◌&&◌, none, some, List, [], ◌∷◌, length, Bool-cases, Str, str_eq, arith, count,
}
use voice_ai.TtsWs.Pool.{
  ConnectionMeta, in_use, TtsWsPool, TtsWsLease, bump, write, put, is_idle, is_in_use, new_meta,
  take_idle, reserve, connected, connect_failed, sent, forget, mark_closed, should_reap, reap,
  check_owner, release,
}
use voice_ai.TtsWs.Pool.Versions.{
  versions, is_newest, Inv, Inv-later, Inv-issues, Inv-renews, Others, Renews-generation,
  Renews-lease, Renews-made, Versions-eq,
}
use voice_ai.TtsWs.Pool.Tasks.{
  Section, takes, reserves, connects, fails_connect, sends, forgets, invalidates, reaps, releases,
  System, give_out, with_pool, apply, run, start,
}

-- How many of the leases given out pass the check for the entry.
abbrev pub owners : ℕ → System → ℕ
owners i s = count (λ (l : TtsWsLease). l.entry == i && check_owner l s.pool) s.issued

owners-le-newest :
    (i : ℕ) (p : TtsWsPool) (ls : List TtsWsLease)
    → count (λ (l : TtsWsLease). l.entry == i && check_owner l p) ls
      ≤ count (is_newest i (versions p)) ls
unfolding check_owner
owners-le-newest i p [] = omega arith
owners-le-newest i p (l ∷ ls) = let ih = owners-le-newest i p ls in ground arith

abbrev InvOf : ℕ → System → Type 0
InvOf n s = Inv n s.pool.allocated (versions s.pool) s.issued

write_self : (i : ℕ) (m : ConnectionMeta) (store : ℕ → ConnectionMeta) → write i m store i ≡ m
write_self i m store = ground arith

bump-eq-suc : (n : ℕ) → suc n < 2 ^ 64 → bump n ≡ suc n
bump-eq-suc n h = ground arith

module _ {n : ℕ} (i : ℕ) (m : ConnectionMeta) (s : System) (v : InvOf n s) where
  Others-put : Others i (versions s.pool) (versions (put i m s.pool))
  Others-put j h = rw h (refl, refl)

  -- At a read of the entry the versions are those of the entry written.
  small-put :
      m.generation ≤ suc (suc n)
      → m.lease_id ≤ suc (suc n)
      → (j : ℕ)
      → ((versions (put i m s.pool)).generation j ≤ suc (suc n))
        × ((versions (put i m s.pool)).lease j ≤ suc (suc n))
  small-put e f j = elim (Bool-cases (i == j)) [
    | inl h ↦ rw h (e, f)
    | inr h ↦ rw h (omega (arith, v.small j))
  ]

  -- A field that the entry keeps is kept everywhere.
  kept_at :
      (f : ConnectionMeta → ℕ)
      → f m ≡ f (s.pool.store i)
      → (j : ℕ) → f (s.pool.store j) ≡ f (write i m s.pool.store j)
  kept_at f e j = elim (Bool-cases (i == j)) [
    | inl h ↦ rw h (ap (λ k. f (s.pool.store k)) (sym ((==_iff i j).0 h)) ∙ sym e)
    | inr h ↦ rw h refl
  ]

  Inv-put-same :
      m.generation ≡ (s.pool.store i).generation
      → m.lease_id ≡ (s.pool.store i).lease_id
      → InvOf (suc n) (with_pool (put i m s.pool) s)
  Inv-put-same e f =
      subst (λ w. Inv (suc n) s.pool.allocated w s.issued)
        (Versions-eq (versions s.pool) (versions (put i m s.pool)) (kept_at (λ m. m.generation) e)
          (kept_at (λ m. m.lease_id) f))
        (Inv-later v)

  Inv-put-closed :
      suc n < 2 ^ 64 - 1
      → m.generation ≡ bump (s.pool.store i).generation
      → m.lease_id ≡ (s.pool.store i).lease_id
      → InvOf (suc n) (with_pool (put i m s.pool) s)
  Inv-put-closed few e f =
      let small = v.small i in
      let up : m.generation ≡ suc (s.pool.store i).generation = e ∙ bump-eq-suc _ (omega arith) in
      Inv-renews
        (Renews-generation (Others-put) (rw (write_self i m s.pool.store) up)
          (rw (write_self i m s.pool.store) f))
        (small-put (omega arith) (omega arith)) v

take_idle-Inv :
    {n : ℕ} (session_id : Str) (i : ℕ) (s : System)
    → suc n < 2 ^ 64 - 1
    → i < s.pool.allocated
    → InvOf n s
    → InvOf (suc n) (give_out (take_idle session_id i s.pool) s)
unfolding take_idle
take_idle-Inv {n} session_id i s few made v = elim (Bool-cases (is_idle (s.pool.store i).state)) [
  | inr e ↦ rw e (Inv-later v)
  | inl e ↦ rw e (
      let small = v.small i in
      let m = record (s.pool.store i) {
        state = in_use;
        owner_session_id = some session_id;
        lease_id = bump (s.pool.store i).lease_id;
        idle_since = none;
      } in
      let l : TtsWsLease = record {
        entry = i;
        session_id = session_id;
        generation = (s.pool.store i).generation;
        lease_id = bump (s.pool.store i).lease_id;
      } in
      let up : m.lease_id ≡ suc (s.pool.store i).lease_id = bump-eq-suc _ (omega arith) in
      let here = write_self i m s.pool.store in
      Inv-issues (Renews-lease (Others-put i m s v) (rw here refl) (rw here up)) l (omega arith)
        (small-put i m s v (omega arith) (omega arith)) refl
        (record {
          within = made;
          generation = rw here (omega arith);
          lease = λ _. rw here (omega arith);
        })
        v)
]

reserve-Inv :
    {n : ℕ} (session_id : Str) (now : ℕ) (s : System)
    → suc n < 2 ^ 64 - 1
    → InvOf n s
    → InvOf (suc n) (give_out (reserve session_id now s.pool) s)
unfolding reserve
reserve-Inv {n} session_id now s few v =
    elim (Bool-cases (ltb (length s.pool.entries) s.pool.max_connections)) [
      | inr e ↦ rw e (Inv-later v)
      | inl e ↦ rw e (
          let i = s.pool.allocated in
          let m = new_meta session_id now in
          let l : TtsWsLease = record {
            entry = i;
            session_id = session_id;
            generation = 1;
            lease_id = 1;
          } in
          let here = write_self i m s.pool.store in
          Inv-issues (Renews-made (Others-put i m s v) (omega arith)) l (omega arith)
            (small-put i m s v (omega arith) (omega arith)) refl
            (record {
              within = omega arith;
              generation = rw here (omega arith);
              lease = λ _. rw here (omega arith);
            })
            v)
    ]

-- Each section keeps the invariant, as long as no number of an entry can wrap.
apply-Inv :
    {n : ℕ} (a : Section) (s : System) → suc n < 2 ^ 64 - 1 → InvOf n s → InvOf (suc n) (apply a s)
unfolding apply connected connect_failed sent forget mark_closed reap release
apply-Inv (takes session_id i) s few v = elim (Bool-cases (ltb i s.pool.allocated)) [
  | inl e ↦ rw e (take_idle-Inv session_id i s few (ground arith) v)
  | inr e ↦ rw e (Inv-later v)
]
apply-Inv (reserves session_id now) s few v = reserve-Inv session_id now s few v
apply-Inv (connects i now) s few v = Inv-put-same i _ s v refl refl
apply-Inv (fails_connect i) s few v = Inv-put-closed i _ s v few refl refl
apply-Inv (sends i now) s few v = Inv-put-same i _ s v refl refl
apply-Inv (forgets i) s few v = Inv-later v
apply-Inv (invalidates i) s few v = Inv-put-closed i _ s v few refl refl
apply-Inv (reaps i generation lease_id now) s few v =
    elim (Bool-cases (should_reap (s.pool.store i) generation lease_id now)) [
      | inl e ↦ rw e (Inv-put-closed i _ s v few refl refl)
      | inr e ↦ rw e (Inv-later v)
    ]
apply-Inv (releases l now) s few v =
    let m = s.pool.store l.entry in
    elim (Bool-cases
      (is_in_use m.state && m.generation == l.generation && m.lease_id == l.lease_id)) [
        | inl e ↦ rw e (Inv-put-same l.entry _ s v refl refl)
        | inr e ↦ rw e (Inv-later v)
      ]

run-single :
    (n : ℕ) (sections : List Section) (s : System)
    → n + length sections < 2 ^ 64 - 1
    → InvOf n s
    → (i : ℕ) → owners i (run sections s) ≤ 1
unfolding run
run-single n [] s few v i = omega (arith, owners-le-newest i s.pool s.issued, v.single i)
run-single n (a ∷ more) s few v i =
    run-single (suc n) more (apply a s) (omega arith) (apply-Inv a s (omega arith) v) i

start-Inv : (max_connections : ℕ) → InvOf 0 (start max_connections)
start-Inv max_connections = record {
  small = λ i. omega arith;
  past = tt;
  single = λ i. omega arith;
}

-- However tasks take, reserve, connect, use, release, reap and invalidate connections, in any order
-- and with any addresses and leases, at most one of the leases given out passes the owner check of a
-- connection: fewer than 2^64 - 1 sections, the numbers of an entry being of 64 bits.
pub run-exclusive :
    (max_connections : ℕ) (sections : List Section) (i : ℕ)
    → length sections < 2 ^ 64 - 1
    → owners i (run sections (start max_connections)) ≤ 1
run-exclusive max_connections sections i few =
    run-single 0 sections (start max_connections) (omega arith) (start-Inv max_connections) i
