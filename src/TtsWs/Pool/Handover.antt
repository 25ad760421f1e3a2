-- ===== src/TtsWs/Pool/Handover.antt =====
-- crates/voice_server/src/client/tts_ws.rs: a connection that is released is there for the next task.
use voice_ai.Base.{
  ℕ, ◌==◌, ==_iff, ◌≡◌, refl, inl, inr, Bool, true, false, ◌&&◌, some, List, [], ◌∷◌, any,
  Bool-cases, Str, str_eq, is_refl, arith,
}
use voice_ai.TtsWs.Pool.{
  ConnectionState, connecting, idle, closed, given_back, ConnectionMeta, TtsWsPool, TtsWsLease,
  write, put, is_idle, is_in_use, bump, in_use, lease_of, taken_by, take_idle, take_first,
  check_owner, release,
}

-- A task gets a lease that passes the check, for an entry of its snapshot.
record Takes (session_id : Str) (snapshot : List ℕ) (p : TtsWsPool) : Type 0 where
  entry : ℕ
  listed : any (λ i. i == entry) snapshot ≡ true
  was_idle : is_idle (p.store entry).state ≡ true
  taken :
      take_first session_id snapshot p
      ≡ some (
        lease_of session_id entry (p.store entry),
        put entry (taken_by session_id (p.store entry)) p,
      )

self_eq : (n : ℕ) → (n == n) ≡ true
self_eq n = (==_iff n n).1 refl

take_first-finds :
    (session_id : Str) (snapshot : List ℕ) (p : TtsWsPool)
    → any (λ i. is_idle (p.store i).state) snapshot ≡ true
    → Takes session_id snapshot p
unfolding take_first take_idle
take_first-finds session_id [] p h = absurd (cc)
take_first-finds session_id (i ∷ snapshot) p h = elim (Bool-cases (is_idle (p.store i).state)) [
  | inl e ↦ record {
    entry = i;
    listed = rw (self_eq i) refl;
    was_idle = e;
    taken = rw (e, take_first) refl;
  }
  | inr e ↦
      let later = take_first-finds session_id snapshot p (rw e at h) in
      record {
        entry = later.entry;
        listed = ground (arith, later.listed);
        was_idle = later.was_idle;
        taken = rw (e, take_first) later.taken;
      }
]

owned_after :
    (session_id : Str) (i : ℕ) (p : TtsWsPool)
    → check_owner (lease_of session_id i (p.store i)) (put i (taken_by session_id (p.store i)) p)
      ≡ true
unfolding check_owner
owned_after session_id i p = rw (self_eq i) (
    rw (self_eq (p.store i).generation)
      (rw (self_eq (bump (p.store i).lease_id)) (is_refl session_id)))

any-listed :
    (q : ℕ → Bool) (i : ℕ) (xs : List ℕ)
    → q i ≡ true
    → any (λ j. j == i) xs ≡ true
    → any q xs ≡ true
any-listed q i [] e h = absurd (cc)
any-listed q i (x ∷ xs) e h = elim (Bool-cases (x == i)) [
  | inl f ↦ rw ((==_iff x i).0 f) (rw e refl)
  | inr f ↦ let later = any-listed q i xs e (rw f at h) in ground arith
]

owner-releases :
    (l : TtsWsLease) (now : ℕ) (p : TtsWsPool)
    → check_owner l p ≡ true
    → (release l now p).1 ≡ put l.entry (given_back now (p.store l.entry)) p
unfolding check_owner release
owner-releases l now p h =
    let m = p.store l.entry in
    let e : (is_in_use m.state && m.generation == l.generation && m.lease_id == l.lease_id) ≡ true =
      ground arith in
    rw e refl

write_self : (i : ℕ) (m : ConnectionMeta) (store : ℕ → ConnectionMeta) → write i m store i ≡ m
write_self i m store = rw (self_eq i) refl

idle_not_used : (c : ConnectionState) → is_idle c ≡ true → is_in_use c ≡ false
idle_not_used connecting h = refl
idle_not_used idle h = refl
idle_not_used in_use h = cc
idle_not_used closed h = refl

idle-refused :
    (l : TtsWsLease) (p : TtsWsPool)
    → is_idle (p.store l.entry).state ≡ true
    → check_owner l p ≡ false
unfolding check_owner
idle-refused l p h =
    let e : is_in_use (p.store l.entry).state ≡ false = idle_not_used (p.store l.entry).state h in
    rw e refl

-- A lease that passes the check gives its connection back: afterwards it passes no more, and the next
-- task that looks through the pool gets a connection without opening one, with a lease that passes.
pub release-taken :
    (l : TtsWsLease) (now : ℕ) (session_id : Str) (p : TtsWsPool)
    → check_owner l p ≡ true
    → any (λ i. i == l.entry) p.entries ≡ true
    → (let p' = (release l now p).1 in
        (check_owner l p' ≡ false)
        × (k : TtsWsLease) × (q : TtsWsPool) × (take_first session_id p'.entries p' ≡ some (k, q))
        × (check_owner k q ≡ true))
release-taken l now session_id p owned listed =
    let p' = put l.entry (given_back now (p.store l.entry)) p in
    let free : is_idle (p'.store l.entry).state ≡ true =
      rw (write_self l.entry (given_back now (p.store l.entry)) p.store) refl in
    let t =
      take_first-finds session_id p.entries p'
        (any-listed (λ i. is_idle (p'.store i).state) l.entry p.entries free listed) in
    rw (owner-releases l now p owned) (
      idle-refused l p' free,
      lease_of session_id t.entry (p'.store t.entry),
      put t.entry (taken_by session_id (p'.store t.entry)) p',
      t.taken,
      owned_after session_id t.entry p',
    )
