-- ===== src/TtsWs/Pool/Versions.antt =====
-- crates/voice_server/src/client/tts_ws.rs: the generation of an entry and the number of its last
-- lease, and the leases given out that are still the newest of their entry.
use voice_ai.Base.{
  ℕ, suc, ◌≤◌, ◌<◌, ◌==◌, ◌≡◌, refl, ◌∙◌, inl, inr, Bool, true, false, ◌&&◌, List, ◌∷◌, All,
  All-map, Bool-cases, str_eq, arith, count, count-le, count-eq-zero, fun_ext,
}
use voice_ai.TtsWs.Pool.{TtsWsPool, TtsWsLease}

-- The generation of each entry and the lease that it gave out last.
pub record Versions : Type 0 where
  pub generation : ℕ → ℕ
  pub lease : ℕ → ℕ

abbrev pub versions : TtsWsPool → Versions
versions p = record { generation = λ i. (p.store i).generation; lease = λ i. (p.store i).lease_id }

-- The lease is the last one that the entry `i` gave out in its generation.
abbrev pub is_newest : ℕ → Versions → TtsWsLease → Bool
is_newest i v l =
    l.entry == i && v.generation l.entry == l.generation && v.lease l.entry == l.lease_id

-- A lease is of an entry that was made, and not newer than what the entry says.
pub record IsPast (made : ℕ) (v : Versions) (l : TtsWsLease) : Type 0 where
  pub within : l.entry < made
  pub generation : l.generation ≤ v.generation l.entry
  pub lease : l.generation ≡ v.generation l.entry → l.lease_id ≤ v.lease l.entry

pub record Inv (n made : ℕ) (v : Versions) (ls : List TtsWsLease) : Type 0 where
  pub small : (i : ℕ) → (v.generation i ≤ suc n) × (v.lease i ≤ suc n)
  pub past : All (IsPast made v) ls
  pub single : (i : ℕ) → count (is_newest i v) ls ≤ 1

pub Inv-later :
    {n made : ℕ} {v : Versions} {ls : List TtsWsLease} → Inv n made v ls → Inv (suc n) made v ls
Inv-later {v} h = record { small = λ i. omega (arith, h.small i); past = h.past; single = h.single }

-- The versions change at the entry `i`, and no lease from before is its newest afterwards.
pub record Renews (i made : ℕ) (v w : Versions) : Type 0 where
  pub others :
      (j : ℕ) → (i == j) ≡ false → (w.generation j ≡ v.generation j) × (w.lease j ≡ v.lease j)
  pub outdated : (l : TtsWsLease) → IsPast made v l → l.entry ≡ i → is_newest i w l ≡ false
  pub still : (l : TtsWsLease) → IsPast made v l → l.entry ≡ i → IsPast made w l

module _ {i made : ℕ} {v w : Versions} (r : Renews i made v w) where
  pub IsPast-renews : (l : TtsWsLease) → IsPast made v l → IsPast made w l
  IsPast-renews l h = elim (Bool-cases (i == l.entry)) [
    | inl e ↦ r.still l h (ground arith)
    | inr e ↦
        let o = r.others l.entry e in
        record {
          within = h.within;
          generation = rw o.0 h.generation;
          lease = λ g. rw o.1 (h.lease (g ∙ o.0));
        }
  ]

  pub newest-renews :
      (j : ℕ) (l : TtsWsLease) → IsPast made v l → is_newest j w l ≡ true → is_newest j v l ≡ true
  newest-renews j l h e = elim (Bool-cases (i == l.entry)) [
    | inl f ↦ ground (arith, r.outdated l h)
    | inr f ↦ ground (arith, r.others l.entry f)
  ]

  pub single_renews :
      (j : ℕ) (ls : List TtsWsLease)
      → All (IsPast made v) ls
      → count (is_newest j w) ls ≤ count (is_newest j v) ls
  single_renews j ls h =
      count-le (is_newest j w) (is_newest j v) ls (All-map ls (newest-renews j) h)

  pub none_renews : (ls : List TtsWsLease) → All (IsPast made v) ls → count (is_newest i w) ls ≡ 0
  none_renews ls h = count-eq-zero (is_newest i w) ls (All-map ls (λ l past. not_newest l past) h)
    where
      not_newest : (l : TtsWsLease) → IsPast made v l → is_newest i w l ≡ false
      not_newest l past = elim (Bool-cases (l.entry == i)) [
        | inl e ↦ r.outdated l past (ground arith)
        | inr e ↦ rw e refl
      ]

  pub Inv-renews :
      {n : ℕ} {ls : List TtsWsLease}
      → ((j : ℕ) → (w.generation j ≤ suc (suc n)) × (w.lease j ≤ suc (suc n)))
      → Inv n made v ls
      → Inv (suc n) made w ls
  Inv-renews {ls = ls} small h = record {
    small = small;
    past = All-map ls IsPast-renews h.past;
    single = λ j. omega (arith, single_renews j ls h.past, h.single j);
  }

  -- The entry gives out a new lease, and may be a new entry.
  pub Inv-issues :
      {n : ℕ} {made' : ℕ} {ls : List TtsWsLease} (l : TtsWsLease)
      → made ≤ made'
      → ((j : ℕ) → (w.generation j ≤ suc (suc n)) × (w.lease j ≤ suc (suc n)))
      → l.entry ≡ i
      → IsPast made' w l
      → Inv n made v ls
      → Inv (suc n) made' w (l ∷ ls)
  Inv-issues {made' = made'} {ls = ls} l m small e past h = record {
    small = small;
    past = (past, All-map ls (λ k old. further k (IsPast-renews k old)) h.past);
    single = λ j. elim (Bool-cases (i == j)) [
      | inl f ↦ ground (arith, none_renews ls h.past)
      | inr f ↦ ground (arith, single_renews j ls h.past, h.single j)
    ];
  }
    where
      further : (k : TtsWsLease) → IsPast made w k → IsPast made' w k
      further k old = record {
        within = omega arith;
        generation = old.generation;
        lease = old.lease;
      }

abbrev pub Others : ℕ → Versions → Versions → Type 0
Others i v w =
    (j : ℕ) → (i == j) ≡ false → (w.generation j ≡ v.generation j) × (w.lease j ≡ v.lease j)

module _ {i made : ℕ} {v w : Versions} (others : Others i v w) where
  pub Renews-generation :
      w.generation i ≡ suc (v.generation i) → w.lease i ≡ v.lease i → Renews i made v w
  Renews-generation e f = record {
    others = others;
    outdated = λ l past at_i.
        let g : w.generation l.entry ≡ suc (v.generation l.entry) = rw at_i e in ground arith;
    still = λ l past at_i.
        let g : w.generation l.entry ≡ suc (v.generation l.entry) = rw at_i e in
        record {
          within = past.within;
          generation = omega arith;
          lease = λ same. absurd (omega arith);
        };
  }

  pub Renews-lease :
      w.generation i ≡ v.generation i → w.lease i ≡ suc (v.lease i) → Renews i made v w
  Renews-lease e f = record {
    others = others;
    outdated = λ l past at_i.
        let g : w.generation l.entry ≡ v.generation l.entry = rw at_i e in
        let k : w.lease l.entry ≡ suc (v.lease l.entry) = rw at_i f in ground arith;
    still = λ l past at_i.
        let g : w.generation l.entry ≡ v.generation l.entry = rw at_i e in
        let k : w.lease l.entry ≡ suc (v.lease l.entry) = rw at_i f in
        record {
          within = past.within;
          generation = omega arith;
          lease = λ same. omega (arith, past.lease (same ∙ g));
        };
  }

  pub Renews-made : made ≤ i → Renews i made v w
  Renews-made h = record {
    others = others;
    outdated = λ l past at_i. absurd (omega (arith, past.within));
    still = λ l past at_i. absurd (omega (arith, past.within));
  }

pub Versions-eq :
    (v w : Versions)
    → ((j : ℕ) → v.generation j ≡ w.generation j)
    → ((j : ℕ) → v.lease j ≡ w.lease j)
    → v ≡ w
Versions-eq v w e f = λ k. record { generation = fun_ext e k; lease = fun_ext f k }
