-- ===== src/Session/ClientMetrics.antt =====
-- crates/voice_server/src/session/mod.rs: the client's latency reports are counted once each.
-- The HashMap is an association list; where two reports are equally old, the first entry is evicted.
use voice_ai.Base.{
  ℕ, ◌+◌, ◌-◌, ◌≤◌, ◌<◌, ◌≡◌, refl, ap, ◌∙◌, inl, inr, ◌↔◌, ◌⊎◌, Bool, true, false, Option, none,
  some, List, [], ◌∷◌, length, keep, Eq, ◌is◌, is_refl, Str, str_eq, pair_eq, lookup, insert,
  remove, leb, if◌then◌else◌, arith, Bool-cases, Option-cases, lookup-insert, subst,
}
use mathlib.Core.Bool.{false≢true}
use mathlib.Core.Option.{some-injective}
use voice_ai.Proto.{
  ClientMetricKind, first_audio_received_to_playback, input_end_to_final_audio_sent,
}

abbrev pub client_metric_ttl : ℕ
client_metric_ttl = 30_000_000_000

abbrev pub max_client_metric_reports : ℕ
max_client_metric_reports = 4096

abbrev kind_beq : ClientMetricKind → ClientMetricKind → Bool
kind_beq first_audio_received_to_playback first_audio_received_to_playback = true
kind_beq input_end_to_final_audio_sent input_end_to_final_audio_sent = true
kind_beq _ _ = false

pub kind_beq_iff : (a b : ClientMetricKind) → (kind_beq a b ≡ true) ↔ (a ≡ b)
kind_beq_iff a b = ground arith

instance abbrev pub kind_eq : Eq ClientMetricKind
kind_eq = record { beq = kind_beq; beq_iff = kind_beq_iff }

abbrev pub MetricKey : Type 0
MetricKey = Str × ClientMetricKind

-- When each report was first seen.
abbrev pub Reported : Type 0
Reported = List (MetricKey × ℕ)

abbrev pub is_fresh : ℕ → MetricKey × ℕ → Bool
is_fresh now (k, at) = leb (now - at) client_metric_ttl

-- `retain`
unfoldable pub retain_fresh : ℕ → Reported → Reported
retain_fresh now m = keep (is_fresh now) m

unfoldable pub contains_key : MetricKey → Reported → Bool
contains_key k m = elim (lookup k m) [ none ↦ false | some _ ↦ true ]

-- `iter().min_by_key(..)`
abbrev older : MetricKey × ℕ → Option (MetricKey × ℕ) → MetricKey × ℕ
older e none = e
older e (some f) = if leb e.1 f.1 then e else f

unfoldable pub oldest : Reported → Option (MetricKey × ℕ)
oldest [] = none
oldest (e ∷ m) = some (older e (oldest m))

unfoldable pub evict : Reported → Reported
evict m = elim (oldest m) [ none ↦ m | some e ↦ remove e.0 m ]

-- The new table, and whether the report is to be counted.
unfoldable pub remember_client_metric_once : Reported → MetricKey → ℕ → Reported × Bool
remember_client_metric_once m k now =
    let live = retain_fresh now m in
    if contains_key k live
    then (live, false)
    else (let roomy = if leb max_client_metric_reports (length live) then evict live else live in
        (insert k now roomy, true))

module _ {ℓ κ} {K : Type ℓ} {V : Type κ} ⦃e : Eq K⦄ where
  length-insert : (k : K) (v : V) (m : List (K × V)) → length (insert k v m) ≤ length m + 1
  unfolding insert
  length-insert k v [] = omega arith
  length-insert k v ((j, w) ∷ m) = ground (arith, length-insert k v m)

  length-remove : (k : K) (m : List (K × V)) → length (remove k m) ≤ length m
  unfolding remove
  length-remove k [] = omega arith
  length-remove k (x ∷ m) = ground (arith, length-remove k m)

  length-remove_here :
      (k : K) (x : K × V) (m : List (K × V))
      → (x.0 is k) ≡ true
      → length (remove k (x ∷ m)) < length (x ∷ m)
  unfolding remove
  length-remove_here k x m here = rw here (omega (arith, length-remove k m))

  length-remove_there :
      (k : K) (x : K × V) (m : List (K × V))
      → length (remove k m) < length m
      → length (remove k (x ∷ m)) < length (x ∷ m)
  unfolding remove
  length-remove_there k x m h = ground arith

evict_lt : (m : Reported) (e : MetricKey × ℕ) → oldest m ≡ some e → length (remove e.0 m) < length m
unfolding oldest
evict_lt [] e h = absurd (cc)
evict_lt (x ∷ m) e h = elim (Option-cases (oldest m)) [
  | inl last ↦
      let same : some x ≡ some e = rw last at h in
      length-remove_here e.0 x m
        (rw (ap (λ (y : MetricKey × ℕ). y.0) (some-injective _ _ same)) (is_refl e.0))
  | inr (f, found) ↦
      let picked : some (older x (some f)) ≡ some e = rw found at h in
      go f (evict_lt m f found) (Bool-cases (leb x.1 f.1)) picked
]
  where
    go :
        (f : MetricKey × ℕ)
        → length (remove f.0 m) < length m
        → ((leb x.1 f.1 ≡ true) ⊎ (leb x.1 f.1 ≡ false))
        → some (older x (some f)) ≡ some e
        → length (remove e.0 (x ∷ m)) < length (x ∷ m)
    go f less (inl first) picked =
        let same : some x ≡ some e = rw first at picked in
        length-remove_here e.0 x m
          (rw (ap (λ (y : MetricKey × ℕ). y.0) (some-injective _ _ same)) (is_refl e.0))
    go f less (inr later) picked =
        let same : some f ≡ some e = rw later at picked in
        length-remove_there e.0 x m (
          subst (λ (y : MetricKey × ℕ). length (remove y.0 m) < length m) (some-injective _ _ same)
            less)

length-retain_fresh : (now : ℕ) (m : Reported) → length (retain_fresh now m) ≤ length m
unfolding retain_fresh
length-retain_fresh now [] = omega arith
length-retain_fresh now (x ∷ m) = ground (arith, length-retain_fresh now m)

-- Evicting from a table that is not empty makes room.
length-evict : (m : Reported) → 0 < length m → length (evict m) < length m
unfolding evict
length-evict [] h = absurd (omega arith)
length-evict (x ∷ m) h = elim (Option-cases (oldest (x ∷ m))) [
  | inl missing ↦ absurd (unfold oldest in (cc missing))
  | inr (e, found) ↦ rw (found, evict) (evict_lt (x ∷ m) e found)
]

-- The table never holds more than its limit.
pub remember_bounded :
    (m : Reported) (k : MetricKey) (now : ℕ)
    → length m ≤ max_client_metric_reports
    → length (remember_client_metric_once m k now).0 ≤ max_client_metric_reports
unfolding remember_client_metric_once
remember_bounded m k now h =
    let live = retain_fresh now m in
    ground (
      arith,
      length-retain_fresh now m,
      length-evict live,
      length-insert k now live,
      length-insert k now (evict live),
    )

-- A fresh entry stays in sight when the stale ones are dropped.
lookup-keep_fresh :
    (now at : ℕ) (k : MetricKey) (m : Reported)
    → lookup k m ≡ some at
    → now - at ≤ client_metric_ttl
    → lookup k (retain_fresh now m) ≡ some at
unfolding lookup retain_fresh
lookup-keep_fresh now at k [] e fresh = absurd (cc)
lookup-keep_fresh now at k ((j, b) ∷ m) e fresh = ground (arith, lookup-keep_fresh now at k m)

-- A report that was counted is not counted again within thirty seconds.
pub remember_twice :
    (m : Reported) (k : MetricKey) (now later : ℕ)
    → (remember_client_metric_once m k now).1 ≡ true
    → later - now ≤ client_metric_ttl
    → (remember_client_metric_once (remember_client_metric_once m k now).0 k later).1 ≡ false
unfolding remember_client_metric_once contains_key
remember_twice m k now later counted soon =
    elim (Bool-cases (contains_key k (retain_fresh now m))) [
      | inl known ↦ absurd (false≢true (rw known at counted))
      | inr unknown ↦ rw unknown (again _)
    ]
  where
    again :
        (roomy : Reported) → (remember_client_metric_once (insert k now roomy) k later).1 ≡ false
    again roomy =
        let seen : lookup k (retain_fresh later (insert k now roomy)) ≡ some now =
          lookup-keep_fresh later now k (insert k now roomy)
            (lookup-insert k k now roomy ∙ rw (is_refl k) refl) soon in
        rw (seen, contains_key) refl
