-- ===== src/Recognition/Emotion.antt =====
-- crates/voice_server/src/utils/postprocess_utils.rs: what `parse_asr_text` finds in a text.
use voice_ai.Base.{
  ℕ, ◌+◌, ◌≤◌, ◌≡◌, refl, sym, ap, ◌∙◌, ◌⊎◌, inl, inr, Bool, true, false, ◌&&◌, Option, none, some,
  [], ◌∷◌, ◌++◌, keep, if◌then◌else◌, Str, str_eq, ◌is◌, is_refl, lookup, insert, lookup-insert,
  trim, Bool-cases, Option-cases, arith, append-nil, append_assoc,
}
use voice_ai.Recognition.Parse.{
  Scan, Stats, scan, scan_char, emotion_of, event_of, count_of, count_in, max_stat, larger,
  label_of, pair_le, no_scan, parse_asr_text,
}

abbrev pub is_label : Option Str → Str → Bool
is_label none label = false
is_label (some l) label = l is label

-- How many emojis of an emotion a text has.
abbrev pub occurrences : Str → Str → ℕ
occurrences label [] = 0
occurrences label (ch ∷ input) =
    let rest = occurrences label input in if is_label (emotion_of ch) label then rest + 1 else rest

abbrev is_none : Option Str → Bool
is_none none = true
is_none (some x) = false

-- A character that is no emoji of an emotion or of an event.
abbrev pub is_plain : ℕ → Bool
is_plain ch = is_none (emotion_of ch) && is_none (event_of ch)

scan_char-text :
    (e v : Option Str) (ch : ℕ) (s : Scan)
    → (scan_char e v ch s).text ≡ s.text ++ (if is_none e && is_none v then ch ∷ [] else [])
scan_char-text (some e) v ch s = sym (append-nil s.text)
scan_char-text none (some v) ch s = sym (append-nil s.text)
scan_char-text none none ch s = refl

keep-cons :
    (p : ℕ → Bool) (ch : ℕ) (s : Str) → keep p (ch ∷ s) ≡ (if p ch then ch ∷ [] else []) ++ keep p s
keep-cons p ch s = elim (Bool-cases (p ch)) [ inl e ↦ rw e refl | inr e ↦ rw e refl ]

scan-text : (input : Str) (s : Scan) → (scan input s).text ≡ s.text ++ keep is_plain input
unfolding scan
scan-text [] s = sym (append-nil s.text)
scan-text (ch ∷ input) s =
    let here : Str = if is_plain ch then ch ∷ [] else [] in
    scan-text input (scan_char (emotion_of ch) (event_of ch) ch s)
    ∙ ap (λ t. t ++ keep is_plain input) (scan_char-text (emotion_of ch) (event_of ch) ch s)
    ∙ append_assoc s.text here (keep is_plain input)
    ∙ ap (λ t. s.text ++ t) (sym (keep-cons is_plain ch input))

scan_char-count :
    (e v : Option Str) (ch : ℕ) (s : Scan) (label : Str)
    → count_of (scan_char e v ch s).emotion_stats label ≡ (
        if is_label e label
        then count_of s.emotion_stats label + 1
        else count_of s.emotion_stats label)
scan_char-count none none ch s label = refl
scan_char-count none (some v) ch s label = refl
scan_char-count (some e) v ch s label =
    ap count_in (lookup-insert e label (count_of s.emotion_stats e + 1, s.position) s.emotion_stats)
    ∙ elim (Bool-cases (e is label)) [
      | inl same ↦
          let eq : e ≡ label = (str_eq.beq_iff e label).0 same in
          rw same (ap (λ l. count_of s.emotion_stats l + 1) eq)
      | inr apart ↦ rw apart refl
    ]

count_step : (b : Bool) (n r : ℕ) → (if b then n + 1 else n) + r ≡ n + (if b then r + 1 else r)
count_step true n r = omega arith
count_step false n r = refl

scan-count :
    (input : Str) (s : Scan) (label : Str)
    → count_of (scan input s).emotion_stats label
      ≡ count_of s.emotion_stats label + occurrences label input
unfolding scan
scan-count [] s label = omega arith
scan-count (ch ∷ input) s label =
    scan-count input (scan_char (emotion_of ch) (event_of ch) ch s) label
    ∙ ap (λ n. n + occurrences label input)
        (scan_char-count (emotion_of ch) (event_of ch) ch s label)
    ∙ count_step (is_label (emotion_of ch) label) (count_of s.emotion_stats label)
        (occurrences label input)

-- The keys of a table are apart, and every label in it was met.
abbrev IsUnique : Stats → Type 0
IsUnique [] = Unit
IsUnique (x ∷ xs) = (lookup x.0 xs ≡ none) × IsUnique xs

insert-IsUnique : (k : Str) (v : ℕ × ℕ) (m : Stats) → IsUnique m → IsUnique (insert k v m)
unfolding insert lookup
insert-IsUnique k v [] u = (refl, tt)
insert-IsUnique k v ((j, w) ∷ m) (fresh, u) = elim (Bool-cases (j is k)) [
  | inl same ↦ rw same (ap (λ i. lookup i m) (sym ((str_eq.beq_iff j k).0 same)) ∙ fresh, u)
  | inr apart ↦
      let back : (k is j) ≡ false = ground (arith, str_eq.beq_iff j k, str_eq.beq_iff k j) in
      rw apart (lookup-insert k j v m ∙ (rw back fresh), insert-IsUnique k v m u)
]

record IsTally (stats : Stats) : Type 0 where
  unique : IsUnique stats
  met : (label : Str) (e : ℕ × ℕ) → lookup label stats ≡ some e → 1 ≤ e.0

insert-IsTally :
    (k : Str) (n p : ℕ) (stats : Stats) → IsTally stats → IsTally (insert k (n + 1, p) stats)
insert-IsTally k n p stats t = record {
  unique = insert-IsUnique k (n + 1, p) stats t.unique;
  met = λ label e h.
      at label e (Bool-cases (k is label)) (sym (lookup-insert k label (n + 1, p) stats) ∙ h);
}
  where
    at :
        (label : Str) (e : ℕ × ℕ)
        → ((k is label) ≡ true) ⊎ ((k is label) ≡ false)
        → (if k is label then some (n + 1, p) else lookup label stats) ≡ some e
        → 1 ≤ e.0
    at label e (inl same) h =
        let found : some (n + 1, p) ≡ some e = rw same at h in ground (arith, found)
    at label e (inr apart) h = t.met label e (rw apart at h)

scan_char-IsTally :
    (e v : Option Str) (ch : ℕ) (s : Scan)
    → IsTally s.emotion_stats
    → IsTally (scan_char e v ch s).emotion_stats
scan_char-IsTally (some e) v ch s t = insert-IsTally e _ _ s.emotion_stats t
scan_char-IsTally none (some v) ch s t = t
scan_char-IsTally none none ch s t = t

scan-IsTally :
    (input : Str) (s : Scan) → IsTally s.emotion_stats → IsTally (scan input s).emotion_stats
unfolding scan
scan-IsTally [] s t = t
scan-IsTally (ch ∷ input) s t =
    scan-IsTally input (scan_char (emotion_of ch) (event_of ch) ch s)
      (scan_char-IsTally (emotion_of ch) (event_of ch) ch s t)

-- The entry that `max_stat` gives is in the table, and none has a larger count.
abbrev IsLargest : Stats → Option (Str × (ℕ × ℕ)) → Type 0
IsLargest xs none = (label : Str) → lookup label xs ≡ none
IsLargest xs (some y) =
    (lookup y.0 xs ≡ some y.1)
    × ((label : Str) (e : ℕ × ℕ) → lookup label xs ≡ some e → e.0 ≤ y.1.0)

pair_le-count : (a b c d : ℕ) → pair_le (a, b) (c, d) ≡ true → a ≤ c
pair_le-count a b c d h = ground arith

pair_gt-count : (a b c d : ℕ) → pair_le (a, b) (c, d) ≡ false → c ≤ a
pair_gt-count a b c d h = ground arith

-- A bound of the counts of a table and of an entry before it is one of both.
lookup_bound :
    (x : Str × (ℕ × ℕ)) (xs : Stats) (c : ℕ)
    → x.1.0 ≤ c
    → ((label : Str) (e : ℕ × ℕ) → lookup label xs ≡ some e → e.0 ≤ c)
    → (label : Str) (e : ℕ × ℕ) → lookup label (x ∷ xs) ≡ some e
    → e.0 ≤ c
unfolding lookup
lookup_bound x xs c here there label e h = elim (Bool-cases (x.0 is label)) [
  | inl same ↦ let found : some x.1 ≡ some e = rw same at h in ground (arith, found, here)
  | inr apart ↦ there label e (rw apart at h)
]

larger-IsLargest :
    (x : Str × (ℕ × ℕ)) (xs : Stats) (o : Option (Str × (ℕ × ℕ)))
    → lookup x.0 xs ≡ none
    → IsLargest xs o
    → IsLargest (x ∷ xs) (larger x o)
unfolding lookup
larger-IsLargest x xs none fresh h = (
  rw (is_refl x.0) refl,
  lookup_bound x xs x.1.0 (omega arith) (λ label e f. absurd (none_found label e f)),
)
  where
    none_found : (label : Str) (e : ℕ × ℕ) → lookup label xs ≡ some e → ⊥
    none_found label e f = let no = h label in cc
larger-IsLargest x xs (some y) fresh (found, most) = elim (Bool-cases (pair_le x.1 y.1)) [
  | inl le ↦ rw le (
    behind (Bool-cases (x.0 is y.0)),
    lookup_bound x xs y.1.0 (pair_le-count x.1.0 x.1.1 y.1.0 y.1.1 le) most,
  )
  | inr gt ↦ rw gt (
    rw (is_refl x.0) refl,
    lookup_bound x xs x.1.0 (omega arith)
        (λ label e f. omega (arith, most label e f, pair_gt-count x.1.0 x.1.1 y.1.0 y.1.1 gt)),
  )
]
  where
    behind :
        ((x.0 is y.0) ≡ true) ⊎ ((x.0 is y.0) ≡ false)
        → (if x.0 is y.0 then some x.1 else lookup y.0 xs) ≡ some y.1
    behind (inl same) =
        let e : x.0 ≡ y.0 = (str_eq.beq_iff x.0 y.0).0 same in
        let f : lookup x.0 xs ≡ some y.1 = rw e found in absurd (cc)
    behind (inr apart) = rw apart found

max_stat-IsLargest : (xs : Stats) → IsUnique xs → IsLargest xs (max_stat xs)
max_stat-IsLargest [] u = λ label. unfold lookup in refl
max_stat-IsLargest (x ∷ xs) (fresh, u) =
    larger-IsLargest x xs (max_stat xs) fresh (max_stat-IsLargest xs u)

-- The emotion of a text: the label that occurs most often in it, or none when no label occurs.
abbrev pub IsMain : Str → Option Str → Type 0
IsMain input none = (label : Str) → occurrences label input ≡ 0
IsMain input (some l) =
    (1 ≤ occurrences l input) × ((label : Str) → occurrences label input ≤ occurrences l input)

largest-IsMain :
    (input : Str) (stats : Stats) (o : Option (Str × (ℕ × ℕ)))
    → ((label : Str) → count_of stats label ≡ occurrences label input)
    → IsTally stats
    → IsLargest stats o
    → IsMain input (label_of o)
largest-IsMain input stats none counts t h = λ label. sym (counts label) ∙ ap count_in (h label)
largest-IsMain input stats (some y) counts t (found, most) =
    let top : count_of stats y.0 ≡ y.1.0 = ap count_in found in
    (
      omega (arith, t.met y.0 y.1 found, top, counts y.0),
      λ label. elim (Option-cases (lookup label stats)) [
        | inl missing ↦
            let no : count_of stats label ≡ 0 = ap count_in missing in
            omega (arith, no, counts label)
        | inr (e, there) ↦
            let n : count_of stats label ≡ e.0 = ap count_in there in
            omega (arith, n, most label e there, top, counts label, counts y.0)
      ],
    )

-- `parse_asr_text` takes the emojis of emotions and events out of a text and trims the rest, and its
-- emotion is the label with the most emojis in the text, or none when the text has none of them.
pub parse_asr_text-IsMain :
    (input : Str)
    → ((parse_asr_text input).text ≡ trim (keep is_plain input))
      × IsMain input (parse_asr_text input).emotion
unfolding parse_asr_text
parse_asr_text-IsMain input =
    let stats = (scan input no_scan).emotion_stats in
    let tally : IsTally stats =
      scan-IsTally input no_scan
        (record { unique = tt; met = λ label e h. unfold lookup in absurd (cc) }) in
    let counts : (label : Str) → count_of stats label ≡ occurrences label input =
      λ label. scan-count input no_scan label ∙ (unfold lookup in omega arith) in
    (
      ap trim (scan-text input no_scan),
      largest-IsMain input stats (max_stat stats) counts tally
          (max_stat-IsLargest stats tally.unique),
    )
