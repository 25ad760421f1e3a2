-- ===== src/Base/Absent.antt =====
-- A pattern with a character that a text does not have is not found in the text.
use Prim.Native.Nat.{ℕ, suc, ◌-◌}
use mathlib.Core.Path.{◌≡◌, refl, ap, ◌∙◌}
use mathlib.Core.Logic.{inl, inr}
use mathlib.Core.Bool.{Bool, true, false}
use mathlib.Core.List.{List, [], ◌∷◌, ◌++◌}
use native.Mathlib.Omega.{arith}
use voice_ai.Base.Tests.{◌==◌, Bool-cases}
use voice_ai.Base.Lists.{any, length}
use voice_ai.Base.Maps.{Str}
use voice_ai.Base.Chars.{starts_with}
use voice_ai.Base.Replace.{
  replace, replace_from, count_matches, matches_from, split, split_from, onto_first,
}

abbrev pub has_char : ℕ → Str → Bool
has_char c s = any (λ d. d == c) s

module _ (c : ℕ) where
  pub starts_absent :
      (p s : Str) → has_char c p ≡ true → has_char c s ≡ false → starts_with p s ≡ false
  starts_absent [] s h k = absurd (cc)
  starts_absent (p ∷ ps) [] h k = refl
  starts_absent (p ∷ ps) (d ∷ s) h k = elim (Bool-cases (p == c)) [
    | inl here ↦ let apart : (p == d) ≡ false = ground arith in rw apart refl
    | inr other ↦
        let later : has_char c ps ≡ true = rw other at h in
        let gone : has_char c s ≡ false = ground arith in
        elim (Bool-cases (p == d)) [
          | inl e ↦ rw e (starts_absent ps s later gone)
          | inr e ↦ rw e refl
        ]
  ]

  pub tail_absent : (d : ℕ) (s : Str) → has_char c (d ∷ s) ≡ false → has_char c s ≡ false
  tail_absent d s k = ground arith

  module _ (p : Str) (h : has_char c p ≡ true) where
    pub replace-absent : (r s : Str) → has_char c s ≡ false → replace p r s ≡ s
    unfolding replace replace_from
    replace-absent r [] k = refl
    replace-absent r (d ∷ s) k =
        ap
          (λ b. elim b as (λ _. Str) [
            | true ↦ r ++ replace_from p r (length p - 1) s
            | false ↦ d ∷ replace_from p r 0 s
          ])
          (starts_absent p (d ∷ s) h k)
        ∙ ap (λ t. d ∷ t) (replace-absent r s (tail_absent d s k))

    pub count_matches-absent : (s : Str) → has_char c s ≡ false → count_matches p s ≡ 0
    unfolding count_matches matches_from
    count_matches-absent [] k = refl
    count_matches-absent (d ∷ s) k =
        ap
          (λ b. elim b as (λ _. ℕ) [
            | true ↦ suc (matches_from p (length p - 1) s)
            | false ↦ matches_from p 0 s
          ])
          (starts_absent p (d ∷ s) h k)
        ∙ count_matches-absent s (tail_absent d s k)

    pub split-absent : (s : Str) → has_char c s ≡ false → split p s ≡ s ∷ []
    unfolding split split_from
    split-absent [] k = refl
    split-absent (d ∷ s) k =
        ap
          (λ b. elim b as (λ _. List Str) [
            | true ↦ [] ∷ split_from p (length p - 1) s
            | false ↦ onto_first d (split_from p 0 s)
          ])
          (starts_absent p (d ∷ s) h k)
        ∙ ap (onto_first d) (split-absent s (tail_absent d s k))
