-- ===== src/Base/Parts.antt =====
-- The end of a list and what stands before it, as a list grows at its end.
use Prim.Native.Nat.{ℕ, ◌+◌, ◌-◌}
use mathlib.Core.Path.{◌≡◌, sym, ap, ap₂, ◌∙◌}
use mathlib.Core.List.{List, [], ◌++◌}
use native.Mathlib.Omega.{arith}
use voice_ai.Base.Lists.{
  length, take, drop, length-append, length-drop, take-append_le, drop-append_le, drop-drop,
  take_add, drop-all,
}

-- The last `c` items of a list, and what stands before them.
abbrev pub last_part {ℓ} : {A : Type ℓ} → ℕ → List A → List A
last_part c xs = drop (length xs - c) xs

abbrev pub first_part {ℓ} : {A : Type ℓ} → ℕ → List A → List A
first_part c xs = take (length xs - c) xs

pub last_part-nil {ℓ} : {A : Type ℓ} (c : ℕ) → last_part {A = A} c [] ≡ []
last_part-nil c = drop-all (0 - c) [] (omega arith)

module _ {ℓ} {A : Type ℓ} (c : ℕ) (xs ys : List A) where
  pub last_part-append : last_part c (last_part c xs ++ ys) ≡ last_part c (xs ++ ys)
  last_part-append =
      let k = length xs - c in
      let e = length (last_part c xs ++ ys) - c in
      let cut : drop k (xs ++ ys) ≡ last_part c xs ++ ys = drop-append_le k xs ys (omega arith) in
      let total : length (xs ++ ys) - c ≡ k + e =
        omega (arith, length-append xs ys, length-append (last_part c xs) ys, length-drop k xs) in
      ap (drop e) (sym cut)
      ∙ sym (drop-drop k e (xs ++ ys))
      ∙ ap (λ n. drop n (xs ++ ys)) (sym total)

  pub first_part-append :
      first_part c (xs ++ ys) ≡ first_part c xs ++ first_part c (last_part c xs ++ ys)
  first_part-append =
      let k = length xs - c in
      let e = length (last_part c xs ++ ys) - c in
      let cut : drop k (xs ++ ys) ≡ last_part c xs ++ ys = drop-append_le k xs ys (omega arith) in
      let total : length (xs ++ ys) - c ≡ k + e =
        omega (arith, length-append xs ys, length-append (last_part c xs) ys, length-drop k xs) in
      ap (λ n. take n (xs ++ ys)) total
      ∙ take_add k e (xs ++ ys)
      ∙ ap₂ (λ u v. u ++ take e v) (take-append_le k xs ys (omega arith)) cut
