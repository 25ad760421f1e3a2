-- ===== src/Base/Counts.antt =====
-- How many items of a list pass a test.
use Prim.Native.Nat.{ℕ, suc, ◌≤◌}
use mathlib.Core.Path.{◌≡◌}
use mathlib.Core.Bool.{Bool, true, false}
use mathlib.Core.Logic.{inl, inr}
use mathlib.Core.List.{List, [], ◌∷◌}
use native.Mathlib.Omega.{arith}
use voice_ai.Base.Tests.{if◌then◌else◌, Bool-cases}
use voice_ai.Base.Lists.{All}

module _ {ℓ} {A : Type ℓ} where
  abbrev pub count : (A → Bool) → List A → ℕ
  count p [] = 0
  count p (x ∷ xs) = let rest = count p xs in if p x then suc rest else rest

  -- A test that passes less often on the items counts less.
  pub count-le :
      (p q : A → Bool) (xs : List A)
      → All (λ x. p x ≡ true → q x ≡ true) xs
      → count p xs ≤ count q xs
  count-le p q [] h = omega arith
  count-le p q (x ∷ xs) (h, hs) = elim (Bool-cases (p x)) [
    | inl e ↦ rw (e, h e) (omega (arith, count-le p q xs hs))
    | inr e ↦ rw e (ground (arith, count-le p q xs hs))
  ]

  pub count-eq-zero : (p : A → Bool) (xs : List A) → All (λ x. p x ≡ false) xs → count p xs ≡ 0
  count-eq-zero p [] h = omega arith
  count-eq-zero p (x ∷ xs) (h, hs) = rw h (count-eq-zero p xs hs)

  pub All-map {κ η} :
      {P : A → Type κ} {Q : A → Type η} (xs : List A) → ((x : A) → P x → Q x) → All P xs → All Q xs
  All-map [] f h = tt
  All-map (x ∷ xs) f (h, hs) = (f x h, All-map xs f hs)
