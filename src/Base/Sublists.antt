-- ===== src/Base/Sublists.antt =====
-- Parts of a list in the same order.
use Prim.Native.Nat.{ℕ, zero, suc}
use mathlib.Core.Path.{◌≡◌, refl}
use mathlib.Core.Logic.{∥∥₁_elim, inl, inr}
use mathlib.Core.Bool.{Bool, true, ◌&&◌}
use mathlib.Core.List.{List, [], ◌∷◌, ◌++◌, Sublist, nil-sublist}
use mathlib.Core.List.Sublist
use mathlib.Core.List.{Sublistᴰ}
use native.Mathlib.Omega.{arith}
use voice_ai.Base.Tests.{Bool-cases}
use voice_ai.Base.Lists.{all, keep, drop, is_empty}
use voice_ai.Base.Maps.{Str}
use voice_ai.Base.Chars.{is_whitespace, trim_start, trim_end, trim}

pub &&_split : {a b : Bool} → (a && b) ≡ true → (a ≡ true) × (b ≡ true)
&&_split {a} {b} h = ground arith

module _ {ℓ} {A : Type ℓ} where
  pub keep-Sublist : (p : A → Bool) (xs : List A) → Sublist (keep p xs) xs
  keep-Sublist p [] = nil-sublist []
  keep-Sublist p (x ∷ xs) = elim (Bool-cases (p x)) [
    | inl kept ↦ rw kept (Sublist.cons-cons x (keep-Sublist p xs))
    | inr gone ↦ rw gone (Sublist.cons x (keep-Sublist p xs))
  ]

  -- A gap before a part, and one behind it.
  pub gaps-Sublist :
      (pre out mid : List A) {t rest : List A}
      → Sublist t rest
      → Sublist (out ++ t) (pre ++ (out ++ (mid ++ rest)))
  gaps-Sublist pre out mid h =
      Sublist.append (nil-sublist pre)
        (Sublist.append (Sublist.refl out) (Sublist.append (nil-sublist mid) h))

  all-within : (p : A → Bool) {xs ys : List A} → Sublistᴰ xs ys → all p ys ≡ true → all p xs ≡ true
  all-within p Sublistᴰ.slnil e = refl
  all-within p (Sublistᴰ.cons {a = a} {l₁ = xs} {l₂ = ys} d) e =
      let (here, there) = &&_split {a = p a} {b = all p ys} e in all-within p d there
  all-within p (Sublistᴰ.cons-cons {a = a} {b = b} {l₁ = xs} {l₂ = ys} same d) e =
      let (here, there) = &&_split {a = p b} {b = all p ys} e in
      rw (same, here) (all-within p d there)

  pub all-Sublist :
      (p : A → Bool) {xs ys : List A} → Sublist xs ys → all p ys ≡ true → all p xs ≡ true
  all-Sublist p h e = ∥∥₁_elim h (hlevel) (λ d. all-within p d e)

  pub drop-Sublist : (n : ℕ) (xs : List A) → Sublist (drop n xs) xs
  drop-Sublist zero xs = Sublist.refl xs
  drop-Sublist (suc n) [] = nil-sublist []
  drop-Sublist (suc n) (x ∷ xs) = Sublist.cons x (drop-Sublist n xs)

  pub all-append :
      (p : A → Bool) (xs ys : List A) → all p xs ≡ true → all p ys ≡ true → all p (xs ++ ys) ≡ true
  all-append p [] ys h k = k
  all-append p (x ∷ xs) ys h k =
      let (here, there) = &&_split {a = p x} {b = all p xs} h in
      rw here (all-append p xs ys there k)

  pub all-keep : (p : A → Bool) (xs : List A) → all p (keep p xs) ≡ true
  all-keep p [] = refl
  all-keep p (x ∷ xs) = elim (Bool-cases (p x)) [
    | inl kept ↦ rw (kept, kept) (all-keep p xs)
    | inr gone ↦ rw gone (all-keep p xs)
  ]

  pub all_both :
      (p q : A → Bool) (xs : List A)
      → all p xs ≡ true
      → all q xs ≡ true
      → all (λ x. p x && q x) xs ≡ true
  all_both p q [] h k = refl
  all_both p q (x ∷ xs) h k =
      let (a, as') = &&_split {a = p x} {b = all p xs} h in
      let (b, bs) = &&_split {a = q x} {b = all q xs} k in rw (a, b) (all_both p q xs as' bs)

pub trim_start-Sublist : (s : Str) → Sublist (trim_start s) s
unfolding trim_start
trim_start-Sublist [] = nil-sublist []
trim_start-Sublist (c ∷ s) = elim (Bool-cases (is_whitespace c)) [
  | inl blank ↦ rw blank (Sublist.cons c (trim_start-Sublist s))
  | inr other ↦ rw other (Sublist.refl (c ∷ s))
]

trim_end-Sublist : (s : Str) → Sublist (trim_end s) s
unfolding trim_end
trim_end-Sublist [] = nil-sublist []
trim_end-Sublist (c ∷ s) = elim (Bool-cases (is_whitespace c && is_empty (trim_end s))) [
  | inl blank ↦ rw blank (nil-sublist (c ∷ s))
  | inr other ↦ rw other (Sublist.cons-cons c (trim_end-Sublist s))
]

pub trim-Sublist : (s : Str) → Sublist (trim s) s
unfolding trim
trim-Sublist s = Sublist.trans (trim_end-Sublist (trim_start s)) (trim_start-Sublist s)
