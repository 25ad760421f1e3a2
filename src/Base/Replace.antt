-- ===== src/Base/Replace.antt =====
-- What the code uses of `str::replace`, `matches` and `split`, for a pattern that is not empty: the
-- matches from left to right that do not overlap. The first number is how many characters are still
-- inside the last match.
use Prim.Native.Nat.{ℕ, zero, suc, ◌-◌}
use mathlib.Core.Bool.{true, false}
use mathlib.Core.List.{List, [], ◌∷◌, ◌++◌}
use voice_ai.Base.Lists.{length}
use voice_ai.Base.Maps.{Str}
use voice_ai.Base.Chars.{starts_with}

unfoldable pub replace_from : (pattern by : Str) → ℕ → Str → Str
replace_from p r n [] = []
replace_from p r (suc n) (c ∷ s) = replace_from p r n s
replace_from p r zero (c ∷ s) = elim (starts_with p (c ∷ s)) [
  | true ↦ r ++ replace_from p r (length p - 1) s
  | false ↦ c ∷ replace_from p r 0 s
]

unfoldable pub replace : (pattern by : Str) → Str → Str
unfolding replace_from
replace p r s = replace_from p r 0 s

unfoldable pub matches_from : (pattern : Str) → ℕ → Str → ℕ
matches_from p n [] = 0
matches_from p (suc n) (c ∷ s) = matches_from p n s
matches_from p zero (c ∷ s) = elim (starts_with p (c ∷ s)) [
  | true ↦ suc (matches_from p (length p - 1) s)
  | false ↦ matches_from p 0 s
]

unfoldable pub count_matches : (pattern : Str) → Str → ℕ
unfolding matches_from
count_matches p s = matches_from p 0 s

abbrev pub onto_first : ℕ → List Str → List Str
onto_first c [] = (c ∷ []) ∷ []
onto_first c (s ∷ ss) = (c ∷ s) ∷ ss

unfoldable pub split_from : (pattern : Str) → ℕ → Str → List Str
split_from p n [] = [] ∷ []
split_from p (suc n) (c ∷ s) = split_from p n s
split_from p zero (c ∷ s) = elim (starts_with p (c ∷ s)) [
  | true ↦ [] ∷ split_from p (length p - 1) s
  | false ↦ onto_first c (split_from p 0 s)
]

unfoldable pub split : (pattern : Str) → Str → List Str
unfolding split_from
split p s = split_from p 0 s

-- `[str]::join`
abbrev pub join_with : Str → List Str → Str
join_with sep [] = []
join_with sep (s ∷ []) = s
join_with sep (s ∷ ss) = s ++ (sep ++ join_with sep ss)
