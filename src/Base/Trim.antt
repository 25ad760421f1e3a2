-- ===== src/Base/Trim.antt =====
-- Trimming a trimmed text.
use mathlib.Core.Path.{◌≡◌, refl, ap, ◌∙◌}
use mathlib.Core.Logic.{inl, inr}
use mathlib.Core.Bool.{◌&&◌}
use mathlib.Core.List.{[], ◌∷◌}
use voice_ai.Base.Tests.{Bool-cases}
use voice_ai.Base.Lists.{is_empty}
use voice_ai.Base.Maps.{Str}
use voice_ai.Base.Chars.{is_whitespace, trim_start, trim_end, trim}

trim_end_idem : (s : Str) → trim_end (trim_end s) ≡ trim_end s
unfolding trim_end
trim_end_idem [] = refl
trim_end_idem (c ∷ s) = elim (Bool-cases (is_whitespace c && is_empty (trim_end s))) [
  | inl blank ↦ rw blank refl
  | inr kept ↦ rw (kept, trim_end_idem s, kept) refl
]

-- Once the white space in front is gone, trimming the end brings none back.
front_kept : (s : Str) → trim_start (trim_end (trim_start s)) ≡ trim_end (trim_start s)
unfolding trim_start trim_end
front_kept [] = refl
front_kept (c ∷ s) = elim (Bool-cases (is_whitespace c)) [
  | inl blank ↦ rw blank (front_kept s)
  | inr kept ↦ rw (kept, kept, kept) refl
]

pub trim_idem : (s : Str) → trim (trim s) ≡ trim s
unfolding trim
trim_idem s = ap trim_end (front_kept s) ∙ trim_end_idem (trim_start s)
