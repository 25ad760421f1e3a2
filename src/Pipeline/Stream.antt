-- ===== src/Pipeline/Stream.antt =====
-- Streams made by `stream!`: code over a state that yields items, and may return early or panic.
use voice_ai.Base.{List, [], ◌∷◌, ◌++◌, Option, none, some}

-- How a piece of the code ends: it goes on with a value, the stream has ended, or it panicked.
pub data Flow {ℓ} (A : Type ℓ) : Type ℓ where
  goes : A → Flow A
  returned : Flow A
  panicked : Flow A

abbrev pub Stream : Type 0 → Type 0 → Type 0 → Type 0
Stream Item S A = S → List Item × S × Flow A

module _ {Item S : Type 0} where
  -- What follows a piece that has ended so.
  abbrev pub then_do :
      {A : Type 0} {B : Type 0}
      → List Item
      → S
      → Flow A
      → (A → Stream Item S B)
      → List Item × S × Flow B
  then_do out s (goes a) f = let (more, s', flow) = f a s in (out ++ more, s', flow)
  then_do out s returned f = (out, s, returned)
  then_do out s panicked f = (out, s, panicked)

  infixl 5 ◌>>=◌ ◌>>◌
  abbrev pub ◌>>=◌ :
      {A : Type 0} {B : Type 0} → Stream Item S A → (A → Stream Item S B) → Stream Item S B
  ◌>>=◌ m f = λ s. let (out, s', flow) = m s in then_do out s' flow f

  abbrev pub ◌>>◌ : {A : Type 0} {B : Type 0} → Stream Item S A → Stream Item S B → Stream Item S B
  ◌>>◌ m n = m >>= λ _. n

  abbrev pub pure : {A : Type 0} → A → Stream Item S A
  pure a = λ s. ([], s, goes a)

  -- `yield`
  abbrev pub give : Item → Stream Item S Unit
  give i = λ s. (i ∷ [], s, goes tt)

  abbrev pub return_now : {A : Type 0} → Stream Item S A
  return_now = λ s. ([], s, returned)

  abbrev pub or_panic : {A : Type 0} → Option A → Stream Item S A
  or_panic none = λ s. ([], s, panicked)
  or_panic (some a) = λ s. ([], s, goes a)
