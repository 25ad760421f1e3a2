-- ===== src/Pipeline/LlmTts/Tidy.antt =====
-- The protocol of the items: how they are numbered, and how the stream ends.
use voice_ai.Base.{
  ℕ, ◌+◌, ◌%◌, ◌^◌, ◌≡◌, ap, ◌∙◌, sym, Bool, true, false, not, List, [], ◌∷◌, ◌++◌, append_assoc,
  all, all-append, Str,
}
use voice_ai.Client.{TtsClient}
use voice_ai.Pipeline.Stream.{Stream, Flow, goes, returned, panicked, ◌>>=◌, then_do}
use voice_ai.Pipeline.LlmTts.{LlmTtsItem, llm, tts, failed, Vars}

abbrev pub next_seq : ℕ → ℕ
next_seq n = (n + 1) % 2 ^ 32

-- The audio items have the numbers after `n` one after the other, and `m` is the last one.
abbrev pub Numbered : ℕ → List LlmTtsItem → ℕ → Type 0
Numbered n [] m = n ≡ m
Numbered n (llm d f ∷ is) m = Numbered n is m
Numbered n (tts k a l ∷ is) m = (k ≡ next_seq n) × Numbered k is m
Numbered n (failed e c ∷ is) m = Numbered n is m

-- An item after which others come.
abbrev pub is_plain : LlmTtsItem → Bool
is_plain (llm d f) = true
is_plain (tts k a last) = not last
is_plain (failed e c) = false

abbrev pub ArePlain : List LlmTtsItem → Type 0
ArePlain is = all is_plain is ≡ true

-- The last item is `t`, and the others are plain.
abbrev pub EndsWith : List LlmTtsItem → LlmTtsItem → Type 0
EndsWith out t = (body : List LlmTtsItem) × (out ≡ body ++ (t ∷ [])) × ArePlain body

-- How a piece of the code ran: what it yielded is numbered on, an early return is behind an item
-- `Failed`, and where the code goes on, the yielded items are as `Q` says.
abbrev pub Ran :
    {A : Type 0} → (List LlmTtsItem → Type 0) → ℕ → List LlmTtsItem → ℕ → Flow A → Type 0
Ran Q n out m (goes a) = Numbered n out m × Q out
Ran Q n out m returned = Numbered n out m × ((e : Str) × (c : ℕ) × EndsWith out (failed e c))
Ran Q n out m panicked = Numbered n out m × ArePlain out

Numbered-append :
    (n k m : ℕ) (is js : List LlmTtsItem)
    → Numbered n is k
    → Numbered k js m
    → Numbered n (is ++ js) m
Numbered-append n k m [] js h i = rw h i
Numbered-append n k m (llm d f ∷ is) js h i = Numbered-append n k m is js h i
Numbered-append n k m (tts j a l ∷ is) js (e, h) i = (e, Numbered-append j k m is js h i)
Numbered-append n k m (failed e c ∷ is) js h i = Numbered-append n k m is js h i

pub EndsWith-append :
    (is js : List LlmTtsItem) (t : LlmTtsItem) → ArePlain is → EndsWith js t → EndsWith (is ++ js) t
EndsWith-append is js t h (body, e, plain) = (
  is ++ body,
  ap (◌++◌ is) e ∙ sym (append_assoc is body (t ∷ [])),
  all-append is_plain is body h plain,
)

module _ {tc : TtsClient} where
  -- From any variables.
  pub record RunsTo {A : Type 0} (Q : List LlmTtsItem → Type 0) (m : Stream LlmTtsItem (Vars tc) A)
      : Type 0 where
    pub runs : (s : Vars tc) → Ran Q s.global_seq (m s).0 (m s).1.global_seq (m s).2

  abbrev pub IsTidy : {A : Type 0} → Stream LlmTtsItem (Vars tc) A → Type 0
  IsTidy m = RunsTo ArePlain m

  pub RunsTo-bind :
      {A : Type 0} {B : Type 0} (Q : List LlmTtsItem → Type 0) {m : Stream LlmTtsItem (Vars tc) A}
      {f : A → Stream LlmTtsItem (Vars tc) B}
      → ((is js : List LlmTtsItem) → ArePlain is → Q js → Q (is ++ js))
      → IsTidy m
      → ((a : A) → RunsTo Q (f a))
      → RunsTo Q (m >>= f)
  RunsTo-bind {A} {B} Q {m} {f} grows h k = record {
    runs = λ s. go s (m s).0 (m s).1 (m s).2 (h.runs s);
  }
    where
      join :
          (out : List LlmTtsItem) (n j i : ℕ) (more : List LlmTtsItem) (flow : Flow B)
          → Numbered n out j
          → ArePlain out
          → Ran Q j more i flow
          → Ran Q n (out ++ more) i flow
      join out n j i more (goes b) num plain (num', q) =
          (Numbered-append n j i out more num num', grows out more plain q)
      join out n j i more returned num plain (num', (e, c, ends)) = (
        Numbered-append n j i out more num num',
        (e, c, EndsWith-append out more (failed e c) plain ends),
      )
      join out n j i more panicked num plain (num', plain') =
          (Numbered-append n j i out more num num', all-append is_plain out more plain plain')

      go :
          (s : Vars tc) (out : List LlmTtsItem) (s' : Vars tc) (flow : Flow A)
          → Ran ArePlain s.global_seq out s'.global_seq flow
          → Ran Q s.global_seq
              (then_do out s' flow f).0
              (then_do out s' flow f).1.global_seq
              (then_do out s' flow f).2
      go s out s' (goes a) (num, plain) =
          join out s.global_seq s'.global_seq (f a s').1.global_seq (f a s').0 (f a s').2 num plain
            ((k a).runs s')
      go s out s' returned h' = h'
      go s out s' panicked h' = h'

  infixl 5 ◌then◌
  pub ◌then◌ :
      {A : Type 0} {B : Type 0} {m : Stream LlmTtsItem (Vars tc) A}
      {f : A → Stream LlmTtsItem (Vars tc) B}
      → IsTidy m
      → ((a : A) → IsTidy (f a))
      → IsTidy (m >>= f)
  ◌then◌ h k = RunsTo-bind ArePlain (all-append is_plain) h k
