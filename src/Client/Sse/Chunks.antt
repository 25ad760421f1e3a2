-- ===== src/Client/Sse/Chunks.antt =====
-- crates/voice_server/src/client/llm.rs: the events of an answer do not depend on how the network cuts
-- its bytes.
use voice_ai.Base.{
  ℕ, ◌≡◌, refl, sym, ap, ◌∙◌, Bool, true, false, Option, none, some, List, [], ◌∷◌, ◌++◌, map,
  concat, ◌==◌, append-nil, append_assoc, if◌then◌else◌,
}
use voice_ai.Client.{Result, ok, LlmEvent}
use voice_ai.Client.Think.{ThinkTagFilter}
use voice_ai.Client.Sse.{
  ChunkJson, on_line, on_lines, line_before, break_lines, read_chunks, sse_events, no_filter,
}

abbrev Broken : Type 0
Broken = List (List ℕ) × List ℕ

abbrev joined : Broken → (List ℕ → Broken) → Broken
joined (lines, rest) f = (lines ++ (f rest).0, (f rest).1)

break_lines-append :
    (xs ys line : List ℕ)
    → break_lines line (xs ++ ys) ≡ joined (break_lines line xs) (λ rest. break_lines rest ys)
unfolding break_lines
break_lines-append [] ys line = refl
break_lines-append (c ∷ xs) ys line = at (c == 10) (break_lines-append xs ys)
  where
    at :
        (b : Bool)
        → ((line' : List ℕ)
            → break_lines line' (xs ++ ys)
              ≡ joined (break_lines line' xs) (λ rest. break_lines rest ys))
        → (elim b as (λ _. Broken) [
          | true ↦ line_before line (break_lines [] (xs ++ ys))
          | false ↦ break_lines (line ++ c ∷ []) (xs ++ ys)
        ])
          ≡ joined
              (elim b as (λ _. Broken) [
                | true ↦ line_before line (break_lines [] xs)
                | false ↦ break_lines (line ++ c ∷ []) xs
              ])
              (λ rest. break_lines rest ys)
    at true ih = ap (line_before line) (ih [])
    at false ih = ih (line ++ c ∷ [])

-- What is left of a buffer has no line feed: read again, it is left again.
break_lines-left :
    (xs line : List ℕ)
    → break_lines [] line ≡ ([], line)
    → break_lines [] (break_lines line xs).1 ≡ ([], (break_lines line xs).1)
unfolding break_lines
break_lines-left [] line h = h
break_lines-left (c ∷ xs) line h = at (c == 10) refl (break_lines-left xs)
  where
    at :
        (b : Bool)
        → (c == 10) ≡ b
        → ((line' : List ℕ)
            → break_lines [] line' ≡ ([], line')
            → break_lines [] (break_lines line' xs).1 ≡ ([], (break_lines line' xs).1))
        → (let out : Broken = elim b as (λ _. Broken) [
          | true ↦ line_before line (break_lines [] xs)
          | false ↦ break_lines (line ++ c ∷ []) xs
        ] in
            break_lines [] out.1 ≡ ([], out.1))
    at true e ih = ih [] refl
    at false e ih = ih (line ++ c ∷ []) (longer e)
      where
        longer : (c == 10) ≡ false → break_lines [] (line ++ c ∷ []) ≡ ([], line ++ c ∷ [])
        longer e =
            break_lines-append line (c ∷ []) []
            ∙ ap (λ out. joined out (λ rest. break_lines rest (c ∷ []))) h
            ∙ ap
                (λ b. elim b as (λ _. Broken) [
                  | true ↦ line_before line ([], [])
                  | false ↦ ([], line ++ c ∷ [])
                ])
                e

module _ (json : ChunkJson) where
  abbrev Out : Type 0
  Out = List (Result LlmEvent) × Option ThinkTagFilter

  abbrev then_lines : Out → List (List ℕ) → Out
  then_lines (items, none) lines = (items, none)
  then_lines (items, some f) lines = let (more, g) = on_lines json f lines in (items ++ more, g)

  one_more :
      (b : Bool) (items : List (Result LlmEvent)) (out whole : Out) (ys : List (List ℕ))
      → whole ≡ then_lines out ys
      → (if b then (items ++ whole.0, whole.1) else (items, none))
        ≡ then_lines (if b then (items ++ out.0, out.1) else (items, none)) ys
  one_more false items out whole ys e = refl
  one_more true items (l, none) whole ys e = ap (λ (o : Out). (items ++ o.0, o.1)) e
  one_more true items (l, some g) whole ys e =
      ap (λ (o : Out). (items ++ o.0, o.1)) e
      ∙ ap (λ more. (more, (on_lines json g ys).1))
          (sym (append_assoc items l (on_lines json g ys).0))

  on_lines-append :
      (xs ys : List (List ℕ)) (f : ThinkTagFilter)
      → on_lines json f (xs ++ ys) ≡ then_lines (on_lines json f xs) ys
  unfolding on_lines
  on_lines-append [] ys f = refl
  on_lines-append (line ∷ xs) ys f =
      let r = on_line json f line in
      one_more r.goes_on r.items (on_lines json r.filter xs) (on_lines json r.filter (xs ++ ys)) ys
        (on_lines-append xs ys r.filter)

  then_more :
      (out : Out) (lines : List (List ℕ)) (next : ThinkTagFilter → List (Result LlmEvent))
      → ((g : ThinkTagFilter) → next g ≡ (on_lines json g lines).0)
      → (elim out.1 as (λ _. List (Result LlmEvent)) [ none ↦ out.0 | some g ↦ out.0 ++ next g ])
        ≡ (then_lines out lines).0
  then_more (items, none) lines next e = refl
  then_more (items, some g) lines next e = ap (λ l. items ++ l) (e g)

  -- A rest in front of more bytes is read as the beginning of a line.
  break_lines-rest :
      (rest ys : List ℕ)
      → break_lines [] rest ≡ ([], rest)
      → break_lines [] (rest ++ ys) ≡ break_lines rest ys
  break_lines-rest rest ys h =
      break_lines-append rest ys [] ∙ ap (λ out. joined out (λ r. break_lines r ys)) h

  read-whole :
      (chunks : List (List ℕ)) (f : ThinkTagFilter) (buf : List ℕ)
      → break_lines [] buf ≡ ([], buf)
      → read_chunks json f buf (map ok chunks)
        ≡ (on_lines json f (break_lines [] (buf ++ concat chunks)).0).0
  unfolding read_chunks on_lines
  read-whole [] f buf h =
      ap (λ (b : Broken). (on_lines json f b.0).0)
        (sym h ∙ ap (break_lines []) (sym (append-nil buf)))
  read-whole (chunk ∷ chunks) f buf h =
      let whole = buf ++ chunk in
      let out = break_lines [] whole in
      let left : break_lines [] out.1 ≡ ([], out.1) =
        break_lines-left whole [] (unfold break_lines in refl) in
      let last = (break_lines out.1 (concat chunks)).0 in
      then_more (on_lines json f out.0) last (λ g. read_chunks json g out.1 (map ok chunks))
        (λ g.
          read-whole chunks g out.1 left
          ∙ ap (λ (b : Broken). (on_lines json g b.0).0)
              (break_lines-rest out.1 (concat chunks) left))
      ∙ ap (λ (o : Out). o.0) (sym (on_lines-append out.0 last f))
      ∙ ap (λ (b : Broken). (on_lines json f b.0).0)
          (sym (break_lines-append whole (concat chunks) [])
            ∙ ap (break_lines []) (append_assoc buf chunk (concat chunks)))

  -- The events of an answer that arrives without an error of the connection are those of all its bytes
  -- at once, however they are cut into chunks: within a line, within `data:` or within a tag.
  pub sse_events-concat :
      (chunks : List (List ℕ))
      → sse_events json (map ok chunks) ≡ sse_events json (ok (concat chunks) ∷ [])
  unfolding sse_events
  sse_events-concat chunks =
      let start : break_lines [] [] ≡ ([], []) = unfold break_lines in refl in
      read-whole chunks (no_filter json) [] start
      ∙ ap (λ bytes. (on_lines json (no_filter json) (break_lines [] bytes).0).0)
          (sym (append-nil (concat chunks)))
      ∙ sym (read-whole (concat chunks ∷ []) (no_filter json) [] start)
