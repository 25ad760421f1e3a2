-- ===== src/Session/Run/Counted.antt =====
-- crates/voice_server/src/session/pipeline.rs, metrics.rs: each run is counted once as started and once
-- as finished.
use voice_ai.Base.{
  ◌≡◌, refl, ap, ◌∙◌, Option, none, some, List, [], ◌∷◌, ◌++◌, Bool-cases, inl, inr, if◌then◌else◌,
}
use voice_ai.Cancel.{CancelTokens}
use voice_ai.Metrics.Guard.{
  PipelineResult, Observation, pipeline_started, pipeline_finished, start, drop_guard,
}
use voice_ai.Session.{DoubleOps, PipelineArgs}
use voice_ai.Session.Run.{
  Act, sends, reads_cancelled, waits, tells, replaces, cancels, leaves, Outside, RunState,
  cancel_prev, run_pipeline, respond, begin, released,
}
use voice_ai.Metrics.Guard.Inner.{is_edge}
use voice_ai.Session.Run.Acts.{HoldsOfSteps, respond-holds}

module _ (ct : CancelTokens) (fl : DoubleOps) where
  -- The observations that count runs.
  abbrev pub counted : List (Act ct fl) → List Observation
  counted [] = []
  counted (tells x ∷ acts) = let rest = counted acts in if is_edge x then x ∷ rest else rest
  counted (_ ∷ acts) = counted acts

  counted-append : (xs ys : List (Act ct fl)) → counted (xs ++ ys) ≡ counted xs ++ counted ys
  counted-append [] ys = refl
  counted-append (tells x ∷ xs) ys = elim (Bool-cases (is_edge x)) [
    | inl e ↦ rw e (ap (λ l. x ∷ l) (counted-append xs ys))
    | inr e ↦ rw e (counted-append xs ys)
  ]
  counted-append (sends p b ∷ xs) ys = counted-append xs ys
  counted-append (reads_cancelled b ∷ xs) ys = counted-append xs ys
  counted-append (waits b ∷ xs) ys = counted-append xs ys
  counted-append (replaces t ∷ xs) ys = counted-append xs ys
  counted-append (cancels t ∷ xs) ys = counted-append xs ys
  counted-append (leaves t ∷ xs) ys = counted-append xs ys

  counted_skip :
      (xs ys : List (Act ct fl)) {l : List Observation}
      → counted xs ≡ []
      → counted ys ≡ l
      → counted (xs ++ ys) ≡ l
  counted_skip xs ys h k = counted-append xs ys ∙ (rw (h, k) refl)

  module _ (o : Outside ct fl) (args : PipelineArgs ct) where
    registers_uncounted :
        (prev : Option ct.Token) → counted (replaces prev ∷ cancel_prev ct fl o args prev) ≡ []
    registers_uncounted none = refl
    registers_uncounted (some t) = refl

    counted-holds : HoldsOfSteps ct fl o args (λ acts. counted acts ≡ [])
    counted-holds = record {
      nil = refl;
      append = λ xs ys h k. counted_skip xs ys h k;
      looks = λ b. refl;
      selects = λ b. refl;
      observes = λ x e. rw e refl;
      registers = registers_uncounted;
      sends_one = λ p taken. refl;
      sends_error = λ code taken taken'. refl;
    }

    released_uncounted : (s : RunState ct fl) → counted (released ct fl o args s) ≡ []
    released_uncounted s = elim (Bool-cases s.registered) [ inl e ↦ rw e refl | inr e ↦ rw e refl ]

    -- However a run ends, it is counted as started once, first, and as finished once, with one result.
    pub run_pipeline-counted :
        (r : PipelineResult) × (counted (run_pipeline ct fl o args)
          ≡ pipeline_started ∷ pipeline_finished r ∷ [])
    unfolding run_pipeline start drop_guard
    run_pipeline-counted =
        let acts = (respond ct fl o args (begin ct fl o args)).0 in
        let s = (respond ct fl o args (begin ct fl o args)).1 in
        (
          s.metric_guard.result,
          ap (λ l. pipeline_started ∷ l)
              (counted_skip acts _ (respond-holds ct fl o args counted-holds (begin ct fl o args))
                (counted_skip (released ct fl o args s) _ (released_uncounted s) refl)),
        )
