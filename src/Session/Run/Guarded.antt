-- ===== src/Session/Run/Guarded.antt =====
-- crates/voice_server/src/session/pipeline.rs: every payload of a run stands directly behind a test of
-- its cancellation.
use voice_ai.Base.{
  ◌+◌, ◌≡◌, refl, Bool, true, false, ◌&&◌, Option, none, some, List, [], ◌∷◌, ◌++◌, map, Bool-cases,
  inl, inr, if◌then◌else◌, &&_split,
}
use voice_ai.Cancel.{CancelTokens}
use voice_ai.Proto.{error, VoicePayload, agent_status, error_payload}
use voice_ai.Metrics.Guard.{Observation, start, drop_guard}
use voice_ai.Session.{DoubleOps, PipelineArgs}
use voice_ai.Session.Run.{
  Act, sends, reads_cancelled, tells, replaces, Outside, RunState, cancel_prev, run_pipeline,
  respond, begin, released,
}
use voice_ai.Session.Run.Acts.{HoldsOfSteps, respond-holds}

-- What the act before allows: nothing, any payload after a test that found the run not cancelled, or
-- the error after the status of an error.
pub data Gate : Type 0 where
  shut ready failing : Gate

abbrev pub is_error_status : {F64 : Type 0} → VoicePayload F64 → Bool
is_error_status (agent_status _ error _ _ _ _) = true
is_error_status _ = false

abbrev pub is_error_payload : {F64 : Type 0} → VoicePayload F64 → Bool
is_error_payload (error_payload _ _ _) = true
is_error_payload _ = false

abbrev pub allows : {F64 : Type 0} → Gate → VoicePayload F64 → Bool
allows shut p = false
allows ready p = true
allows failing p = is_error_payload p

module _ (ct : CancelTokens) (fl : DoubleOps) where
  abbrev pub may : Gate → Act ct fl → Bool
  may q (sends p taken) = allows q p
  may q _ = true

  abbrev pub after : Act ct fl → Gate
  after (reads_cancelled false) = ready
  after (sends p taken) = if is_error_status p then failing else shut
  after _ = shut

  abbrev pub well_sent : Gate → List (Act ct fl) → Bool
  well_sent q [] = true
  well_sent q (a ∷ acts) = may q a && well_sent (after a) acts

  well_sent-append :
      (q : Gate) (xs ys : List (Act ct fl))
      → well_sent q xs ≡ true
      → ((r : Gate) → well_sent r ys ≡ true)
      → well_sent q (xs ++ ys) ≡ true
  well_sent-append q [] ys h k = k q
  well_sent-append q (a ∷ xs) ys h k =
      let (here, there) = &&_split {a = may q a} {b = well_sent (after a) xs} h in
      rw here (well_sent-append (after a) xs ys there k)

  tells_well : (l : List Observation) (q : Gate) → well_sent q (map tells l) ≡ true
  tells_well [] q = refl
  tells_well (x ∷ l) q = tells_well l shut

  module _ (o : Outside ct fl) (args : PipelineArgs ct) where
    registers_well :
        (prev : Option ct.Token) (q : Gate)
        → well_sent q (replaces prev ∷ cancel_prev ct fl o args prev) ≡ true
    registers_well none q = refl
    registers_well (some t) q = refl

    well_sent-holds : HoldsOfSteps ct fl o args (λ acts. (q : Gate) → well_sent q acts ≡ true)
    well_sent-holds = record {
      nil = λ q. refl;
      append = λ xs ys h k q. well_sent-append q xs ys (h q) k;
      looks = λ b q. refl;
      selects = λ b q. refl;
      observes = λ x e q. refl;
      registers = registers_well;
      sends_one = λ p taken q. refl;
      sends_error = λ code taken taken' q. refl;
    }

    released_well : (s : RunState ct fl) (q : Gate) → well_sent q (released ct fl o args s) ≡ true
    released_well s q = elim (Bool-cases s.registered) [ inl e ↦ rw e refl | inr e ↦ rw e refl ]

    -- Whatever the clients answer and whenever the run is cancelled: directly before each payload of a
    -- run stands a test that found it not cancelled, or, before the payload of an error, the status of
    -- an error, which has such a test before it.
    pub run_pipeline-well_sent : well_sent shut (run_pipeline ct fl o args) ≡ true
    unfolding run_pipeline start
    run_pipeline-well_sent =
        let s = (respond ct fl o args (begin ct fl o args)).1 in
        well_sent-append shut (respond ct fl o args (begin ct fl o args)).0 _
          (respond-holds ct fl o args well_sent-holds (begin ct fl o args) shut)
          (λ q.
            well_sent-append q (released ct fl o args s) _ (released_well s q)
              (λ r. tells_well (drop_guard s.metric_guard (o.now (s.readings + 1))) r))
