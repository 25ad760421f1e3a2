-- ===== src/Session/Run/Tests.antt =====
-- A run on concrete readings.
use voice_ai.Base.{ℕ, ◌≡◌, refl, Bool, true, false, none, some, List, [], ◌∷◌, codes, Str}
use voice_ai.Proto.{AgentPhase, transcribing, error, VoicePayload, agent_status, error_payload}
use voice_ai.Client.{ok, err, ws, AsrEvent, recognized}
use voice_ai.Metrics.Guard.{PipelineResult, pipeline_started, pipeline_finished}
use voice_ai.Pipeline.LlmTts as LlmTts
use voice_ai.Session.{PipelineArgs}
use voice_ai.Session.Tests.{test_tokens, whole_numbers}
use voice_ai.Session.Run.{Act, sends, Outside, run_pipeline, respond, send_agent_status, send_error}
use voice_ai.Session.Run.Guarded.{shut, well_sent, run_pipeline-well_sent}
use voice_ai.Session.Run.Counted.{counted, run_pipeline-counted}

abbrev first_call : PipelineArgs test_tokens
first_call = record {
  session_id = codes "s";
  request_id = 1;
  message_id = codes "m";
  audio = 1 ∷ 2 ∷ [];
  sample_rate = 16000;
  channels = 1;
  client_voice = none;
  cancel = (3, 0 ∷ []);
  input_started_at = 100;
  input_ended_at = 200;
}

abbrev said : Str → AsrEvent
said text = record { text = text; is_final = true }

-- Every hundredth reading is a new instant, and the run is not cancelled.
abbrev outside : Outside test_tokens whole_numbers
outside = record {
  is_cancelled = λ n. false;
  waits_cancelled = λ n. false;
  takes = λ n p. true;
  now = λ n. 1000;
  current = λ n. none;
  recognize = λ sid wav. recognized (ok (ok (said (codes "<|zh|>hi")) ∷ []));
  llm_tts_items = λ prompt hint.
      LlmTts.llm prompt false
      ∷ LlmTts.llm [] true
      ∷ LlmTts.tts 1 (codes "A") false
      ∷ LlmTts.tts 2 [] true
      ∷ [];
  output_format = (some 24000, 1);
  decode = λ s. some s;
  emojis = codes "😊😔😡😰🤢😮🎼👏😀😭🤧😷";
}

run_pipeline-well_sent_example :
    well_sent test_tokens whole_numbers shut
      (run_pipeline test_tokens whole_numbers outside first_call)
    ≡ true
run_pipeline-well_sent_example = run_pipeline-well_sent test_tokens whole_numbers outside first_call

run_pipeline-counted_example :
    (r : PipelineResult) × (counted test_tokens whole_numbers
        (run_pipeline test_tokens whole_numbers outside first_call)
      ≡ pipeline_started ∷ pipeline_finished r ∷ [])
run_pipeline-counted_example = run_pipeline-counted test_tokens whole_numbers outside first_call

-- The payloads of the run, in order.
abbrev payloads : List (Act test_tokens whole_numbers) → List (VoicePayload ℕ)
payloads [] = []
payloads (sends p taken ∷ acts) = p ∷ payloads acts
payloads (_ ∷ acts) = payloads acts

abbrev shows : AgentPhase → Str → Bool → VoicePayload ℕ
shows phase label finished = agent_status (codes "s") phase label none (codes "m") finished

-- The recognition cannot be reached.
unheard :
    payloads (
      run_pipeline test_tokens whole_numbers
        (record outside { recognize = λ sid wav. recognized (err (ws (codes "down"))) })
        first_call)
    ≡ shows transcribing (codes "正在理解") false
      ∷ shows error (codes "暂时遇到问题") true
      ∷ error_payload 1001 (codes "服务暂时不可用，请稍后再试。") (some (codes "m"))
      ∷ []
unfolding run_pipeline respond send_agent_status send_error
unheard = refl
