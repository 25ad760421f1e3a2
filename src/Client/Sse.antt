-- ===== src/Client/Sse.antt =====
-- crates/voice_server/src/client/llm.rs: the events of an answer of the language model, from the bytes
-- that arrive. The decoding of JSON is a parameter, and the log of the token usage and of the reasoning
-- is left out.
pub mod Chunks
use voice_ai.Base.{
  ℕ, Bool, true, false, not, ◌&&◌, ◌||◌, Option, none, some, List, [], ◌∷◌, ◌++◌, is_empty,
  if◌then◌else◌, Str, str_eq, ◌is◌, codes, starts_with, drop, ◌==◌,
}
use voice_ai.Client.{ClientError, decode, show_error, Result, ok, err, LlmEvent}
use voice_ai.Client.Think as Think
use voice_ai.Client.Think.{ThinkTagFilter}

-- What is read of the first choice of a chunk.
pub record ChatChoice : Type 0 where
  pub content : Option Str
  pub refusal : Option Str
  pub finish_reason : Option Str

pub record ParsedChatOutput : Type 0 where
  pub delta : Str
  pub is_final : Bool

-- `serde_json::from_slice` of a chunk: an error, or its first choice and if it has a token usage.
pub record ChunkJson : Type 1 where
  pub from_slice : List ℕ → Result (Option ChatChoice × Bool)

unfoldable pub response_text : Option Str → Option Str → Str
response_text (some content) (some refusal) =
    if is_empty content
    then refusal
    else (if is_empty refusal then content else content ++ (codes "\n" ++ refusal))
response_text (some content) none = content
response_text none (some refusal) = refusal
response_text none none = []

abbrev pub is_given : Option Str → Bool
is_given none = false
is_given (some s) = true

module _ (json : ChunkJson) where
  abbrev pub parsed_choice : Option ChatChoice × Bool → Option ParsedChatOutput
  parsed_choice (some choice, usage) = some (record {
    delta = response_text choice.content choice.refusal;
    is_final = is_given choice.finish_reason;
  })
  parsed_choice (none, true) = some (record { delta = []; is_final = false })
  parsed_choice (none, false) = none

  abbrev pub parsed_chunk : Result (Option ChatChoice × Bool) → Result (Option ParsedChatOutput)
  parsed_chunk (ok chunk) = ok (parsed_choice chunk)
  parsed_chunk (err e) = err e

  unfoldable pub parse_stream_payload : List ℕ → Result (Option ParsedChatOutput)
  parse_stream_payload payload =
      if is_empty payload || payload is codes "[DONE]"
      then ok none
      else parsed_chunk (json.from_slice payload)

  unfoldable pub parse_sse_data_line : List ℕ → Result (Option ParsedChatOutput)
  parse_sse_data_line line =
      let rest = drop 5 line in
      let payload = if starts_with (codes " ") rest then drop 1 rest else rest in
      if starts_with (codes "data:") line then parse_stream_payload payload else ok none

  -- What one line gives, and if the stream goes on.
  pub record Read : Type 0 where
    pub items : List (Result LlmEvent)
    pub filter : ThinkTagFilter
    pub goes_on : Bool

  unfoldable pub on_output : ThinkTagFilter → ParsedChatOutput → Read
  on_output f parsed =
      let (out, g) = Think.push f parsed.delta in
      let (tail, g') = Think.finish g in
      let delta = if parsed.is_final then out ++ tail else out in
      record {
        items =
            if not (is_empty delta) || parsed.is_final
            then ok (record { delta = delta; is_final = parsed.is_final }) ∷ []
            else [];
        filter = if parsed.is_final then g' else g;
        goes_on = true;
      }

  abbrev pub on_parsed : ThinkTagFilter → Result (Option ParsedChatOutput) → Read
  on_parsed f (ok none) = record { items = []; filter = f; goes_on = true }
  on_parsed f (ok (some parsed)) = on_output f parsed
  on_parsed f (err e) = record {
    items = err (decode (show_error e)) ∷ [];
    filter = f;
    goes_on = false;
  }

  unfoldable pub on_line : ThinkTagFilter → List ℕ → Read
  on_line f line =
      if starts_with (codes "data:") line
      then on_parsed f (parse_sse_data_line line)
      else record { items = []; filter = f; goes_on = true }

  -- The items of some lines, and the filter after them, or none when the stream has ended.
  unfoldable pub on_lines :
      ThinkTagFilter → List (List ℕ) → List (Result LlmEvent) × Option ThinkTagFilter
  on_lines f [] = ([], some f)
  on_lines f (line ∷ lines) =
      let r = on_line f line in
      let (more, g) = on_lines r.filter lines in
      if r.goes_on then (r.items ++ more, g) else (r.items, none)

-- `if line.last() == Some(&b'\\r') { line.pop(); }`
unfoldable pub strip_cr : List ℕ → List ℕ
strip_cr [] = []
strip_cr (c ∷ []) = if c == 13 then [] else c ∷ []
strip_cr (c ∷ d ∷ cs) = c ∷ strip_cr (d ∷ cs)

abbrev pub line_before : List ℕ → List (List ℕ) × List ℕ → List (List ℕ) × List ℕ
line_before line (lines, rest) = (strip_cr line ∷ lines, rest)

-- The lines that a buffer has, each up to its line feed, and what is behind the last one; `line` is what
-- was read of the first of them.
unfoldable pub break_lines : List ℕ → List ℕ → List (List ℕ) × List ℕ
break_lines line [] = ([], line)
break_lines line (c ∷ cs) = elim (c == 10) [
  | true ↦ line_before line (break_lines [] cs)
  | false ↦ break_lines (line ++ c ∷ []) cs
]

module _ (json : ChunkJson) where
  -- The stream over the chunks of bytes as they arrive; `sse_buf` is what is left of those before.
  unfoldable pub read_chunks :
      ThinkTagFilter → (sse_buf : List ℕ) → List (Result (List ℕ)) → List (Result LlmEvent)
  read_chunks f sse_buf [] = []
  read_chunks f sse_buf (err e ∷ chunks) = err e ∷ []
  read_chunks f sse_buf (ok chunk ∷ chunks) =
      let (lines, rest) = break_lines [] (sse_buf ++ chunk) in
      let (items, after) = on_lines json f lines in
      elim after [ none ↦ items | some g ↦ items ++ read_chunks g rest chunks ]

  abbrev pub no_filter : ThinkTagFilter
  no_filter = record { pending = []; in_think = false }

  unfoldable pub sse_events : List (Result (List ℕ)) → List (Result LlmEvent)
  sse_events chunks = read_chunks no_filter [] chunks
