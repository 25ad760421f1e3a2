-- ===== src/Session/Audio.antt =====
-- crates/voice_server/src/session/audio.rs: the audio of one utterance until it is triggered.
-- Instants are nanoseconds of the monotonic clock.
use voice_ai.Base.{
  ℕ, ◌+◌, ◌-◌, ◌/◌, ◌≡◌, sym, ap, ◌∙◌, List, [], ◌∷◌, ◌++◌, append-nil, append_assoc, length,
  concat, length-append, ◌==◌, if◌then◌else◌, arith,
}

abbrev pub max_utterance_ms : ℕ
max_utterance_ms = 30_000

abbrev pub max_audio_bytes : ℕ
max_audio_bytes = 2_097_152

abbrev pub min_utterance_bytes : ℕ
min_utterance_bytes = 6_400

pub record AudioAccumulator : Type 0 where
  pub chunks : List (List ℕ)
  pub total_bytes : ℕ
  pub started_at : ℕ

unfoldable pub new : ℕ → AudioAccumulator
new now = record { chunks = []; total_bytes = 0; started_at = now }

unfoldable pub push : AudioAccumulator → List ℕ → ℕ → AudioAccumulator
push a chunk now = record {
  chunks = a.chunks ++ chunk ∷ [];
  total_bytes = a.total_bytes + length chunk;
  started_at = if a.total_bytes == 0 then now else a.started_at;
}

unfoldable pub len : AudioAccumulator → ℕ
len a = a.total_bytes

unfoldable pub elapsed_ms : AudioAccumulator → ℕ → ℕ
elapsed_ms a now = (now - a.started_at) / 1_000_000

unfoldable pub drain : AudioAccumulator → AudioAccumulator × List ℕ
drain a = (record a { chunks = []; total_bytes = 0 }, concat a.chunks)

-- The counter is the number of bytes held.
abbrev pub IsCounted : AudioAccumulator → Type 0
IsCounted a = a.total_bytes ≡ length (concat a.chunks)

pub concat-snoc : (xss : List (List ℕ)) (xs : List ℕ) → concat (xss ++ xs ∷ []) ≡ concat xss ++ xs
concat-snoc [] xs = append-nil xs
concat-snoc (ys ∷ xss) xs =
    ap (◌++◌ ys) (concat-snoc xss xs) ∙ sym (append_assoc ys (concat xss) xs)

pub push-IsCounted :
    (a : AudioAccumulator) (chunk : List ℕ) (now : ℕ) → IsCounted a → IsCounted (push a chunk now)
unfolding push
push-IsCounted a chunk now h =
    omega (arith, ap length (concat-snoc a.chunks chunk), length-append (concat a.chunks) chunk)
