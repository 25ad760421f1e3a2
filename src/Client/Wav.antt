-- ===== src/Client/Wav.antt =====
-- crates/voice_server/src/client/asr.rs: the header in front of the samples that are recognized. The
-- arithmetic wraps as in a release build.
use voice_ai.Base.{ℕ, zero, suc, ◌+◌, ◌*◌, ◌/◌, ◌%◌, ◌^◌, List, [], ◌∷◌, ◌++◌, length, codes}

-- `to_le_bytes`, of so many bytes.
abbrev pub to_le_bytes : ℕ → ℕ → List ℕ
to_le_bytes zero n = []
to_le_bytes (suc k) n = (n % 256) ∷ to_le_bytes k (n / 256)

unfoldable pub wav_header : (data_len sample_rate channels : ℕ) → List ℕ
wav_header data_len sample_rate channels =
    codes "RIFF"
    ++ (to_le_bytes 4 ((36 + data_len) % 2 ^ 32)
        ++ (codes "WAVE"
            ++ (codes "fmt "
                ++ (to_le_bytes 4 16
                    ++ (to_le_bytes 2 1
                        ++ (to_le_bytes 2 channels
                            ++ (to_le_bytes 4 sample_rate
                                ++ (to_le_bytes 4 ((sample_rate * channels * 2) % 2 ^ 32)
                                    ++ (to_le_bytes 2 ((channels * 2) % 2 ^ 16)
                                        ++ (to_le_bytes 2 16
                                            ++ (codes "data" ++ to_le_bytes 4 data_len)))))))))))

unfoldable pub wrap_pcm_as_wav : List ℕ → (sample_rate channels : ℕ) → List ℕ
unfolding wav_header
wrap_pcm_as_wav pcm sample_rate channels =
    wav_header (length pcm % 2 ^ 32) sample_rate channels ++ pcm
