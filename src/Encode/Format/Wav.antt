-- ===== src/Encode/Format/Wav.antt =====
-- Reading back what `wav` writes.
use vvaves.Common.{
  ℕ, ◌+◌, ◌*◌, ◌<◌, ◌≡◌, refl, ap, ap₂, ◌∙◌, List, [], ◌∷◌, length, take, drop, All, arith,
  take_all,
}
use vvaves.Common.Bytes.{le_bytes, from_le, from_le-le_bytes}
use vvaves.Encode.Format.{wav_file, sample_bytes, riff_tag, wave_fmt_tag, data_tag, u32}

-- A reader of 16-bit mono files whose data chunk is the second: the sample rate, and the samples in
-- as many bytes as the data chunk says.
pub pairs : List ℕ → List ℕ
pairs [] = []
pairs (a ∷ []) = []
pairs (a ∷ b ∷ rest) = (a + 256 * b) ∷ pairs rest

pub sample_rate_of : List ℕ → ℕ
sample_rate_of bytes = from_le (take 4 (drop 24 bytes))

pub samples_of : List ℕ → List ℕ
unfolding pairs
samples_of bytes = pairs (take (from_le (take 4 (drop 40 bytes))) (drop 44 bytes))

length-sample_bytes : (samples : List ℕ) → length (sample_bytes samples) ≡ length samples * 2
unfolding sample_bytes le_bytes
length-sample_bytes [] = refl
length-sample_bytes (s ∷ samples) = omega (arith, length-sample_bytes samples)

abbrev Words : List ℕ → Type 0
Words samples = All (λ s. s < 65536) samples

pairs-sample_bytes : (samples : List ℕ) → Words samples → pairs (sample_bytes samples) ≡ samples
unfolding pairs sample_bytes le_bytes
pairs-sample_bytes [] h = refl
pairs-sample_bytes (s ∷ samples) (small, h) =
    ap₂ (λ x xs. x ∷ xs) (omega arith) (pairs-sample_bytes samples h)

data_len-wav_file :
    (samples : List ℕ) (rate : ℕ)
    → take 4 (drop 40 (wav_file samples rate)) ≡ le_bytes 4 (u32 (length samples * 2))
unfolding wav_file le_bytes riff_tag wave_fmt_tag data_tag
data_len-wav_file samples rate = refl

data-wav_file :
    (samples : List ℕ) (rate : ℕ) → drop 44 (wav_file samples rate) ≡ sample_bytes samples
unfolding wav_file le_bytes riff_tag wave_fmt_tag data_tag
data-wav_file samples rate = refl

rate-wav_file :
    (samples : List ℕ) (rate : ℕ) → take 4 (drop 24 (wav_file samples rate)) ≡ le_bytes 4 rate
unfolding wav_file le_bytes riff_tag wave_fmt_tag data_tag
rate-wav_file samples rate = refl

-- A reader gets from a wav its sample rate and its samples back, if the rate is below 2^32, the
-- samples have 16 bits each and their bytes are fewer than 2^32.
pub read-wav_file :
    (samples : List ℕ) (rate : ℕ)
    → All (λ s. s < 65536) samples
    → length samples * 2 < 4294967296
    → rate < 4294967296
    → (sample_rate_of (wav_file samples rate) ≡ rate)
      × (samples_of (wav_file samples rate) ≡ samples)
unfolding sample_rate_of samples_of
read-wav_file samples rate words short fits =
    let n = length samples * 2 in
    let whole : from_le (take 4 (drop 40 (wav_file samples rate))) ≡ n =
      ap from_le (data_len-wav_file samples rate)
      ∙ from_le-le_bytes 4 (u32 n) (omega arith)
      ∙ omega arith in
    (
      ap from_le (rate-wav_file samples rate) ∙ from_le-le_bytes 4 rate (omega arith),
      ap₂ (λ k bytes. pairs (take k bytes)) whole (data-wav_file samples rate)
          ∙ ap pairs
              (take_all n (sample_bytes samples) (omega (arith, length-sample_bytes samples)))
          ∙ pairs-sample_bytes samples words,
    )
