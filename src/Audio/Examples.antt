-- ===== src/Audio/Examples.antt =====
-- Wavs of two channels, in the arithmetic of hundredths.
use vvaves.Common.{
  ℕ, ◌==◌, if◌then◌else◌, length, ◌*◌, ◌/◌, ◌%◌, ◌^◌, ◌<◌, ◌≡◌, refl, false, List, [], ◌∷◌, ◌++◌,
  map, arith,
}
use vvaves.Common.Results.{ok, err}
use vvaves.Common.Floats.{Floats}
use vvaves.Encode.Samples.{hundredths}
use vvaves.Audio.Tensor.{rows_of}
use vvaves.Audio.{FromVec, got, truncated, ints, read_wav_internal}
use vvaves.Audio.Waves.{wave_of, reread, read-written}
use vvaves.Audio.Truncated.{is_ok, read-truncated}

-- Numbers of 16 bits.
abbrev of_i32 : ℕ → ℕ
of_i32 v = v * 100

abbrev short_numbers : Floats
short_numbers = record hundredths { to_i16 = λ x. x / 100 % 2 ^ 16 }

short_numbers-bits : (x : ℕ) → x / 100 % 2 ^ 16 < 2 ^ 16
short_numbers-bits x = omega arith

abbrev two_channels : List (List ℕ)
two_channels = (0 ∷ 50 ∷ 100 ∷ []) ∷ (25 ∷ 75 ∷ 200 ∷ []) ∷ []

-- `Tensor::from_vec` as it is documented.
abbrev counted : FromVec ℕ
counted xs channels n = if length xs == channels * n then ok (rows_of channels n xs) else err

read-written_example :
    read_wav_internal short_numbers of_i32 counted (wave_of short_numbers of_i32 two_channels 24000)
    ≡ ok (map (map (reread short_numbers of_i32)) two_channels, 24000)
read-written_example =
    read-written short_numbers of_i32 short_numbers-bits counted (λ xs channels n. refl)
      two_channels 3 24000 (refl, (refl, tt)) (omega arith) (omega arith)

-- Three samples of a stereo file are refused.
read-truncated_example :
    is_ok (
      read_wav_internal short_numbers of_i32 counted (record {
        channels = 2;
        sample_rate = 24000;
        samples = ints 16 (map got (1 ∷ 2 ∷ 3 ∷ []) ++ (truncated ∷ []));
      }))
    ≡ false
read-truncated_example =
    read-truncated short_numbers of_i32 counted (λ xs channels n. refl) 1 (2 ∷ 3 ∷ []) [] 2 24000 16
      (omega arith)
