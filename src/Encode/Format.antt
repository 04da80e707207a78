-- ===== src/Encode/Format.antt =====
-- `Format`, `to_i16`, `db_to_gain`, `wav` and `encode` of encode.rs.
pub mod Wav
use text.Mathlib.Text.{◌==◌ as str_eq}
use Prim.Native.String.{String}
use vvaves.Common.{
  ℕ, ◌+◌, ◌*◌, ◌%◌, ◌^◌, Option, none, some, List, [], ◌∷◌, ◌++◌, map, length, concat, ◌||◌,
  if◌then◌else◌,
}
use vvaves.Common.Bytes.{le_bytes}
use vvaves.Common.Results.{Result, ok}
use vvaves.Common.Floats.{Floats}
use vvaves.Encode.Lame.{Lame, encode_mono}

pub data Format : Type 0 where
  mp3 wav pcm : Format

-- `Format::parse`
pub parse : String → Option Format
parse name =
    if str_eq name "mp3" || str_eq name ""
    then some mp3
    else if str_eq name "wav"
    then some wav
    else if str_eq name "pcm"
    then some pcm
    else none

pub mime : Format → String
mime mp3 = "audio/mpeg"
mime wav = "audio/wav"
mime pcm = "audio/pcm"

module _ (f : Floats) where
  open f use {F, add, sub, mul, div, abs, tanh, powf, copysign, gt, lit, to_i16}

  -- KNEE
  abbrev knee : F
  knee = lit 7 1

  limited : F → F
  limited mag =
      if gt mag knee
      then add knee (mul (sub (lit 1 0) knee) (tanh (div (sub mag knee) (sub (lit 1 0) knee))))
      else mag

  -- `to_i16`, the samples of a frame lifted by the gain under a soft limit.
  unfoldable pub to_samples : List F → F → List ℕ
  unfolding limited
  to_samples samples gain =
      map (λ s. let x = mul s gain in to_i16 (mul (copysign (limited (abs x)) x) (lit 32767 0)))
        samples

  pub db_to_gain : F → F
  db_to_gain db = powf (lit 10 0) (div db (lit 20 0))

-- The samples as little-endian bytes.
unfoldable pub sample_bytes : List ℕ → List ℕ
sample_bytes samples = concat (map (le_bytes 2) samples)

-- `as u32`, and `u32` arithmetic as a release build makes it.
abbrev pub u32 : ℕ → ℕ
u32 n = n % 2 ^ 32

riff_tag : List ℕ
riff_tag = b'R' ∷ b'I' ∷ b'F' ∷ b'F' ∷ []

wave_fmt_tag : List ℕ
wave_fmt_tag = b'W' ∷ b'A' ∷ b'V' ∷ b'E' ∷ b'f' ∷ b'm' ∷ b't' ∷ 32 ∷ []

data_tag : List ℕ
data_tag = b'd' ∷ b'a' ∷ b't' ∷ b'a' ∷ []

-- `wav`
unfoldable pub wav_file : List ℕ → ℕ → List ℕ
unfolding riff_tag wave_fmt_tag data_tag sample_bytes
wav_file samples sample_rate =
    let data_len = u32 (length samples * 2) in
    riff_tag
    ++ (le_bytes 4 (u32 (36 + data_len))
        ++ (wave_fmt_tag
            ++ (le_bytes 4 16
                ++ (le_bytes 2 1
                    ++ (le_bytes 2 1
                        ++ (le_bytes 4 sample_rate
                            ++ (le_bytes 4 (u32 (sample_rate * 2))
                                ++ (le_bytes 2 2
                                    ++ (le_bytes 2 16
                                        ++ (data_tag
                                            ++ (le_bytes 4 data_len
                                                ++ sample_bytes samples)))))))))))

module _ (l : Lame) where
  -- `mp3`
  unfoldable pub mp3_file : List ℕ → ℕ → Result (List ℕ)
  mp3_file samples sample_rate = encode_mono l samples sample_rate 64 5

  unfoldable pub encode : Format → List ℕ → ℕ → Result (List ℕ)
  unfolding mp3_file sample_bytes
  encode pcm samples sample_rate = ok (sample_bytes samples)
  encode wav samples sample_rate = ok (wav_file samples sample_rate)
  encode mp3 samples sample_rate = mp3_file samples sample_rate
