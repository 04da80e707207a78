-- ===== src/Audio.antt =====
-- apps/tts/crates/engine/src/audio.rs: wav files through the package hound, which reads and writes
-- the samples, and bytes of PCM. A tensor of audio is the list of its rows, one for each channel.
-- An `i32` is its bit pattern. Resampling is a
-- package's, and so is `Tensor::from_vec`, a parameter.
pub mod Frames
pub mod Tensor
pub mod Waves
pub mod Truncated
mod Examples
use vvaves.Common.{
  ℕ, zero, suc, ◌+◌, ◌-◌, ◌*◌, ◌/◌, ◌%◌, ◌^◌, Bool, true, false, List, [], ◌∷◌, ◌++◌, map, concat,
  length, take, drop, replicate, is_empty, ltb, ◌==◌, if◌then◌else◌,
}
use vvaves.Common.Bytes.{le_bytes, from_le}
use vvaves.Common.Results.{Result, ok, err, ◌>>=◌}
use vvaves.Common.Floats.{Floats}

-- What the reader's iterator yields: a sample, an end within the data (`UnexpectedEof` or "enough
-- bytes"), or another error.
pub data Item (A : Type 0) : Type 0 where
  got : A → Item A
  truncated broken : Item A

-- `sample_format` with what the iterator yields.
pub data Samples (F : Type 0) : Type 0 where
  ints : ℕ → List (Item ℕ) → Samples F
  floats : List (Item F) → Samples F

pub record Reader (F : Type 0) : Type 0 where
  pub channels : ℕ
  pub sample_rate : ℕ
  pub samples : Samples F

-- An index that is in range wherever it is taken.
abbrev pub at : {A : Type 0} → A → List A → ℕ → A
at z [] i = z
at z (x ∷ xs) zero = x
at z (x ∷ xs) (suc i) = at z xs i

-- The type of `Tensor::from_vec`, which is candle's, for a shape of two dimensions.
abbrev pub FromVec : Type 0 → Type 0
FromVec F = List F → ℕ → ℕ → Result (List (List F))

-- The loop over the samples.
pub read_samples : {A F : Type 0} → (A → F) → List (Item A) → List F → Result (List F)
read_samples of [] samples = ok samples
read_samples of (got v ∷ items) samples = read_samples of items (samples ++ (of v ∷ []))
read_samples of (truncated ∷ items) samples = if is_empty samples then err else ok samples
read_samples of (broken ∷ items) samples = err

module _ {F : Type 0} (zero_sample : F) where
  -- One channel, from a frame on.
  pub column : List F → ℕ → ℕ → ℕ → ℕ → List F
  column samples channels c zero i = []
  column samples channels c (suc left) i =
      at zero_sample samples (i * channels + c) ∷ column samples channels c left (suc i)

  -- The channels from one on.
  pub columns : List F → ℕ → ℕ → ℕ → ℕ → List (List F)
  unfolding column
  columns samples channels num_samples zero c = []
  columns samples channels num_samples (suc left) c =
      column samples channels c num_samples 0 ∷ columns samples channels num_samples left (suc c)

  -- The places of `reshaped` are written in their order; those behind stay 0.
  pub reshaped : List F → ℕ → List F
  unfolding columns
  reshaped samples channels =
      let num_samples = length samples / channels in
      concat (columns samples channels num_samples channels 0)
      ++ replicate (length samples - channels * num_samples) zero_sample

  pub tensor_of : FromVec F → List F → ℕ → Result (List (List F))
  unfolding reshaped
  tensor_of from_vec samples channels =
      if ltb 1 channels
      then from_vec (reshaped samples channels) channels (length samples / channels)
      else from_vec samples 1 (length samples)

module _ (f : Floats) (of_i32 : ℕ → f.F) where
  open f use {F, mul, div, less, gt, lit, neg_lit, to_i16}

  -- `(1 << (bits_per_sample - 1)) as f32`, shifted as an `i32`.
  pub max_val : ℕ → F
  max_val bits_per_sample = of_i32 (2 ^ (bits_per_sample - 1) % 2 ^ 32)

  pub read_all : Samples F → Result (List F)
  unfolding read_samples max_val
  read_all (ints bits_per_sample items) =
      read_samples (λ v. div (of_i32 v) (max_val bits_per_sample)) items []
  read_all (floats items) = read_samples (λ v. v) items []

  pub read_wav_internal : FromVec F → Reader F → Result (List (List F) × ℕ)
  unfolding read_all tensor_of
  read_wav_internal from_vec reader =
      read_all reader.samples
      >>= (λ samples. tensor_of (lit 0 0) from_vec samples reader.channels)
      >>= (λ tensor. ok (tensor, reader.sample_rate))

  -- `clamp(-1.0, 1.0)`
  clamped : F → F
  clamped x =
      let low = if less x (neg_lit 1 0) then neg_lit 1 0 else x in
      if gt low (lit 1 0) then lit 1 0 else low

  pub quantized : F → ℕ
  unfolding clamped
  quantized x = to_i16 (mul (clamped x) (lit 32767 0))

  -- The bytes of one frame, and of the frames from one on.
  pub frame_bytes : List (List F) → ℕ → List ℕ
  unfolding quantized
  frame_bytes [] i = []
  frame_bytes (channel ∷ channels) i =
      le_bytes 2 (quantized (at (lit 0 0) channel i)) ++ frame_bytes channels i

  pub frames_bytes : List (List F) → ℕ → ℕ → List ℕ
  unfolding frame_bytes
  frames_bytes channels zero i = []
  frames_bytes channels (suc left) i = frame_bytes channels i ++ frames_bytes channels left (suc i)

  pub pcm_i16_le_bytes : List (List F) → List ℕ
  unfolding frames_bytes
  pcm_i16_le_bytes [] = []
  pcm_i16_le_bytes (channel ∷ channels) = frames_bytes (channel ∷ channels) (length channel) 0

  -- What `write_wav_to_writer` gives to the writer, from the bytes two by two.
  pub chunks_exact : List ℕ → List ℕ
  chunks_exact [] = []
  chunks_exact (low ∷ []) = []
  chunks_exact (low ∷ high ∷ bytes) = from_le (low ∷ high ∷ []) ∷ chunks_exact bytes

  pub written : List (List F) → List ℕ
  unfolding pcm_i16_le_bytes chunks_exact
  written audio = chunks_exact (pcm_i16_le_bytes audio)
