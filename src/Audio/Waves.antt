-- ===== src/Audio/Waves.antt =====
-- Audio that is written to a wav and read back.
use native.Mathlib.Nat.{mod-eq_of_lt}
use vvaves.Common.{
  map-append, ℕ, zero, suc, ◌+◌, ◌-◌, ◌%◌, ◌^◌, ◌<◌, ◌≡◌, refl, ap, ap₂, sym, ◌∙◌, List, [], ◌∷◌,
  ◌++◌, map, length, All, ltb, if◌then◌else◌, arith, append-nil, append_assoc,
}
use vvaves.Common.Bytes.{le_bytes, from_le, from_le-le_bytes}
use vvaves.Common.Results.{Result, ok, ◌>>=◌}
use vvaves.Common.Floats.{Floats}
use vvaves.Audio.{
  FromVec, got, ints, Reader, at, tensor_of, read_samples, read_all, max_val, read_wav_internal,
  clamped, quantized, frame_bytes, frames_bytes, pcm_i16_le_bytes, chunks_exact, written,
}
use vvaves.Audio.Frames.{frame, interleaved}
use vvaves.Audio.Tensor.{IsFromVec, tensor_of-interleaved}

from_le-chunk : (v : ℕ) → v < 2 ^ 16 → from_le (le_bytes 2 v) ≡ v
from_le-chunk v h = from_le-le_bytes 2 v (omega (arith, h))

read_samples-got :
    {A F : Type 0}
    → (of : A → F) (h : ℕ → A) (vs : List ℕ) (samples : List F)
    → read_samples of (map (λ v. got (h v)) vs) samples ≡ ok (samples ++ map (λ v. of (h v)) vs)
unfolding read_samples
read_samples-got of h [] samples = ap ok (sym (append-nil samples))
read_samples-got of h (v ∷ vs) samples =
    read_samples-got of h vs (samples ++ (of (h v) ∷ []))
    ∙ ap ok (append_assoc samples (of (h v) ∷ []) (map (λ v. of (h v)) vs))

map-frame :
    {F G H : Type 0}
    → (z : F) (y : G) (y' : H) (of : F → G) (g : G → H) (rows : List (List F)) (i : ℕ)
    → map g (frame z y of rows i) ≡ frame z y' (λ x. g (of x)) rows i
map-frame z y y' of g [] i = refl
map-frame z y y' of g (row ∷ rows) i = ap₂ ◌∷◌ refl (map-frame z y y' of g rows i)

map-interleaved :
    {F G H : Type 0}
    → (z : F) (y : G) (y' : H) (of : F → G) (g : G → H) (rows : List (List F)) (left i : ℕ)
    → map g (interleaved z y of rows left i) ≡ interleaved z y' (λ x. g (of x)) rows left i
map-interleaved z y y' of g rows zero i = refl
map-interleaved z y y' of g rows (suc left) i =
    map-append g (frame z y of rows i) (interleaved z y of rows left (suc i))
    ∙ ap₂ ◌++◌ (map-frame z y y' of g rows i) (map-interleaved z y y' of g rows left (suc i))

-- How the reader gives a sample of 16 bits as an `i32`: with its sign.
abbrev pub widened : ℕ → ℕ
widened v = if ltb v (2 ^ 15) then v else v + (2 ^ 32 - 2 ^ 16)

module _ (f : Floats) (of_i32 : ℕ → f.F) where
  open f use {F, div, lit}

  abbrev silence : F
  silence = lit 0 0

  -- What becomes of a sample.
  pub reread : F → F
  reread x = div (of_i32 (widened (quantized f of_i32 x))) (max_val f of_i32 16)

  abbrev pub wave_of : List (List F) → ℕ → Reader F
  wave_of rows rate = record {
    channels = length rows % 2 ^ 16;
    sample_rate = rate;
    samples = ints 16 (map (λ v. got (widened v)) (written f of_i32 rows));
  }

  module _ (bits : (x : F) → f.to_i16 x < 2 ^ 16) where
    quantized-bits : (x : F) → quantized f of_i32 x < 2 ^ 16
    unfolding quantized
    quantized-bits x = bits (f.mul (clamped f of_i32 x) (lit 32767 0))

    chunks-frame :
        (rows : List (List F)) (i : ℕ) (bytes : List ℕ)
        → chunks_exact f of_i32 (frame_bytes f of_i32 rows i ++ bytes)
          ≡ frame silence 0 (quantized f of_i32) rows i ++ chunks_exact f of_i32 bytes
    unfolding frame_bytes chunks_exact le_bytes
    chunks-frame [] i bytes = refl
    chunks-frame (row ∷ rows) i bytes =
        ap₂ ◌∷◌
          (from_le-chunk (quantized f of_i32 (at silence row i))
            (quantized-bits (at silence row i)))
          (chunks-frame rows i bytes)

    chunks-frames :
        (rows : List (List F)) (left i : ℕ)
        → chunks_exact f of_i32 (frames_bytes f of_i32 rows left i)
          ≡ interleaved silence 0 (quantized f of_i32) rows left i
    unfolding frames_bytes chunks_exact
    chunks-frames rows zero i = refl
    chunks-frames rows (suc left) i =
        chunks-frame rows i (frames_bytes f of_i32 rows left (suc i))
        ∙ ap (λ l. frame silence 0 (quantized f of_i32) rows i ++ l)
            (chunks-frames rows left (suc i))

    written-interleaved :
        (rows : List (List F)) (n : ℕ)
        → All (λ row. length row ≡ n) rows
        → 0 < length rows
        → written f of_i32 rows ≡ interleaved silence 0 (quantized f of_i32) rows n 0
    unfolding written pcm_i16_le_bytes
    written-interleaved [] n h some_row = absurd (omega (arith, some_row))
    written-interleaved (row ∷ rows) n (same, h) some_row =
        ap (λ k. chunks_exact f of_i32 (frames_bytes f of_i32 (row ∷ rows) k 0)) same
        ∙ chunks-frames (row ∷ rows) n 0

    -- Audio of 1 to 65535 channels, written to a wav and read back, where hound keeps the samples
    -- and gives them as numbers with their sign, candle makes a tensor row by row of as many
    -- elements as it has, and a conversion to `i16` gives 16 bits: the channels come back in order,
    -- each with its samples in order, each sample clamped, made a number of 16 bits and divided by
    -- 2^15, and the sample rate comes back.
    pub read-written :
        (from_vec : FromVec F)
        → IsFromVec from_vec
        → (rows : List (List F)) (n rate : ℕ) → All (λ row. length row ≡ n) rows
        → 0 < length rows
        → length rows < 2 ^ 16
        → read_wav_internal f of_i32 from_vec (wave_of rows rate) ≡ ok (map (map reread) rows, rate)
    unfolding read_wav_internal read_all reread
    read-written from_vec law rows n rate h some_row few =
        let of : ℕ → F = λ v. div (of_i32 v) (max_val f of_i32 16) in
        let samples : map (λ v. of (widened v)) (written f of_i32 rows)
            ≡ interleaved silence silence reread rows n 0 =
          ap (map (λ v. of (widened v))) (written-interleaved rows n h some_row)
          ∙ map-interleaved silence 0 silence (quantized f of_i32) (λ v. of (widened v)) rows n 0 in
        let step : ℕ → Result (List F) → Result (List (List F) × ℕ) =
          λ k r. r >>= (λ s. tensor_of silence from_vec s k) >>= (λ t. ok (t, rate)) in
        ap₂ step (mod-eq_of_lt few)
          (read_samples-got of widened (written f of_i32 rows) [] ∙ ap ok samples)
        ∙ ap (λ r. r >>= (λ t. ok (t, rate)))
            (tensor_of-interleaved silence silence reread from_vec law rows n h some_row)
