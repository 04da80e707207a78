-- ===== src/Encode/Lame.antt =====
-- lame.rs: the mono mp3 encoder over libmp3lame, whose calls are a parameter.
pub mod Slices
use vvaves.Common.{ℕ, ◌+◌, ◌*◌, ◌/◌, Bool, true, false, Option, none, some, List, length, ◌++◌}
use vvaves.Common.Results.{Result, ok, err, ◌>>=◌}

-- The C functions. A call that changes the handle returns it. A setter's second result says
-- whether its return code was 0; `init_params`'s, whether it was not negative. Encoding returns
-- the bytes written to a buffer of the given size, or `none` for a negative code.
pub record Lame : Type 1 where
  pub Handle : Type 0
  pub init : Option Handle
  pub set_in_samplerate : Handle → ℕ → Handle × Bool
  pub set_num_channels : Handle → ℕ → Handle × Bool
  pub set_mode : Handle → ℕ → Handle × Bool
  pub set_brate : Handle → ℕ → Handle × Bool
  pub set_quality : Handle → ℕ → Handle × Bool
  pub init_params : Handle → Handle × Bool
  pub encode_buffer : Handle → List ℕ → ℕ → Handle × Option (List ℕ)
  pub encode_flush : Handle → ℕ → Option (List ℕ)

abbrev pub mode_mono : ℕ
mode_mono = 3

abbrev pub flush_cap : ℕ
flush_cap = 7200

-- `&&` of two calls: the second is made only if the first went well.
abbrev and_then : {H : Type 0} → H × Bool → (H → H × Bool) → H × Bool
and_then (h, true) next = next h
and_then (h, false) next = (h, false)

module _ (l : Lame) where
  open l use {
    Handle, init, set_in_samplerate, set_num_channels, set_mode, set_brate, set_quality,
    init_params, encode_buffer, encode_flush,
  }

  unfoldable pub configured : Handle → ℕ → ℕ → ℕ → Handle × Bool
  configured h sample_rate kbps quality = and_then (set_in_samplerate h sample_rate) λ h1.
      and_then (set_num_channels h1 1) λ h2. and_then (set_mode h2 mode_mono) λ h3.
        and_then (set_brate h3 kbps) λ h4. and_then (set_quality h4 quality) λ h5. init_params h5

  unfoldable pub accepted : Handle × Bool → Result Handle
  accepted (h, true) = ok h
  accepted (h, false) = err

  -- `Mp3Encoder::new`
  unfoldable pub mp3_new : ℕ → ℕ → ℕ → Result Handle
  unfolding configured accepted
  mp3_new sample_rate kbps quality = elim init [
    | none ↦ err
    | some h ↦ accepted (configured h sample_rate kbps quality)
  ]

  unfoldable pub written : Handle × Option (List ℕ) → Result (List ℕ × Handle)
  written (h, none) = err
  written (h, some out) = ok (out, h)

  -- `Mp3Encoder::encode`. After an error no caller uses the encoder again.
  unfoldable pub mp3_encode : Handle → List ℕ → Result (List ℕ × Handle)
  unfolding written
  mp3_encode h pcm = written (encode_buffer h pcm (length pcm * 5 / 4 + flush_cap))

  -- `Mp3Encoder::finish`
  unfoldable pub mp3_finish : Handle → Result (List ℕ)
  mp3_finish h = elim (encode_flush h flush_cap) [ none ↦ err | some out ↦ ok out ]

  unfoldable pub encode_mono : List ℕ → ℕ → ℕ → ℕ → Result (List ℕ)
  encode_mono pcm sample_rate kbps quality = do
    enc ← mp3_new sample_rate kbps quality
    (out, enc') ← mp3_encode enc pcm
    tail ← mp3_finish enc'
    ok (out ++ tail)
