-- ===== src/Encode/Chunked.antt =====
-- `Chunked` of encode.rs: a reading encoded frame by frame.
pub mod Whole
use vvaves.Common.{ℕ, Option, none, some, List, [], ◌++◌, is_empty, if◌then◌else◌}
use vvaves.Common.Results.{Result, ok, ◌>>=◌}
use vvaves.Common.Floats.{Floats}
use vvaves.Encode.Lame.{Lame, mp3_new, mp3_encode, mp3_finish}
use vvaves.Encode.Format.{Format, mp3, wav, pcm, sample_bytes}
use vvaves.Encode.Trim
use vvaves.Encode.Trim.{LeadTrimmer}

pub record Chunked (F Handle : Type 0) : Type 0 where
  pub format : Format
  pub trimmer : LeadTrimmer F
  pub encoder : Option Handle

module _ (f : Floats) (l : Lame) where
  open f use {F}
  open l use {Handle}

  -- `Chunked::new`: none for wav.
  unfoldable pub new : Format → ℕ → Result (Option (Chunked F Handle))
  new wav sample_rate = ok none
  new pcm sample_rate =
      ok (some (record { format = pcm; trimmer = Trim.new f sample_rate; encoder = none }))
  new mp3 sample_rate = do
    enc ← mp3_new l sample_rate 64 5
    ok (some (record { format = mp3; trimmer = Trim.new f sample_rate; encoder = some enc }))

  unfoldable pub encoded : Format → Option Handle → List ℕ → Result (List ℕ × Option Handle)
  encoded mp3 (some enc) samples = do (out, enc') ← mp3_encode l enc samples; ok (out, some enc')
  encoded format encoder samples = ok (sample_bytes samples, encoder)

  -- The encoder after an error is not returned: every caller gives it up.
  unfoldable pub bytes : Chunked F Handle → List ℕ → Result (List ℕ × Chunked F Handle)
  unfolding encoded
  bytes c samples = if is_empty samples then ok ([], c) else do
    (out, encoder') ← encoded c.format c.encoder samples
    ok (out, record c { encoder = encoder' })

  unfoldable pub push : Chunked F Handle → List ℕ → Result (List ℕ × Chunked F Handle)
  push c frame =
      let (samples, trimmer') = Trim.push f c.trimmer frame in
      bytes (record c { trimmer = trimmer' }) samples

  unfoldable pub flushed : Option Handle → List ℕ → Result (List ℕ)
  flushed none out = ok out
  flushed (some enc) out = do tail ← mp3_finish l enc; ok (out ++ tail)

  -- The trimmer left in place of the one that is finished is never pushed to.
  unfoldable pub finish : Chunked F Handle → Result (List ℕ)
  unfolding flushed
  finish c = do (out, c') ← bytes c (Trim.finish f c.trimmer); flushed c'.encoder out
