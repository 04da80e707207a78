-- ===== src/Encode/Examples.antt =====
-- The encoders on a short reading: 30 silent samples in two frames, then a loud one.
use vvaves.Common.{false, ℕ, ◌≡◌, refl, some, List, [], ◌∷◌, ◌++◌, replicate, concat, arith}
use vvaves.Common.Results.{ok}
use vvaves.Common.Pieces.{pieces, chunks_exact, position}
use vvaves.Encode.Lame.{configured, accepted, mp3_new, written, mp3_encode, mp3_finish}
use vvaves.Encode.Format.Wav.{sample_rate_of, samples_of, read-wav_file}
use vvaves.Encode.Format.{wav_file, mp3, encode}
use vvaves.Encode.Trim
use vvaves.Encode.Trim.{LeadTrimmer, trim_leading_silence, energy, is_loud, loud_start, scan}
use vvaves.Encode.Trim.Framewise
use vvaves.Encode.Trim.Framewise.{framewise-trim}
use vvaves.Encode.Chunked
use vvaves.Encode.Chunked.{Chunked, encoded, bytes, flushed}
use vvaves.Encode.Chunked.Whole
use vvaves.Encode.Chunked.Whole.{chunked-encode}
use vvaves.Encode.Samples.{hundredths, echo, echo-IsIncremental}

abbrev frames : List (List ℕ)
frames = replicate 20 0 ∷ (replicate 10 0 ++ (1000 ∷ 5 ∷ [])) ∷ []

framewise-trim_example :
    let t = Trim.new hundredths 100 in
    (Framewise.feed hundredths t frames).0
      ++ Trim.finish hundredths (Framewise.feed hundredths t frames).1
    ≡ trim_leading_silence hundredths (concat frames) 100
framewise-trim_example = framewise-trim hundredths 100 frames (omega arith)

abbrev fresh : Chunked ℕ ℕ
fresh = record {
  format = mp3;
  trimmer = record {
    hop = 1;
    keep = 25;
    threshold = 32767;
    held = [];
    scanned = 0;
    passing = false;
  };
  encoder = some 0;
}

made : Chunked.new hundredths echo mp3 100 ≡ ok (some fresh)
unfolding Chunked.new Trim.new mp3_new configured accepted
made = refl

abbrev sent : List ℕ
sent = replicate 25 0 ++ (232 ∷ 5 ∷ 255 ∷ [])

streamed : Whole.stream hundredths echo fresh frames ≡ ok sent
unfolding Chunked.push Chunked.finish encoded bytes flushed Trim.push Trim.finish scan loud_start
    is_loud energy chunks_exact pieces position mp3_encode written mp3_finish
streamed = refl

chunked-encode_example :
    encode echo mp3 (trim_leading_silence hundredths (concat frames) 100) 100 ≡ ok sent
chunked-encode_example =
    chunked-encode hundredths echo echo-IsIncremental mp3 100 fresh frames sent (omega arith) made
      streamed

read-wav_file_example :
    (sample_rate_of (wav_file (1 ∷ 65535 ∷ []) 24000) ≡ 24000)
    × (samples_of (wav_file (1 ∷ 65535 ∷ []) 24000) ≡ 1 ∷ 65535 ∷ [])
read-wav_file_example =
    read-wav_file (1 ∷ 65535 ∷ []) 24000 (omega arith, (omega arith, tt)) (omega arith)
      (omega arith)
