-- ===== src/Speech/Examples.antt =====
-- The speech stream on two sentences.
use vvaves.Common.{arith, ℕ, ◌≡◌, refl, false, true, some, List, [], ◌∷◌, map, concat}
use vvaves.Common.Results.{ok}
use vvaves.Common.Pieces.{pieces, chunks_exact, position}
use vvaves.Encode.Lame.{configured, accepted, mp3_new, written, mp3_encode, mp3_finish}
use vvaves.Encode.Format.{mp3}
use vvaves.Encode.Trim
use vvaves.Encode.Trim.{LeadTrimmer, energy, is_loud, loud_start, scan}
use vvaves.Encode.Chunked
use vvaves.Encode.Chunked.{Chunked, encoded, bytes, flushed}
use vvaves.Encode.Samples.{hundredths, echo}
use vvaves.Encode.Format.{wav}
use vvaves.Encode.Format.Wav.{sample_rate_of, samples_of}
use vvaves.Encode.Trim.{trim_leading_silence}
use vvaves.Speech.Buffered.{answer, answer-wav}
use vvaves.Speech.Stream.{Piece, frame, segment_end, framed, stream}
use vvaves.Speech.Stream.Sent.{always, nonempty, readings, framed-stream}
use vvaves.Speech.Stream.Plain.{plain-stream}

abbrev fresh : Chunked ℕ ℕ
fresh = record {
  format = mp3;
  trimmer = record {
    hop = 1;
    keep = 25;
    threshold = 32767;
    held = [];
    scanned = 0;
    passing = false;
  };
  encoder = some 0;
}

made : Chunked.new hundredths echo mp3 100 ≡ ok (some fresh)
unfolding Chunked.new Trim.new mp3_new configured accepted
made = refl

abbrev first : List ℕ
first = 0 ∷ 900 ∷ []

abbrev pieces_after : List Piece
pieces_after = frame (7 ∷ []) ∷ segment_end ∷ frame (800 ∷ []) ∷ segment_end ∷ []

abbrev sentences : List (List ℕ)
sentences = (0 ∷ 132 ∷ 7 ∷ 255 ∷ []) ∷ (32 ∷ 255 ∷ []) ∷ []

read : readings hundredths echo fresh (frame first ∷ pieces_after) [] ≡ ok sentences
unfolding readings Chunked.push Chunked.finish encoded bytes flushed Trim.push Trim.finish scan
    loud_start is_loud energy chunks_exact pieces position mp3_encode written mp3_finish
read = refl

framed-stream_example :
    stream hundredths echo always mp3 100 true fresh first pieces_after
    ≡ map framed (nonempty sentences)
framed-stream_example =
    framed-stream hundredths echo fresh mp3 100 made first pieces_after sentences read

plain-stream_example :
    concat (stream hundredths echo always mp3 100 false fresh first pieces_after) ≡ concat sentences
plain-stream_example =
    plain-stream hundredths echo fresh mp3 100 made first pieces_after sentences read

-- Two sentences, the first behind a mark that ends none.
abbrev wav_pieces : List Piece
wav_pieces = segment_end ∷ frame first ∷ pieces_after

answer-wav_example :
    (body : List ℕ) × (answer hundredths echo always wav 100 true wav_pieces ≡ ok (body ∷ []))
    × (sample_rate_of body ≡ 100)
    × (samples_of body ≡ trim_leading_silence hundredths (0 ∷ 900 ∷ 7 ∷ 800 ∷ []) 100)
answer-wav_example =
    answer-wav hundredths echo always 100 true wav_pieces refl
      (omega arith, (omega arith, (omega arith, (omega arith, tt)))) (omega arith) (omega arith)
