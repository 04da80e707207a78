-- ===== src/Speech/Buffered.antt =====
-- The end of the handler in main.rs: the wait for the first frame, and the reading as a stream or,
-- where the format cannot be sent before its end, by `buffered` as one body.
use vvaves.Common.{
  ℕ, zero, suc, ◌*◌, ◌<◌, ◌≡◌, sym, ap, ◌∙◌, subst, Bool, true, false, Option, none, some, List, [],
  ◌∷◌, ◌++◌, length, drop, All, append-nil, append_assoc, length-drop, arith,
}
use vvaves.Common.Results.{Result, ok, err, ◌>>=◌}
use vvaves.Common.Floats.{Floats}
use vvaves.Encode.Lame.{Lame}
use vvaves.Encode.Format.{Format, wav, wav_file, encode}
use vvaves.Encode.Format.Wav.{sample_rate_of, samples_of, read-wav_file}
use vvaves.Encode.Trim.{trim_leading_silence}
use vvaves.Encode.Trim.Framewise.{trim-drop}
use vvaves.Encode.Chunked
use vvaves.Encode.Chunked.{Chunked}
use vvaves.Speech.Stream.{Piece, frame, segment_end, stream}

-- The samples of the pieces behind those of `pcm`.
pub collect : List ℕ → List Piece → List ℕ
collect pcm [] = pcm
collect pcm (frame samples ∷ rest) = collect (pcm ++ samples) rest
collect pcm (segment_end ∷ rest) = collect pcm rest

module _ (f : Floats) (l : Lame) where
  -- `buffered`, up to the response: an error is a status 500.
  pub buffered : List ℕ → List Piece → Format → ℕ → Result (List ℕ)
  unfolding collect
  buffered first rest format sample_rate =
      encode l format (trim_leading_silence f (collect first rest) sample_rate) sample_rate

  -- The branches on the encoder. A body is the list of what is sent for it.
  pub answered :
      (List (List ℕ) → Bool)
      → Format
      → ℕ
      → Bool
      → List ℕ
      → List Piece
      → Result (Option (Chunked f.F l.Handle))
      → Result (List (List ℕ))
  unfolding buffered
  answered hears format sample_rate framed first rest err = err
  answered hears format sample_rate framed first rest (ok (some chunked)) =
      ok (stream f l hears format sample_rate framed chunked first rest)
  answered hears format sample_rate framed first rest (ok none) = do
    body ← buffered first rest format sample_rate
    ok (body ∷ [])

  -- What the handler does with the pieces that the scheduler sends. A reading without a frame is an
  -- error.
  pub answer : (List (List ℕ) → Bool) → Format → ℕ → Bool → List Piece → Result (List (List ℕ))
  unfolding answered
  answer hears format sample_rate framed [] = err
  answer hears format sample_rate framed (segment_end ∷ rest) =
      answer hears format sample_rate framed rest
  answer hears format sample_rate framed (frame first ∷ rest) =
      answered hears format sample_rate framed first rest (Chunked.new f l format sample_rate)

-- All samples of a reading, and whether it has a frame.
abbrev pub samples_in : List Piece → List ℕ
samples_in [] = []
samples_in (frame samples ∷ rest) = samples ++ samples_in rest
samples_in (segment_end ∷ rest) = samples_in rest

abbrev pub has_frame : List Piece → Bool
has_frame [] = false
has_frame (frame samples ∷ rest) = true
has_frame (segment_end ∷ rest) = has_frame rest

collect-samples : (rest : List Piece) (pcm : List ℕ) → collect pcm rest ≡ pcm ++ samples_in rest
unfolding collect
collect-samples [] pcm = sym (append-nil pcm)
collect-samples (frame samples ∷ rest) pcm =
    collect-samples rest (pcm ++ samples) ∙ append_assoc pcm samples (samples_in rest)
collect-samples (segment_end ∷ rest) pcm = collect-samples rest pcm

abbrev pub AllWords : List ℕ → Type 0
AllWords samples = All (λ s. s < 65536) samples

AllWords-drop : (n : ℕ) (samples : List ℕ) → AllWords samples → AllWords (drop n samples)
AllWords-drop zero samples h = h
AllWords-drop (suc n) [] h = tt
AllWords-drop (suc n) (s ∷ samples) (here, h) = AllWords-drop n samples h

module _ (f : Floats) (l : Lame) (hears : List (List ℕ) → Bool) where
  -- What a wav of the reading is.
  wav_of : ℕ → List ℕ → List ℕ
  wav_of sample_rate samples = wav_file (trim_leading_silence f samples sample_rate) sample_rate

  answer-wav_of :
      (sample_rate : ℕ) (framed : Bool) (pieces : List Piece)
      → has_frame pieces ≡ true
      → answer f l hears wav sample_rate framed pieces
        ≡ ok (wav_of sample_rate (samples_in pieces) ∷ [])
  unfolding answer buffered wav_of Chunked.new encode
  answer-wav_of sample_rate framed [] h = absurd cc
  answer-wav_of sample_rate framed (segment_end ∷ rest) h = answer-wav_of sample_rate framed rest h
  answer-wav_of sample_rate framed (frame first ∷ rest) h =
      ap (λ pcm. ok (wav_file (trim_leading_silence f pcm sample_rate) sample_rate ∷ []))
        (collect-samples rest first)

  -- The answer to a request for a wav is one body, whatever was asked of frames, if the reading has a
  -- frame: a reader gets from it the sample rate and all samples of the reading, those of every
  -- sentence in order, with the leading silence of the whole trimmed. The samples have 16 bits each,
  -- their bytes are fewer than 2^32, and the rate is below 2^32.
  pub answer-wav :
      (sample_rate : ℕ) (framed : Bool) (pieces : List Piece)
      → has_frame pieces ≡ true
      → AllWords (samples_in pieces)
      → length (samples_in pieces) * 2 < 4294967296
      → sample_rate < 4294967296
      → (body : List ℕ) × (answer f l hears wav sample_rate framed pieces ≡ ok (body ∷ []))
        × (sample_rate_of body ≡ sample_rate)
        × (samples_of body ≡ trim_leading_silence f (samples_in pieces) sample_rate)
  unfolding wav_of
  answer-wav sample_rate framed pieces some_frame words short fits =
      let samples = samples_in pieces in
      let (k, e) = trim-drop f samples sample_rate in
      let fewer : length (trim_leading_silence f samples sample_rate) * 2 < 4294967296 =
        omega (arith, short, ap length e, length-drop k samples) in
      let (rate, same) =
        read-wav_file (trim_leading_silence f samples sample_rate) sample_rate
          (subst AllWords (sym e) (AllWords-drop k samples words)) fewer fits in
      (wav_of sample_rate samples, answer-wav_of sample_rate framed pieces some_frame, rate, same)
