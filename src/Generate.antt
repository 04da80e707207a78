-- ===== src/Generate.antt =====
-- The readings of tts_model.rs without a batcher: one segment frame by frame, a text segment by
-- segment, and a text with pauses.
pub mod Alone
pub mod Bounds
pub mod Pauses
pub mod VoicePrompt
mod Examples
use vvaves.Common.{
  ℕ, zero, suc, ◌+◌, ◌-◌, ◌%◌, ◌^◌, Bool, true, false, Option, none, some, List, [], ◌∷◌, ◌++◌, map,
  concat, length, is_empty, ltb, ◌==◌, if◌then◌else◌,
}
use vvaves.Common.Results.{Result, ok, err, ◌>>=◌}
use vvaves.Batch.{Model, mark_eos, past_eos}
use vvaves.Text.Chars.{Text, Unicode, trim, codes, byte_len, len_utf8}
use vvaves.Text.Pause.{PauseMarker, silence_samples, strip_prefix}
use vvaves.Text.Pause.Found.{Durations, ParsedText, parse_text_with_pauses}
use vvaves.Text.Prompt.{prepare_text_prompt, max_gen_len, estimate_frames_after_eos}
use vvaves.Text.Sentences.{split_into_best_sentences}

-- The tensor code that a reading calls beside the batcher's: what comes before the first frame of a
-- segment (tokens, embeddings, the prompt on a copy of the voice state), `flow_lm.forward` with the
-- state it keeps and its noise, `Tensor::cat` of the frames, and silence.
pub record Speaker (Voice Latent Audio : Type 0) : Type 1 where
  pub State : Type 0
  pub prompted : Text → Voice → Result State
  pub forward : State → Latent → ℕ → State × Result (Latent × Bool)
  pub cat : List Audio → Result Audio
  pub silence : ℕ → Result Audio

-- The variables that the closure of a segment keeps while it is read.
pub record Reading (State Latent MimiState : Type 0) : Type 0 where
  pub state : State
  pub mimi_state : MimiState
  pub backbone_input : Latent
  pub eos_step : Option ℕ
  pub finished : Bool

-- `collect` of the items, up to the first error.
pub collected : {A : Type 0} → List (Result A) → Result (List A)
collected [] = ok []
collected (r ∷ rs) = do a ← r; rest ← collected rs; ok (a ∷ rest)

-- `Segment`, of a text with pauses.
pub data Segment : Type 0 where
  spoken : Text → Segment
  pause : ℕ → Segment

-- The text before and behind a byte offset; slicing panics where it is none of a character.
pub cut_at : Text → ℕ → Result (Text × Text)
cut_at [] n = if n == 0 then ok ([], []) else err
cut_at (c ∷ cs) n =
    let rest = cut_at cs (n - len_utf8 c) in
    if n == 0
    then ok ([], c ∷ cs)
    else if ltb n (len_utf8 c)
    then err
    else (do (front, back) ← rest; ok (c ∷ front, back))

-- A text that is white space alone is left out.
pub spoken_of : Text → List Segment
spoken_of text = if is_empty (trim text) then [] else spoken text ∷ []

pub spoken_between : Text → ℕ → ℕ → Result (List Segment)
unfolding cut_at spoken_of
spoken_between clean_text from to =
    if ltb from to
    then (do
      (front, rest) ← cut_at clean_text from
      (text, back) ← cut_at rest (to - from)
      ok (spoken_of text))
    else ok []

-- An explicit marker was made one space; the characters of a natural pause are still there.
pub behind : PauseMarker → ℕ
behind p = elim (strip_prefix (codes "[pause:") p.original) [
  | some rest ↦ p.position + 1
  | none ↦ p.position + byte_len p.original
]

-- The loop over the pauses, from `last_pos` on, and what follows the last.
pub segments_from : Text → List PauseMarker → ℕ → Result (List Segment)
unfolding spoken_between spoken_of behind cut_at
segments_from clean_text [] last_pos =
    if ltb last_pos (byte_len clean_text)
    then (do (front, rest) ← cut_at clean_text last_pos; ok (spoken_of rest))
    else ok []
segments_from clean_text (p ∷ ps) last_pos = do
  before ← spoken_between clean_text last_pos p.position
  rest ← segments_from clean_text ps (behind p)
  ok (before ++ (pause p.duration_ms ∷ rest))

pub segments_of : ParsedText → Result (List Segment)
unfolding segments_from
segments_of parsed = segments_from parsed.clean_text parsed.pauses 0

module _ (m : Model) (s : Speaker m.Voice m.Latent m.Audio) where
  open m use {Voice, Latent, MimiState, Audio, bos_emb, init_states, decode}
  open s use {State, prompted, forward, cat, silence}

  pub decoded :
      ℕ
      → ℕ
      → Reading State Latent MimiState
      → Latent
      → Bool
      → MimiState × Result Audio
      → Result Audio × Reading State Latent MimiState
  decoded step frames_after_eos c latent eos (mimi_state', err) =
      (err, record c { mimi_state = mimi_state' })
  decoded step frames_after_eos c latent eos (mimi_state', ok audio) =
      let eos_step' = mark_eos eos c.eos_step step in
      (
        ok audio,
        record c {
          mimi_state = mimi_state';
          eos_step = eos_step';
          finished = if past_eos eos_step' step frames_after_eos then true else c.finished;
          backbone_input = latent;
        },
      )

  pub forwarded :
      ℕ
      → ℕ
      → Reading State Latent MimiState
      → State × Result (Latent × Bool)
      → Result Audio × Reading State Latent MimiState
  unfolding decoded
  forwarded step frames_after_eos c (state', err) = (err, record c { state = state' })
  forwarded step frames_after_eos c (state', ok (latent, eos)) =
      decoded step frames_after_eos (record c { state = state' }) latent eos
        (decode latent c.mimi_state step)

  -- `(0..max_gen_len).map_while`, with `left` steps still to come. After an error it goes on.
  pub frames : ℕ → ℕ → ℕ → Reading State Latent MimiState → List (Result Audio)
  unfolding forwarded
  frames zero step frames_after_eos c = []
  frames (suc left) step frames_after_eos c =
      let (r, c') = forwarded step frames_after_eos c (forward c.state c.backbone_input step) in
      let rest = frames left (suc step) frames_after_eos c' in if c.finished then [] else r ∷ rest

  pub new_reading : State → Reading State Latent MimiState
  new_reading state = record {
    state = state;
    mimi_state = init_states;
    backbone_input = bos_emb;
    eos_step = none;
    finished = false;
  }

  pub segment_frames : Text → Text → Result State → List (Result Audio)
  unfolding frames new_reading
  segment_frames prepared text err = err ∷ []
  segment_frames prepared text (ok state) =
      frames (max_gen_len prepared) 0 (estimate_frames_after_eos text) (new_reading state)

  pub generate_stream_segment : Unicode → Text → Voice → List (Result Audio)
  unfolding segment_frames
  generate_stream_segment u text voice =
      let prepared = prepare_text_prompt u text in
      segment_frames prepared text (prompted prepared voice)

  pub generate_stream : (Text → Option ℕ) → Unicode → Text → Voice → List (Result Audio)
  unfolding generate_stream_segment
  generate_stream count_tokens u text voice =
      concat (
        map (λ t. generate_stream_segment u t voice)
          (split_into_best_sentences count_tokens u text))

  -- "No audio generated" is an error.
  pub concatenated : List (Result Audio) → Result Audio
  unfolding collected
  concatenated items = do chunks ← collected items; if is_empty chunks then err else cat chunks

  pub generate : (Text → Option ℕ) → Unicode → Text → Voice → Result Audio
  unfolding generate_stream concatenated
  generate count_tokens u text voice = concatenated (generate_stream count_tokens u text voice)

  pub said : (Text → Option ℕ) → Unicode → ℕ → Voice → Segment → List (Result Audio)
  unfolding generate_stream
  said count_tokens u sample_rate voice (spoken text) = generate_stream count_tokens u text voice
  said count_tokens u sample_rate voice (pause ms) =
      silence (silence_samples ms (sample_rate % 2 ^ 32)) ∷ []

  -- An `err` of the whole is a panic of the slicing.
  pub generate_stream_long :
      (Text → Option ℕ) → Durations → Unicode → ℕ → Text → Voice → Result (List (Result Audio))
  unfolding said segments_of
  generate_stream_long count_tokens d u sample_rate text voice = do
    segments ← segments_of (parse_text_with_pauses d u text)
    ok (concat (map (said count_tokens u sample_rate voice) segments))

  pub generate_with_pauses :
      (Text → Option ℕ) → Durations → Unicode → ℕ → Text → Voice → Result Audio
  unfolding generate_stream_long concatenated
  generate_with_pauses count_tokens d u sample_rate text voice = do
    items ← generate_stream_long count_tokens d u sample_rate text voice
    concatenated items
