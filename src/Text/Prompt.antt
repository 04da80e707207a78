-- ===== src/Text/Prompt.antt =====
-- `prepare_text_prompt`, `estimate_frames_after_eos`, the length bound and the size of a voice
-- prompt's chunks, of tts_model.rs.
use vvaves.Common.{
  max, ◌-◌, ◌/◌, ◌≤◌, ◌<◌, ◌≡◌, arith, false, leb→le, Bool-cases, inl, inr, ℕ, ◌+◌, ◌*◌, true,
  false, not, ◌&&◌, ◌||◌, Option, none, some, [], ◌∷◌, ◌++◌, map, replicate, ltb, leb, ◌==◌,
  if◌then◌else◌, is_empty,
}
use vvaves.Text.Chars.{Text, Unicode, trim, word_count}
use vvaves.Text.Pause.{strip_pause_markers}

-- `replace(['\n', '\r'], " ")`
unfoldable pub line_breaks_to_spaces : Text → Text
line_breaks_to_spaces cs = map (λ c. if c == 10 || c == 13 then 32 else c) cs

-- `replace("  ", " ")`: pairs of spaces from the left, each made one space.
unfoldable pub halve_spaces : Text → Text
halve_spaces [] = []
halve_spaces (c ∷ []) = c ∷ []
halve_spaces (c ∷ d ∷ cs) = elim (c == 32 && d == 32) [
  | true ↦ 32 ∷ halve_spaces cs
  | false ↦ c ∷ halve_spaces (d ∷ cs)
]

unfoldable pub last_char : Text → Option ℕ
last_char [] = none
last_char (c ∷ []) = some c
last_char (c ∷ d ∷ cs) = last_char (d ∷ cs)

-- The frames that a reading may take at most.
unfoldable pub max_gen_len : Text → ℕ
max_gen_len prompt = (word_count prompt + 2) * 13

pub zero-lt-max_gen_len : (prompt : Text) → 0 < max_gen_len prompt
unfolding max_gen_len
zero-lt-max_gen_len prompt = omega arith

module _ (u : Unicode) where
  open u use {is_uppercase, to_uppercase, is_alphanumeric}

  unfoldable pub capitalised : Text → Text
  capitalised [] = []
  capitalised (c ∷ cs) = if not (is_uppercase c) then to_uppercase c ++ cs else c ∷ cs

  unfoldable pub punctuated : Text → Text
  unfolding last_char
  punctuated cs = elim (last_char cs) [
    | none ↦ cs
    | some c ↦ if is_alphanumeric c then cs ++ (b'.' ∷ []) else cs
  ]

  unfoldable pub prepared : Text → Text
  unfolding capitalised punctuated line_breaks_to_spaces halve_spaces
  prepared text =
      let spaced = halve_spaces (line_breaks_to_spaces text) in
      let read = punctuated (capitalised spaced) in
      if ltb (word_count spaced) 5 then replicate 8 32 ++ read else read

  unfoldable pub prepare_text_prompt : Text → Text
  unfolding prepared
  prepare_text_prompt text =
      let trimmed = trim (strip_pause_markers u text) in
      if is_empty trimmed then b'.' ∷ [] else prepared trimmed

  pub estimate_generation_steps : Text → ℕ
  unfolding max_gen_len
  estimate_generation_steps text = max_gen_len (prepare_text_prompt text)

unfoldable pub estimate_frames_after_eos : Text → ℕ
estimate_frames_after_eos text = if leb (word_count text) 4 then 3 + 2 else 1 + 2

-- `div_ceil`; Rust panics at a divisor 0.
div_ceil : ℕ → ℕ → ℕ
div_ceil a b = (a + (b - 1)) / b

-- How many frames of a voice prompt are encoded at once.
pub adaptive_voice_prompt_chunk_frames : Option ℕ → ℕ → ℕ → ℕ
unfolding div_ceil
adaptive_voice_prompt_chunk_frames (some frames) total_samples frame_size = max frames 1
adaptive_voice_prompt_chunk_frames none total_samples frame_size =
    let total_frames = div_ceil total_samples frame_size in
    if leb total_frames 120
    then max total_frames 1
    else if leb total_frames 600
    then 120
    else if leb total_frames 1800
    then 180
    else 240

pub one-le-chunk_frames :
    (frames : Option ℕ) (total_samples frame_size : ℕ)
    → 1 ≤ adaptive_voice_prompt_chunk_frames frames total_samples frame_size
unfolding adaptive_voice_prompt_chunk_frames
one-le-chunk_frames (some frames) total_samples frame_size = omega arith
one-le-chunk_frames none total_samples frame_size = ground arith

-- Without an override a chunk has between 1 and 240 frames, and no more than the prompt if that has
-- a frame.
pub adaptive_voice_prompt_chunk_frames-bounds :
    (total_samples frame_size : ℕ)
    → let n = adaptive_voice_prompt_chunk_frames none total_samples frame_size in
      (1 ≤ n) × (n ≤ 240) × (n ≤ max 1 ((total_samples + (frame_size - 1)) / frame_size))
unfolding adaptive_voice_prompt_chunk_frames div_ceil
adaptive_voice_prompt_chunk_frames-bounds total_samples frame_size =
    let k = (total_samples + (frame_size - 1)) / frame_size in bounded k
  where
    bounded :
        (k : ℕ)
        → let n =
            if leb k 120
            then max k 1
            else if leb k 600
            then 120
            else if leb k 1800
            then 180
            else 240 in
          (1 ≤ n) × (n ≤ 240) × (n ≤ max 1 k)
    bounded k = elim (Bool-cases (leb k 120)) [
      | inl a ↦ rw a (omega arith, omega (arith, leb→le k 120 a), omega arith)
      | inr a ↦ elim (Bool-cases (leb k 600)) [
        | inl b ↦ rw (a, b) (omega arith, omega arith, omega (arith, over k 120 a))
        | inr b ↦ elim (Bool-cases (leb k 1800)) [
          | inl c ↦ rw (a, b, c) (omega arith, omega arith, omega (arith, over k 600 b))
          | inr c ↦ rw (a, b, c) (omega arith, omega arith, omega (arith, over k 1800 c))
        ]
      ]
    ]
      where
        over : (m n : ℕ) → leb m n ≡ false → n < m
        over m n e = ground arith
