-- ===== src/Generate/VoicePrompt.antt =====
-- How `get_voice_state_from_tensor` of tts_model.rs cuts a voice prompt into chunks for the encoder.
use native.Mathlib.Nat.{mul-le-mul_right, mod-lt, div-add-mod, mul-mod_left}
use vvaves.Common.{
  ℕ, zero, suc, ◌+◌, ◌-◌, ◌*◌, ◌/◌, ◌%◌, ◌≤◌, ◌<◌, min, ◌≡◌, refl, ap, subst, sym, ◌∙◌, true,
  Option, List, [], ◌∷◌, ◌++◌, concat, length, take, drop, replicate, All, ltb, leb, ◌==◌,
  if◌then◌else◌, length-take, length-drop, length-append, length-replicate, take-append-drop, arith,
  Bool-cases, inl, inr, leb→le, lt→ltb, ==_iff,
}
use vvaves.Text.Prompt.{adaptive_voice_prompt_chunk_frames, one-le-chunk_frames}

split_mul : (a b f : ℕ) → a ≤ b → b * f ≡ f * a + (b - a) * f
split_mul a b f h = let e : b ≡ a + (b - a) = omega arith in ap (λ n. n * f) e ∙ grind arith

min-mul : (a b f : ℕ) → min (f * a) (b * f) ≡ min a b * f
min-mul a b f = elim (Bool-cases (leb a b)) [
  | inl y ↦
      let h : a ≤ b = leb→le a b y in
      let e : min a b ≡ a = omega arith in
      let c : f * a ≡ a * f = grind arith in rw e (omega (arith, split_mul a b f h, c))
  | inr y ↦
      let h : b ≤ a = ground arith in
      let e : min a b ≡ b = omega arith in
      let c : f * a ≡ a * f = grind arith in rw e (omega (arith, mul-le-mul_right f h, c))
]

sub-mul : (a b f : ℕ) → b * f - f * a ≡ (b - a) * f
sub-mul a b f = elim (Bool-cases (leb a b)) [
  | inl y ↦ omega (arith, split_mul a b f (leb→le a b y))
  | inr y ↦
      let h : b ≤ a = ground arith in
      let e : b - a ≡ 0 = omega arith in
      let c : f * a ≡ a * f = grind arith in rw e (omega (arith, mul-le-mul_right f h, c))
]

div_exactly : (t f : ℕ) → t % f ≡ 0 → t ≡ t / f * f
div_exactly t f e =
    let c : f * (t / f) ≡ t / f * f = grind arith in omega (arith, div-add-mod t f, c, e)

module _ {A : Type 0} where
  -- Silence up to a whole number of frames.
  pub padded : A → ℕ → List A → List A
  padded zero_sample frame_size audio =
      let t = length audio in
      let pad_len = if t % frame_size == 0 then 0 else frame_size - t % frame_size in
      if ltb 0 pad_len then audio ++ replicate pad_len zero_sample else audio

  -- `(0..total_samples).step_by(chunk_size)` with the chunk from each start; a step more than there
  -- are samples is never made.
  pub chunks_by : ℕ → ℕ → List A → List (List A)
  chunks_by zero chunk_size xs = []
  chunks_by (suc fuel) chunk_size [] = []
  chunks_by (suc fuel) chunk_size (x ∷ xs) =
      take chunk_size (x ∷ xs) ∷ chunks_by fuel chunk_size (drop chunk_size (x ∷ xs))

  pub voice_chunks : Option ℕ → A → ℕ → List A → List (List A)
  unfolding padded chunks_by
  voice_chunks chunk_frames zero_sample frame_size audio =
      let audio' = padded zero_sample frame_size audio in
      let total_samples = length audio' in
      let n = adaptive_voice_prompt_chunk_frames chunk_frames total_samples frame_size in
      chunks_by total_samples (frame_size * n) audio'

  -- What the encoder's convolutions ask of a chunk.
  pub IsFrames : ℕ → List A → Type 0
  IsFrames frame_size xs = (0 < length xs) × (length xs % frame_size ≡ 0)

  chunks_by-IsFrames :
      (fuel n q frame_size : ℕ) (xs : List A)
      → length xs ≤ fuel
      → 0 < frame_size
      → length xs ≡ q * frame_size
      → (concat (chunks_by fuel (frame_size * suc n) xs) ≡ xs)
        × All (IsFrames frame_size) (chunks_by fuel (frame_size * suc n) xs)
  unfolding chunks_by IsFrames
  chunks_by-IsFrames zero n q f [] h pos e = (refl, tt)
  chunks_by-IsFrames zero n q f (x ∷ xs) h pos e = absurd (omega arith)
  chunks_by-IsFrames (suc fuel) n q f [] h pos e = (refl, tt)
  chunks_by-IsFrames (suc fuel) n q f (x ∷ xs) h pos e =
      let size : ℕ = f * suc n in
      let some_size : 0 < size =
        let d : f * suc n ≡ f + n * f = grind arith in omega (arith, d, pos) in
      let here : length (take size (x ∷ xs)) ≡ min (suc n) q * f =
        length-take size (x ∷ xs) ∙ ap (min size) e ∙ min-mul (suc n) q f in
      let there : length (drop size (x ∷ xs)) ≡ (q - suc n) * f =
        length-drop size (x ∷ xs) ∙ ap (λ l. l - size) e ∙ sub-mul (suc n) q f in
      let (joined, whole) =
        chunks_by-IsFrames fuel n (q - suc n) f (drop size (x ∷ xs))
          (omega (arith, length-drop size (x ∷ xs))) pos there in
      (
        ap (λ l. take size (x ∷ xs) ++ l) joined ∙ take-append-drop size (x ∷ xs),
        (
          (
            omega (arith, length-take size (x ∷ xs)),
            ap (λ k. k % f) here ∙ mul-mod_left (min (suc n) q) f,
          ),
          whole,
        ),
      )

  padded-frames :
      (zero_sample : A) (f : ℕ) (audio : List A)
      → 0 < f
      → (q : ℕ) × (length (padded zero_sample f audio) ≡ q * f)
  unfolding padded
  padded-frames zero_sample f audio pos =
      let t : ℕ = length audio in
      elim (Bool-cases (t % f == 0)) [
        | inl y ↦ (t / f, rw y (div_exactly t f ((==_iff (t % f) 0).0 y)))
        | inr y ↦
            let left : 0 < t % f = ground arith in
            let r : ℕ = f - t % f in
            let some_r : ltb 0 r ≡ true = lt→ltb 0 r (omega (arith, mod-lt t pos)) in
            let c : f * (t / f) ≡ t / f * f = grind arith in
            let d : suc (t / f) * f ≡ t / f * f + f = grind arith in
            let rounded : t + length (replicate r zero_sample) ≡ suc (t / f) * f =
              omega (arith, length-replicate r zero_sample, div-add-mod t f, c, d, mod-lt t pos) in
            (suc (t / f), rw (y, some_r) (length-append audio (replicate r zero_sample) ∙ rounded))
      ]

  -- The chunks of a voice prompt are, end to end, the prompt and silence up to a whole number of
  -- frames; each has samples and is a whole number of frames long, if a frame has samples.
  pub voice_chunks-IsFrames :
      (chunk_frames : Option ℕ) (zero_sample : A) (frame_size : ℕ) (audio : List A)
      → 0 < frame_size
      → (concat (voice_chunks chunk_frames zero_sample frame_size audio)
          ≡ padded zero_sample frame_size audio)
        × All (IsFrames frame_size) (voice_chunks chunk_frames zero_sample frame_size audio)
  unfolding voice_chunks
  voice_chunks-IsFrames chunk_frames zero_sample f audio pos =
      let audio' : List A = padded zero_sample f audio in
      let (q, e) = padded-frames zero_sample f audio pos in
      let n : ℕ = adaptive_voice_prompt_chunk_frames chunk_frames (length audio') f in
      let some_n : n ≡ suc (n - 1) =
        omega (arith, one-le-chunk_frames chunk_frames (length audio') f) in
      subst
        (λ k.
          (concat (chunks_by (length audio') (f * k) audio') ≡ audio')
          × All (IsFrames f) (chunks_by (length audio') (f * k) audio'))
        (sym some_n) (chunks_by-IsFrames (length audio') (n - 1) q f audio' (omega arith) pos e)
