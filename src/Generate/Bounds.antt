-- ===== src/Generate/Bounds.antt =====
-- How many frames a segment has.

use vvaves.Common.{
  ℕ, zero, suc, ◌+◌, ◌-◌, ◌*◌, ◌≤◌, ◌≡◌, refl, ap, ap₂, subst, sym, ◌∙◌, Bool, true, false, Option,
  none, some, List, [], ◌∷◌, length, min, All, leb, if◌then◌else◌, arith, Bool-cases, inl, inr,
  leb→le, leb→gt,
}
use vvaves.Common.Results.{Result, ok, err}
use vvaves.Batch.{Model, mark_eos, past_eos}
use vvaves.Text.Chars.{Text, word_count}
use vvaves.Text.Prompt.{max_gen_len, estimate_frames_after_eos}
use vvaves.Generate.{Speaker, Reading, decoded, forwarded, frames, new_reading, segment_frames}
use vvaves.Generate.Alone.{IsOk, rows_of}

-- The step of the first row with the end-of-speech flag.
abbrev pub first_eos : {Latent : Type 0} → List (Latent × Bool) → Option ℕ
first_eos [] = none
first_eos ((latent, true) ∷ rows) = some 0
first_eos ((latent, false) ∷ rows) = elim (first_eos rows) [ none ↦ none | some e ↦ some (suc e) ]

-- The frames up to the bound, or so many behind the one with the flag.
abbrev pub span : ℕ → ℕ → Option ℕ → ℕ
span bound after none = bound
span bound after (some e) = min bound (e + after + 1)

span-suc :
    (left after : ℕ) (o : Option ℕ)
    → suc (span left after o)
      ≡ span (suc left) after (elim o [ none ↦ none | some e ↦ some (suc e) ])
span-suc left after none = refl
span-suc left after (some e) = omega arith

module _ (m : Model) (s : Speaker m.Voice m.Latent m.Audio) where
  open m use {Latent, MimiState, Audio, decode}
  open s use {State, forward}

  -- What a step makes of a reading if its frame is no error.
  record Goes (step after : ℕ) (c : Reading State Latent MimiState)
      (f : State × Result (Latent × Bool)) (c' : Reading State Latent MimiState) : Type 0 where
    latent : Latent
    eos : Bool
    row : f.1 ≡ ok (latent, eos)
    on_state : c'.state ≡ f.0
    on_input : c'.backbone_input ≡ latent
    on_eos : c'.eos_step ≡ mark_eos eos c.eos_step step
    on_finished :
        c'.finished
        ≡ (if past_eos (mark_eos eos c.eos_step step) step after then true else c.finished)

  decoded-Goes :
      (step after : ℕ) (c : Reading State Latent MimiState) (st : State) (latent : Latent)
      (eos : Bool) (d : MimiState × Result Audio)
      → IsOk (decoded m s step after (record c { state = st }) latent eos d).0
      → Goes step after c
          (st, ok (latent, eos))
          (decoded m s step after (record c { state = st }) latent eos d).1
  unfolding decoded
  decoded-Goes step after c st latent eos (mimi_state', err) (a, e) = absurd cc
  decoded-Goes step after c st latent eos (mimi_state', ok audio) h = record {
    latent = latent;
    eos = eos;
    row = refl;
    on_state = refl;
    on_input = refl;
    on_eos = refl;
    on_finished = refl;
  }

  forwarded-Goes :
      (step after : ℕ) (c : Reading State Latent MimiState) (f : State × Result (Latent × Bool))
      → IsOk (forwarded m s step after c f).0
      → Goes step after c f (forwarded m s step after c f).1
  unfolding forwarded
  forwarded-Goes step after c (st, err) (a, e) = absurd cc
  forwarded-Goes step after c (st, ok (latent, eos)) h =
      decoded-Goes step after c st latent eos (decode latent c.mimi_state step) h

  abbrev next : ℕ → ℕ → Reading State Latent MimiState → Reading State Latent MimiState
  next step after c = (forwarded m s step after c (forward c.state c.backbone_input step)).1

  frames-finished :
      (left step after : ℕ) (c : Reading State Latent MimiState)
      → c.finished ≡ true
      → length (frames m s left step after c) ≡ 0
  unfolding frames
  frames-finished zero step after c e = refl
  frames-finished (suc left) step after c e = rw e refl

  frames-going :
      (left step after : ℕ) (c : Reading State Latent MimiState)
      → c.finished ≡ false
      → frames m s (suc left) step after c
        ≡ (forwarded m s step after c (forward c.state c.backbone_input step)).0
          ∷ frames m s left (suc step) after (next step after c)
  unfolding frames
  frames-going left step after c going = rw going refl

  rows-going :
      (left step : ℕ) (state : State) (input latent : Latent) (eos : Bool)
      → (forward state input step).1 ≡ ok (latent, eos)
      → rows_of m s (suc left) step state input
        ≡ (latent, eos) ∷ rows_of m s left (suc step) (forward state input step).0 latent
  unfolding rows_of
  rows-going left step state input latent eos row = rw (row, rows_of) refl

  -- Whether a reading is finished after a step, from where the flag was.
  finished_by : ℕ → ℕ → Option ℕ → Bool
  finished_by step after o = if past_eos o step after then true else false

  next_mark :
      (step after : ℕ) (c c' : Reading State Latent MimiState) (f : State × Result (Latent × Bool))
      (g : Goes step after c f c') (o : Option ℕ)
      → c.finished ≡ false
      → mark_eos g.eos c.eos_step step ≡ o
      → (c'.eos_step ≡ o) × (c'.finished ≡ finished_by step after o)
  unfolding finished_by
  next_mark step after c c' f g o going mark = (
    g.on_eos ∙ mark,
    g.on_finished ∙ ap₂ (λ q b. if past_eos q step after then true else b) mark going,
  )

  mark-some : (b : Bool) (e step : ℕ) → mark_eos b (some e) step ≡ some e
  mark-some true e step = refl
  mark-some false e step = refl

  frames-none :
      (step after : ℕ) (c : Reading State Latent MimiState) → frames m s 0 step after c ≡ []
  unfolding frames
  frames-none step after c = refl

  -- How many frames there are from a step on, if the flag was at step `e`.
  abbrev Behind : ℕ → ℕ → ℕ → ℕ → Type 0
  Behind left step after e =
      (c : Reading State Latent MimiState)
      → c.finished ≡ false
      → c.eos_step ≡ some e
      → step ≤ e + after
      → All IsOk (frames m s left step after c)
      → length (frames m s left step after c) ≡ min left (e + after + 1 - step)

  -- What follows a frame, once the flag was seen.
  after_flag :
      (left step after e : ℕ) (c : Reading State Latent MimiState)
      → Behind left (suc step) after e
      → c.eos_step ≡ some e
      → c.finished ≡ finished_by step after (some e)
      → step ≤ e + after
      → All IsOk (frames m s left (suc step) after c)
      → suc (length (frames m s left (suc step) after c)) ≡ min (suc left) (e + after + 1 - step)
  unfolding finished_by
  after_flag left step after e c ih at over h oks = elim (Bool-cases (leb (e + after) step)) [
    | inl y ↦
        let done : c.finished ≡ true = over ∙ ap (λ b. if b then true else false) y in
        omega (arith, frames-finished left (suc step) after c done, leb→le (e + after) step y, h)
    | inr y ↦
        let going : c.finished ≡ false = over ∙ ap (λ b. if b then true else false) y in
        let more = leb→gt (e + after) step y in
        omega (arith, ih c going at (omega (arith, more)) oks, more)
  ]

  frames-Behind : (left step after e : ℕ) → Behind left step after e
  frames-Behind zero step after e c going at h oks =
      ap length (frames-none step after c) ∙ omega arith
  frames-Behind (suc left) step after e c going at h oks =
      let oks' = subst (All IsOk) (frames-going left step after c going) oks in
      let g = forwarded-Goes step after c (forward c.state c.backbone_input step) oks'.0 in
      let (eos1, over) =
        next_mark step after c (next step after c) (forward c.state c.backbone_input step) g
          (some e) going (ap (λ o. mark_eos g.eos o step) at ∙ mark-some g.eos e step) in
      ap length (frames-going left step after c going)
      ∙ after_flag left step after e (next step after c) (frames-Behind left (suc step) after e)
          eos1 over h oks'.1

  rows_at : ℕ → ℕ → Reading State Latent MimiState → List (Latent × Bool)
  rows_at left step c = rows_of m s left step c.state c.backbone_input

  abbrev Before : ℕ → ℕ → ℕ → Type 0
  Before left step after =
      (c : Reading State Latent MimiState)
      → c.finished ≡ false
      → c.eos_step ≡ none
      → All IsOk (frames m s left step after c)
      → length (frames m s left step after c) ≡ span left after (first_eos (rows_at left step c))

  -- What follows a frame of which the flag is known.
  after_row :
      (left step after : ℕ) (c : Reading State Latent MimiState) (latent : Latent) (eos : Bool)
      → Before left (suc step) after
      → c.eos_step ≡ mark_eos eos none step
      → c.finished ≡ finished_by step after (mark_eos eos none step)
      → All IsOk (frames m s left (suc step) after c)
      → suc (length (frames m s left (suc step) after c))
        ≡ span (suc left) after (first_eos ((latent, eos) ∷ rows_at left (suc step) c))
  unfolding finished_by
  after_row left step after c latent true ih at over oks =
      after_flag left step after step c (frames-Behind left (suc step) after step) at over
        (omega arith) oks
      ∙ omega arith
  after_row left step after c latent false ih at over oks =
      ap suc (ih c over at oks) ∙ span-suc left after (first_eos (rows_at left (suc step) c))

  frames-Before : (left step after : ℕ) → Before left step after
  unfolding rows_at rows_of
  frames-Before zero step after c going at oks = ap length (frames-none step after c)
  frames-Before (suc left) step after c going at oks =
      let f : State × Result (Latent × Bool) = forward c.state c.backbone_input step in
      let c' : Reading State Latent MimiState = next step after c in
      let oks' = subst (All IsOk) (frames-going left step after c going) oks in
      let g = forwarded-Goes step after c f oks'.0 in
      let (eos1, over) =
        next_mark step after c c' f g (mark_eos g.eos none step) going
          (ap (λ o. mark_eos g.eos o step) at) in
      let rows : rows_at (suc left) step c ≡ (g.latent, g.eos) ∷ rows_at left (suc step) c' =
        rows-going left step c.state c.backbone_input g.latent g.eos g.row
        ∙ ap₂ (λ st x. (g.latent, g.eos) ∷ rows_of m s left (suc step) st x) (sym g.on_state)
            (sym g.on_input) in
      ap length (frames-going left step after c going)
      ∙ after_row left step after c' g.latent g.eos (frames-Before left (suc step) after) eos1 over
          oks'.1
      ∙ ap (λ l. span (suc left) after (first_eos l)) (sym rows)

  -- If no frame of a segment is an error, it has as many frames as its bound, 13 for each word of
  -- the prepared text and 26 more, unless the flow LM sets the end-of-speech flag before: then it
  -- ends, at the bound at the latest, 5 frames behind the first one with the flag if the text has
  -- four words at most, and 3 behind it if it has more.
  pub segment_frames-span :
      (prepared text : Text) (state : State)
      → All IsOk (segment_frames m s prepared text (ok state))
      → length (segment_frames m s prepared text (ok state))
        ≡ span
            (word_count prepared * 13 + 26)
            (if leb (word_count text) 4 then 5 else 3)
            (first_eos (rows_of m s (word_count prepared * 13 + 26) 0 state m.bos_emb))
  unfolding segment_frames new_reading rows_at max_gen_len estimate_frames_after_eos
  segment_frames-span prepared text state oks =
      let bound : (word_count prepared + 2) * 13 ≡ word_count prepared * 13 + 26 = omega arith in
      frames-Before (max_gen_len prepared) 0 (estimate_frames_after_eos text)
        (new_reading m s state) refl refl oks
      ∙ ap
          (λ n.
            span n (estimate_frames_after_eos text) (first_eos (rows_of m s n 0 state m.bos_emb)))
          bound
