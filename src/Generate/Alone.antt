-- ===== src/Generate/Alone.antt =====
-- A segment beside a stream of the batcher that gets the same latents and flags.
use vvaves.Common.{
  ℕ, zero, suc, ◌+◌, ◌≡◌, refl, ap, ap₂, subst, sym, ◌∙◌, Bool, true, false, List, [], ◌∷◌, map,
  All, leb, if◌then◌else◌, arith, Bool-cases, inl, inr,
}
use vvaves.Common.Results.{Result, ok, err}
use vvaves.Batch.{Model, Stream, mark_eos, past_eos, advanced, is_done, stream_of}
use vvaves.Text.Chars.{Text}
use vvaves.Text.Prompt.{max_gen_len, estimate_frames_after_eos}
use vvaves.Generate.{Speaker, Reading, decoded, forwarded, frames, new_reading, segment_frames}

module _ {A : Type 0} where
  abbrev pub IsOk : Result A → Type 0
  IsOk r = (a : A) × (r ≡ ok a)

module _ (m : Model) where
  open m use {Latent, MimiState, Audio, decode}

  -- The frames that `Batcher::step` makes of a stream with the given rows, up to its last.
  pub alone : List (Latent × Bool) → Stream Latent MimiState → List Audio
  alone [] st = []
  alone ((latent, eos) ∷ rows) st =
      let (st', r) = advanced m st latent eos (decode latent st.mimi_state st.step) in
      let rest = alone rows st' in
      elim r [ err ↦ [] | ok frame ↦ frame.audio ∷ (if frame.done then [] else rest) ]

module _ (m : Model) (s : Speaker m.Voice m.Latent m.Audio) where
  open m use {Voice, Latent, MimiState, Audio, decode}
  open s use {State, forward, prompted}

  -- The rows that the flow LM makes in so many steps, one after the other.
  unfoldable pub rows_of : ℕ → ℕ → State → Latent → List (Latent × Bool)
  rows_of zero step state latent = []
  rows_of (suc left) step state latent =
      let (state', r) = forward state latent step in
      elim r [ err ↦ [] | ok (next, eos) ↦ (next, eos) ∷ rows_of left (suc step) state' next ]

  -- A stream that stands where a segment stands.
  stream_at : ℕ → ℕ → ℕ → ℕ → Reading State Latent MimiState → Stream Latent MimiState
  stream_at id left step after c = record {
    id = id;
    mimi_state = c.mimi_state;
    backbone_input = c.backbone_input;
    step = step;
    max_gen_len = step + left;
    frames_after_eos = after;
    eos_step = c.eos_step;
  }

  frames-finished :
      (left step after : ℕ) (c : Reading State Latent MimiState)
      → c.finished ≡ true
      → frames m s left step after c ≡ []
  unfolding frames
  frames-finished zero step after c e = refl
  frames-finished (suc left) step after c e = rw e refl

  -- The claim for a segment with so many steps left.
  Agrees : ℕ → ℕ → ℕ → ℕ → Reading State Latent MimiState → Type 0
  Agrees left step after id c =
      c.finished ≡ false
      → All IsOk (frames m s left step after c)
      → frames m s left step after c
        ≡ map ok
            (alone m (rows_of left step c.state c.backbone_input) (stream_at id left step after c))

  -- What the batcher does with a stream behind a frame that went well.
  rest_of :
      ℕ
      → ℕ
      → ℕ
      → ℕ
      → Reading State Latent MimiState
      → Bool
      → List (Latent × Bool)
      → MimiState
      → Latent
      → List Audio
  rest_of id left step after c eos rows mimi_state' latent =
      if is_done m (stream_at id (suc left) step after c) eos
      then []
      else alone m rows (record (stream_at id (suc left) step after c) {
        mimi_state = mimi_state';
        backbone_input = latent;
        step = step + 1;
        eos_step = mark_eos eos c.eos_step step;
      })

  rest_of-done :
      (id left step after : ℕ) (c : Reading State Latent MimiState) (eos : Bool)
      (rows : List (Latent × Bool)) (mimi_state' : MimiState) (latent : Latent)
      → is_done m (stream_at id (suc left) step after c) eos ≡ true
      → rest_of id left step after c eos rows mimi_state' latent ≡ []
  unfolding rest_of
  rest_of-done id left step after c eos rows mimi_state' latent e = rw e refl

  is_done-past :
      (id left step after : ℕ) (c : Reading State Latent MimiState) (eos : Bool)
      → past_eos (mark_eos eos c.eos_step step) step after ≡ true
      → is_done m (stream_at id (suc left) step after c) eos ≡ true
  unfolding is_done stream_at
  is_done-past id left step after c eos y = rw y refl

  is_done-last :
      (id step after : ℕ) (c : Reading State Latent MimiState) (eos : Bool)
      → past_eos (mark_eos eos c.eos_step step) step after ≡ false
      → is_done m (stream_at id 1 step after c) eos ≡ true
  unfolding is_done stream_at
  is_done-last id step after c eos y =
      let e : leb (step + 1) (step + 1) ≡ true = ground arith in rw (y, e) refl

  is_done-more :
      (id left step after : ℕ) (c : Reading State Latent MimiState) (eos : Bool)
      → past_eos (mark_eos eos c.eos_step step) step after ≡ false
      → is_done m (stream_at id (suc (suc left)) step after c) eos ≡ false
  unfolding is_done stream_at
  is_done-more id left step after c eos y =
      let e : leb (step + suc (suc left)) (step + 1) ≡ false = ground arith in rw (y, e) refl

  rest_of-more :
      (id left step after : ℕ) (c c' : Reading State Latent MimiState) (eos : Bool)
      (rows : List (Latent × Bool)) (mimi_state' : MimiState) (latent : Latent)
      → is_done m (stream_at id (suc left) step after c) eos ≡ false
      → c'.mimi_state ≡ mimi_state'
      → c'.backbone_input ≡ latent
      → c'.eos_step ≡ mark_eos eos c.eos_step step
      → rest_of id left step after c eos rows mimi_state' latent
        ≡ alone m rows (stream_at id left (suc step) after c')
  unfolding rest_of stream_at
  rest_of-more id left step after c c' eos rows mimi_state' latent y e1 e2 e3 =
      let n : step + 1 ≡ suc step = omega arith in
      let k : step + suc left ≡ suc step + left = omega arith in rw (y, n, k, e1, e2, e3) refl

  onward :
      (left step after id : ℕ) (c c' : Reading State Latent MimiState) (latent : Latent)
      (eos : Bool) (mimi_state' : MimiState)
      → past_eos (mark_eos eos c.eos_step step) step after ≡ false
      → c'.mimi_state ≡ mimi_state'
      → c'.backbone_input ≡ latent
      → c'.eos_step ≡ mark_eos eos c.eos_step step
      → c'.state ≡ c.state
      → alone m
          (rows_of left (suc step) c'.state c'.backbone_input)
          (stream_at id left (suc step) after c')
        ≡ rest_of id left step after c eos
            (rows_of left (suc step) c.state latent)
            mimi_state'
            latent
  unfolding alone rows_of
  onward zero step after id c c' latent eos mimi_state' y e1 e2 e3 e4 = sym (
      rest_of-done id 0 step after c eos [] mimi_state' latent (is_done-last id step after c eos y))
  onward (suc left) step after id c c' latent eos mimi_state' y e1 e2 e3 e4 =
      ap₂
        (λ a b.
          alone m (rows_of (suc left) (suc step) a b) (stream_at id (suc left) (suc step) after c'))
        e4 e2
      ∙ sym (
          rest_of-more id (suc left) step after c c' eos
            (rows_of (suc left) (suc step) c.state latent) mimi_state' latent
            (is_done-more id left step after c eos y) e1 e2 e3)

  after-decode :
      (left step after id : ℕ) (c : Reading State Latent MimiState) (latent : Latent) (eos : Bool)
      (d : MimiState × Result Audio)
      → ((c' : Reading State Latent MimiState) → Agrees left (suc step) after id c')
      → c.finished ≡ false
      → All IsOk (
          (decoded m s step after c latent eos d).0
          ∷ frames m s left (suc step) after (decoded m s step after c latent eos d).1)
      → (decoded m s step after c latent eos d).0
          ∷ frames m s left (suc step) after (decoded m s step after c latent eos d).1
        ≡ map ok (elim d.1 [
          | err ↦ []
          | ok audio ↦
              audio
              ∷ rest_of id left step after c eos (rows_of left (suc step) c.state latent) d.0 latent
        ])
  unfolding decoded Agrees
  after-decode left step after id c latent eos (mimi_state', err) ih going oks =
      let (a, e) = oks.0 in cc
  after-decode left step after id c latent eos (mimi_state', ok audio) ih going oks =
      let c' : Reading State Latent MimiState =
        (decoded m s step after c latent eos (mimi_state', ok audio)).1 in
      let rows : List (Latent × Bool) = rows_of left (suc step) c.state latent in
      elim (Bool-cases (past_eos (mark_eos eos c.eos_step step) step after)) [
        | inl y ↦
            let over : c'.finished ≡ true = rw y refl in
            ap (λ l. ok audio ∷ l)
              (frames-finished left (suc step) after c' over
                ∙ sym (
                    ap (map ok) (
                      rest_of-done id left step after c eos rows mimi_state' latent
                        (is_done-past id left step after c eos y))))
        | inr y ↦
            let on : c'.finished ≡ false = rw y going in
            ap (λ l. ok audio ∷ l)
              (ih c' on oks.1
                ∙ ap (map ok)
                    (onward left step after id c c' latent eos mimi_state' y refl refl refl refl))
      ]

  spelled :
      (id left step after : ℕ) (c : Reading State Latent MimiState) (eos : Bool)
      (rows : List (Latent × Bool)) (latent : Latent) (d : MimiState × Result Audio)
      → elim d.1 [ err ↦ [] | ok audio ↦ audio ∷ rest_of id left step after c eos rows d.0 latent ]
        ≡ elim (advanced m (stream_at id (suc left) step after c) latent eos d).1 [
          | err ↦ []
          | ok frame ↦
              frame.audio
              ∷ (if frame.done
                  then []
                  else alone m rows
                      (advanced m (stream_at id (suc left) step after c) latent eos d).0)
        ]
  unfolding advanced rest_of stream_at
  spelled id left step after c eos rows latent (mimi_state', err) = refl
  spelled id left step after c eos rows latent (mimi_state', ok audio) = refl

  after-forward :
      (left step after id : ℕ) (c : Reading State Latent MimiState)
      (f : State × Result (Latent × Bool))
      → ((c' : Reading State Latent MimiState) → Agrees left (suc step) after id c')
      → c.finished ≡ false
      → All IsOk (
          (forwarded m s step after c f).0
          ∷ frames m s left (suc step) after (forwarded m s step after c f).1)
      → (forwarded m s step after c f).0
          ∷ frames m s left (suc step) after (forwarded m s step after c f).1
        ≡ map ok (
            alone m
              (elim f.1 [
                | err ↦ []
                | ok (next, eos) ↦ (next, eos) ∷ rows_of left (suc step) f.0 next
              ])
              (stream_at id (suc left) step after c))
  unfolding forwarded alone advanced stream_at
  after-forward left step after id c (state', err) ih going oks = let (a, e) = oks.0 in cc
  after-forward left step after id c (state', ok (latent, eos)) ih going oks =
      after-decode left step after id (record c { state = state' }) latent eos
        (decode latent c.mimi_state step) ih going oks
      ∙ ap (map ok) (
          spelled id left step after (record c { state = state' }) eos
            (rows_of left (suc step) state' latent) latent (decode latent c.mimi_state step))

  frames-Agrees :
      (left step after id : ℕ) (c : Reading State Latent MimiState) → Agrees left step after id c
  unfolding Agrees frames rows_of alone
  frames-Agrees zero step after id c going oks = refl
  frames-Agrees (suc left) step after id c going oks =
      let f : State × Result (Latent × Bool) = forward c.state c.backbone_input step in
      let oks' =
        subst
          (λ b. All IsOk (
            if b
            then []
            else (forwarded m s step after c f).0
              ∷ frames m s left (suc step) after (forwarded m s step after c f).1))
          going oks in
      ap
        (λ b.
          if b
          then []
          else (forwarded m s step after c f).0
            ∷ frames m s left (suc step) after (forwarded m s step after c f).1)
        going
      ∙ after-forward left step after id c f (λ c'. frames-Agrees left (suc step) after id c') going
          oks'

  -- If no frame of a segment is an error, its frames are those that the batcher makes of the text's
  -- stream with the same rows of the flow LM: reading alone and in a batch end with the same frame.
  pub segment-alone :
      (prepared text : Text) (id : ℕ) (state : State)
      → All IsOk (segment_frames m s prepared text (ok state))
      → segment_frames m s prepared text (ok state)
        ≡ map ok (
            alone m
              (rows_of (max_gen_len prepared) 0 state m.bos_emb)
              (stream_of m id prepared text))
  unfolding segment_frames new_reading stream_of Agrees stream_at
  segment-alone prepared text id state oks =
      frames-Agrees (max_gen_len prepared) 0 (estimate_frames_after_eos text) id
        (new_reading m s state) refl oks
      ∙ ap
          (λ n. map ok (
            alone m (rows_of (max_gen_len prepared) 0 state m.bos_emb)
              (record (stream_of m id prepared text) { max_gen_len = n })))
          (omega arith)
