-- ===== src/Batch.antt =====
-- apps/tts/crates/engine/src/batch.rs: the streams that advance together, one frame at a step.
pub mod Rows
pub mod Calls
pub mod Survivors
pub mod Ends
mod Examples
use vvaves.Common.{
  ℕ, zero, suc, ◌+◌, ◌*◌, ◌%◌, ◌^◌, Bool, true, false, not, ◌&&◌, ◌||◌, Option, none, some, List,
  [], ◌∷◌, ◌++◌, map, leb, ◌==◌, if◌then◌else◌, is_empty,
}
use vvaves.Common.Pieces.{position}
use vvaves.Common.Results.{Result, ok, err}
use vvaves.KvCache.Stacked
use vvaves.KvCache.Stacked.{Stacked, empty, add_row, remove_row}
use vvaves.Text.Chars.{Text, Unicode}
use vvaves.Text.Prompt.{prepare_text_prompt, max_gen_len, estimate_frames_after_eos}

-- The tensor code that the batcher calls. An item is the key and value of one time step.
pub record Model : Type 1 where
  pub Voice : Type 0
  pub Item : Type 0
  pub Latent : Type 0
  pub MimiState : Type 0
  pub Audio : Type 0
  -- The draw of the sampling noise of one step.
  pub Noise : Type 0
  pub zero_item : Item
  -- An item in the type of the caches.
  pub to_dtype : Item → Item
  pub bos_emb : Latent
  pub init_states : MimiState
  pub num_layers : ℕ
  -- A copy of the voice state, prompted: the items of each layer, up to its cursor, and the
  -- cursor's position; none where the state lacks the layer or its buffers cannot be read.
  pub prompted : Text → Voice → Result (ℕ → Option (List Item × ℕ))
  -- `forward_stacked`: the items pushed to the caches of the layers it reached, and, unless it
  -- failed, the latent and the end-of-speech flag of each row.
  pub forward_stacked :
      Noise → List Latent → List (Stacked Item) → List (List Item) × Result (List (Latent × Bool))
  -- A latent without the normalisation, quantised and decoded.
  pub decode : Latent → MimiState → ℕ → MimiState × Result Audio

pub record Stream (Latent MimiState : Type 0) : Type 0 where
  pub id : ℕ
  pub mimi_state : MimiState
  pub backbone_input : Latent
  pub step : ℕ
  pub max_gen_len : ℕ
  pub frames_after_eos : ℕ
  pub eos_step : Option ℕ

pub record Frame (Audio : Type 0) : Type 0 where
  pub id : ℕ
  pub audio : Audio
  pub done : Bool

pub record Batcher (Item Latent MimiState : Type 0) : Type 0 where
  -- One cache for each layer of the flow LM.
  pub caches : List (Stacked Item)
  pub streams : List (Stream Latent MimiState)
  pub next_id : ℕ

-- `is_some_and(|e| step >= e + after)`
abbrev pub past_eos : Option ℕ → ℕ → ℕ → Bool
past_eos none step after = false
past_eos (some e) step after = leb (e + after) step

-- `eos[i] && eos_step.is_none()`, and the assignment.
abbrev pub mark_eos : Bool → Option ℕ → ℕ → Option ℕ
mark_eos true none step = some step
mark_eos true (some e) step = some e
mark_eos false e step = e

abbrev pub row_or_empty {ℓ} : {A : Type ℓ} → List (Stacked A) → Stacked A
row_or_empty [] = empty
row_or_empty (c ∷ cs) = c

abbrev pub others {ℓ} : {A : Type ℓ} → List A → List A
others [] = []
others (x ∷ xs) = xs

module _ (m : Model) where
  open m use {
    Voice, Item, Latent, MimiState, Audio, Noise, zero_item, to_dtype, bos_emb, init_states,
    num_layers, prompted, forward_stacked, decode,
  }

  pub new : Batcher Item Latent MimiState
  new = record { caches = []; streams = []; next_id = 0 }

  -- The loop of `add` over the layers from the i-th on, `n` of them left, and whether it went
  -- through. A layer past the caches gets an empty one first.
  pub add_layers :
      ℕ → ℕ → (ℕ → Option (List Item × ℕ)) → List (Stacked Item) → List (Stacked Item) × Bool
  add_layers zero i read caches = (caches, true)
  add_layers (suc n) i read caches = elim (read i) [
    | none ↦ (caches, false)
    | some (k, pos) ↦
        let (rest, whole) = add_layers n (suc i) read (others caches) in
        (add_row zero_item to_dtype (row_or_empty caches) k pos ∷ rest, whole)
  ]

  unfoldable pub stream_of : ℕ → Text → Text → Stream Latent MimiState
  stream_of id prepared text = record {
    id = id;
    mimi_state = init_states;
    backbone_input = bos_emb;
    step = 0;
    max_gen_len = max_gen_len prepared;
    frames_after_eos = estimate_frames_after_eos text;
    eos_step = none;
  }

  pub admitted :
      Batcher Item Latent MimiState
      → Text
      → Text
      → List (Stacked Item) × Bool
      → Batcher Item Latent MimiState × Result ℕ
  unfolding stream_of
  admitted b prepared text (caches', false) = (record b { caches = caches' }, err)
  admitted b prepared text (caches', true) = (
    record {
      caches = caches';
      streams = b.streams ++ (stream_of b.next_id prepared text ∷ []);
      next_id = (b.next_id + 1) % 2 ^ 64;
    },
    ok b.next_id,
  )

  pub add :
      Unicode
      → Batcher Item Latent MimiState
      → Text
      → Voice
      → Batcher Item Latent MimiState × Result ℕ
  unfolding admitted add_layers
  add u b text voice =
      let prepared = prepare_text_prompt u text in
      elim (prompted prepared voice) [
        | err ↦ (b, err)
        | ok read ↦ admitted b prepared text (add_layers num_layers 0 read b.caches)
      ]

  pub remove_at : Batcher Item Latent MimiState → ℕ → Batcher Item Latent MimiState
  remove_at b i = record b {
    caches = map (λ c. remove_row c i) b.caches;
    streams = Stacked.remove_at i b.streams;
  }

  pub remove : Batcher Item Latent MimiState → ℕ → Batcher Item Latent MimiState
  unfolding remove_at
  remove b id = elim (position (λ s. s.id == id) b.streams) [ none ↦ b | some i ↦ remove_at b i ]

  -- What `forward_stacked` pushes, layer by layer.
  pub push_layers : List (Stacked Item) → List (List Item) → List (Stacked Item)
  push_layers [] items = []
  push_layers (c ∷ cs) [] = c ∷ cs
  push_layers (c ∷ cs) (ks ∷ items) = Stacked.push zero_item to_dtype c ks ∷ push_layers cs items

  -- Whether the frame of a stream's current step is its last.
  unfoldable pub is_done : Stream Latent MimiState → Bool → Bool
  is_done s eos =
      past_eos (mark_eos eos s.eos_step s.step) s.step s.frames_after_eos
      || leb s.max_gen_len (s.step + 1)

  -- The closure over a stream, after the decoding.
  unfoldable pub advanced :
      Stream Latent MimiState
      → Latent
      → Bool
      → MimiState × Result Audio
      → Stream Latent MimiState × Result (Frame Audio)
  unfolding is_done
  advanced s latent eos (mimi_state', err) = (record s { mimi_state = mimi_state' }, err)
  advanced s latent eos (mimi_state', ok audio) = (
    record s {
      mimi_state = mimi_state';
      backbone_input = latent;
      step = s.step + 1;
      eos_step = mark_eos eos s.eos_step s.step;
    },
    ok (record { id = s.id; audio = audio; done = is_done s eos }),
  )

  -- `collect` of the frame of one stream with those of the others.
  abbrev pub collected :
      Stream Latent MimiState × Result (Frame Audio)
      → List (Stream Latent MimiState) × Result (List (Frame Audio))
      → List (Stream Latent MimiState) × Result (List (Frame Audio))
  collected (s, ok frame) (ss, ok frames) = (s ∷ ss, ok (frame ∷ frames))
  collected (s, ok frame) (ss, err) = (s ∷ ss, err)
  collected (s, err) (ss, r) = (s ∷ ss, err)

  -- The streams advanced in parallel, and the frames of all or an error. A row that is missing is
  -- an error.
  pub advance_all :
      List (Stream Latent MimiState)
      → List (Latent × Bool)
      → List (Stream Latent MimiState) × Result (List (Frame Audio))
  unfolding advanced
  advance_all [] rows = ([], ok [])
  advance_all (s ∷ ss) [] = (s ∷ ss, err)
  advance_all (s ∷ ss) ((latent, eos) ∷ rows) =
      collected (advanced s latent eos (decode latent s.mimi_state s.step)) (advance_all ss rows)

  -- The loop over the frames from the last to the i-th.
  pub remove_done :
      ℕ → List (Frame Audio) → Batcher Item Latent MimiState → Batcher Item Latent MimiState
  unfolding remove_at
  remove_done i [] b = b
  remove_done i (frame ∷ frames) b =
      let b' = remove_done (suc i) frames b in if frame.done then remove_at b' i else b'

  pub settled :
      Batcher Item Latent MimiState
      → List (Stream Latent MimiState) × Result (List (Frame Audio))
      → Batcher Item Latent MimiState × Result (List (Frame Audio))
  unfolding remove_done
  settled b (streams', err) = (record b { streams = streams' }, err)
  settled b (streams', ok frames) =
      (remove_done 0 frames (record b { streams = streams' }), ok frames)

  pub stepped :
      Batcher Item Latent MimiState
      → List (List Item) × Result (List (Latent × Bool))
      → Batcher Item Latent MimiState × Result (List (Frame Audio))
  unfolding settled push_layers advance_all
  stepped b (items, err) = (record b { caches = push_layers b.caches items }, err)
  stepped b (items, ok rows) =
      settled (record b { caches = push_layers b.caches items }) (advance_all b.streams rows)

  pub step :
      Noise
      → Batcher Item Latent MimiState
      → Batcher Item Latent MimiState × Result (List (Frame Audio))
  unfolding stepped
  step noise b =
      if is_empty b.streams
      then (b, ok [])
      else stepped b (forward_stacked noise (map (λ s. s.backbone_input) b.streams) b.caches)
