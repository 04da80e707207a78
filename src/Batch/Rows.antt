-- ===== src/Batch/Rows.antt =====
-- Row `i` of each cache belongs to `streams[i]`: the caches keep as many rows as there are streams.
use vvaves.Common.{
  ℕ, zero, suc, ◌≡◌, refl, sym, ap, ◌∙◌, subst, ◌⊎◌, inl, inr, Bool, true, false, Option, none,
  some, List, [], ◌∷◌, ◌++◌, map, length, arith, length-append, length-map, Bool-cases,
  Option-cases, ◌==◌,
}
use vvaves.Common.Pieces.{position}
use vvaves.Common.Results.{Result, ok, err}
use vvaves.KvCache.Stacked
use vvaves.KvCache.Stacked.{Stacked, rows, empty, add_row, remove_row}
use vvaves.KvCache.Stacked.Rows.{length-remove_at}
use vvaves.KvCache.Stacked.Count.{rows-empty, rows-add_row, rows-push, rows-remove_row}
use vvaves.Text.Chars.{Text, Unicode}
use vvaves.Text.Prompt.{prepare_text_prompt}
use vvaves.Batch.{
  Model, Stream, Frame, Batcher, add, add_layers, admitted, remove_at, remove, push_layers,
  advance_all, advanced, remove_done, row_or_empty, others, new, stream_of, collected,
}

abbrev pub HaveRows {ℓ} : {A : Type ℓ} → ℕ → List (Stacked A) → Type 0
HaveRows n [] = Unit {0}
HaveRows n (c ∷ cs) = (rows c ≡ n) × HaveRows n cs

module _ {ℓ} {A : Type ℓ} where
  HaveRows-remove_row {κ} :
      {B : Type κ} (cs : List (Stacked A)) (i : ℕ) (ys : List B)
      → HaveRows (length ys) cs
      → HaveRows (length (Stacked.remove_at i ys)) (map (λ c. remove_row c i) cs)
  HaveRows-remove_row [] i ys h = tt
  HaveRows-remove_row (c ∷ cs) i ys (e, h) =
      (rows-remove_row c i ys e, HaveRows-remove_row cs i ys h)

-- There is a cache for each layer, or none before the first stream, and each has as many rows as
-- there are streams.
pub record InStep (m : Model) (b : Batcher m.Item m.Latent m.MimiState) : Type 0 where
  pub layers : (length b.caches ≡ m.num_layers) ⊎ ((b.caches ≡ []) × (length b.streams ≡ 0))
  pub belong : HaveRows (length b.streams) b.caches

module _ (m : Model) where
  open m use {Voice, Item, Latent, MimiState, Audio, Noise, zero_item, to_dtype, num_layers}

  pub new-InStep : InStep m (new m)
  unfolding new
  new-InStep = record { layers = inr (refl, refl); belong = tt }

  pub remove_at-InStep :
      (b : Batcher Item Latent MimiState) (i : ℕ) → InStep m b → InStep m (remove_at m b i)
  unfolding remove_at
  remove_at-InStep b i h = record {
    layers = elim h.layers [
      | inl all ↦ inl (length-map (λ c. remove_row c i) b.caches ∙ all)
      | inr (none_yet, idle) ↦
          inr
            (ap (map (λ c. remove_row c i)) none_yet, length-remove_at {B = ℕ} i b.streams [] idle)
    ];
    belong = HaveRows-remove_row b.caches i b.streams h.belong;
  }

  pub remove-InStep :
      (b : Batcher Item Latent MimiState) (id : ℕ) → InStep m b → InStep m (remove m b id)
  unfolding remove
  remove-InStep b id h = elim (Option-cases (position (λ s. s.id == id) b.streams)) [
    | inl e ↦ rw (e, remove) h
    | inr (i, e) ↦ rw (e, remove) (remove_at-InStep b i h)
  ]

  add_layers-none :
      (n i : ℕ) (read : ℕ → Option (List Item × ℕ)) (cs : List (Stacked Item))
      → read i ≡ none
      → add_layers m (suc n) i read cs ≡ (cs, false)
  unfolding add_layers
  add_layers-none n i read cs e = rw (e, add_layers) refl

  add_layers-some :
      (n i : ℕ) (read : ℕ → Option (List Item × ℕ)) (cs : List (Stacked Item)) (k : List Item)
      (pos : ℕ)
      → read i ≡ some (k, pos)
      → add_layers m (suc n) i read cs ≡ (
        add_row zero_item to_dtype (row_or_empty cs) k pos
            ∷ (add_layers m n (suc i) read (others cs)).0,
        (add_layers m n (suc i) read (others cs)).1,
      )
  unfolding add_layers
  add_layers-some n i read cs k pos e = rw (e, add_layers) refl

  -- What the loop over the layers makes of caches with `k` rows.
  abbrev Grown : ℕ → ℕ → List (Stacked Item) × Bool → Type 0
  Grown n k (cs, whole) = whole ≡ true → (length cs ≡ n) × HaveRows (suc k) cs

  Grown-cons :
      (n k : ℕ) (c : Stacked Item) (items : List Item) (pos : ℕ) (r : List (Stacked Item) × Bool)
      → rows c ≡ k
      → Grown n k r
      → Grown (suc n) k (add_row zero_item to_dtype c items pos ∷ r.0, r.1)
  Grown-cons n k c items pos r e h whole =
      (ap suc (h whole).0, (rows-add_row zero_item to_dtype c items pos ∙ ap suc e, (h whole).1))

  -- The loop over the layers adds a row to each cache, and makes those that are missing.
  add_layers-Grown :
      (n i k : ℕ) (read : ℕ → Option (List Item × ℕ)) (cs : List (Stacked Item))
      → (length cs ≡ n) ⊎ ((cs ≡ []) × (k ≡ 0))
      → HaveRows k cs
      → Grown n k (add_layers m n i read cs)
  unfolding add_layers
  add_layers-Grown zero i k read [] l h = λ w. (refl, tt)
  add_layers-Grown zero i k read (c ∷ cs) (inl l) h = absurd (omega arith)
  add_layers-Grown zero i k read (c ∷ cs) (inr (l, _)) h = cc
  add_layers-Grown (suc n) i k read [] (inl l) h = absurd (omega arith)
  add_layers-Grown (suc n) i k read [] (inr (_, idle)) h = elim (Option-cases (read i)) [
    | inl e ↦ subst (Grown (suc n) k) (sym (add_layers-none n i read [] e)) (λ w. cc)
    | inr ((items, pos), e) ↦
        subst (Grown (suc n) k) (sym (add_layers-some n i read [] items pos e)) (
          Grown-cons n k empty items pos (add_layers m n (suc i) read [])
            (rows-empty Item ∙ sym idle)
            (add_layers-Grown n (suc i) k read [] (inr (refl, idle)) tt))
  ]
  add_layers-Grown (suc n) i k read (c ∷ cs) (inl l) h = elim (Option-cases (read i)) [
    | inl e ↦ subst (Grown (suc n) k) (sym (add_layers-none n i read (c ∷ cs) e)) (λ w. cc)
    | inr ((items, pos), e) ↦
        subst (Grown (suc n) k) (sym (add_layers-some n i read (c ∷ cs) items pos e)) (
          Grown-cons n k c items pos (add_layers m n (suc i) read cs) h.0
            (add_layers-Grown n (suc i) k read cs (inl (omega arith)) h.1))
  ]
  add_layers-Grown (suc n) i k read (c ∷ cs) (inr (l, _)) h = cc

  admitted-InStep :
      (b : Batcher Item Latent MimiState) (prepared text : Text) (r : List (Stacked Item) × Bool)
      (id : ℕ)
      → Grown num_layers (length b.streams) r
      → (admitted m b prepared text r).1 ≡ ok id
      → InStep m (admitted m b prepared text r).0
  unfolding admitted
  admitted-InStep b prepared text (caches', false) id g e = cc
  admitted-InStep b prepared text (caches', true) id g e =
      let s = stream_of m b.next_id prepared text in
      let one_more : length (b.streams ++ (s ∷ [])) ≡ suc (length b.streams) =
        omega (arith, length-append b.streams (s ∷ [])) in
      record {
        layers = inl (g refl).0;
        belong = subst (λ k. HaveRows k caches') (sym one_more) (g refl).1;
      }

  pub add-InStep :
      (u : Unicode) (b : Batcher Item Latent MimiState) (text : Text) (voice : Voice) (id : ℕ)
      → InStep m b
      → (add m u b text voice).1 ≡ ok id
      → InStep m (add m u b text voice).0
  unfolding add
  add-InStep u b text voice id h = prompted-InStep (m.prompted (prepare_text_prompt u text) voice)
    where
      prompted-InStep :
          (p : Result (ℕ → Option (List Item × ℕ)))
          → let r : Batcher Item Latent MimiState × Result ℕ = elim p [
            | err ↦ (b, err)
            | ok read ↦
                admitted m b
                  (prepare_text_prompt u text)
                  text
                  (add_layers m num_layers 0 read b.caches)
          ] in
            r.1 ≡ ok id → InStep m r.0
      prompted-InStep err = λ e. cc
      prompted-InStep (ok read) =
          admitted-InStep b (prepare_text_prompt u text) text
            (add_layers m num_layers 0 read b.caches) id
            (add_layers-Grown num_layers 0 (length b.streams) read b.caches h.layers h.belong)

  pub HaveRows-push_layers :
      (n : ℕ) (cs : List (Stacked Item)) (items : List (List Item))
      → HaveRows n cs
      → HaveRows n (push_layers m cs items)
  unfolding push_layers
  HaveRows-push_layers n [] items h = tt
  HaveRows-push_layers n (c ∷ cs) [] h = h
  HaveRows-push_layers n (c ∷ cs) (ks ∷ items) (e, h) =
      (rows-push zero_item to_dtype c ks ∙ e, HaveRows-push_layers n cs items h)

  pub length-push_layers :
      (cs : List (Stacked Item)) (items : List (List Item))
      → length (push_layers m cs items) ≡ length cs
  unfolding push_layers
  length-push_layers [] items = refl
  length-push_layers (c ∷ cs) [] = refl
  length-push_layers (c ∷ cs) (ks ∷ items) = ap suc (length-push_layers cs items)

  length-collected :
      (a : Stream Latent MimiState × Result (Frame Audio))
      (r : List (Stream Latent MimiState) × Result (List (Frame Audio)))
      → length (collected m a r).0 ≡ suc (length r.0)
  length-collected (s, ok frame) (ss, ok frames) = refl
  length-collected (s, ok frame) (ss, err) = refl
  length-collected (s, err) (ss, r) = refl

  pub length-advance_all :
      (ss : List (Stream Latent MimiState)) (rs : List (Latent × Bool))
      → length (advance_all m ss rs).0 ≡ length ss
  unfolding advance_all
  length-advance_all [] rs = refl
  length-advance_all (s ∷ ss) [] = refl
  length-advance_all (s ∷ ss) ((latent, eos) ∷ rs) =
      length-collected (advanced m s latent eos (m.decode latent s.mimi_state s.step))
        (advance_all m ss rs)
      ∙ ap suc (length-advance_all ss rs)

  pub remove_done-InStep :
      (i : ℕ) (frames : List (Frame Audio)) (b : Batcher Item Latent MimiState)
      → InStep m b
      → InStep m (remove_done m i frames b)
  unfolding remove_done
  remove_done-InStep i [] b h = h
  remove_done-InStep i (frame ∷ frames) b h =
      let rest = remove_done-InStep (suc i) frames b h in
      elim (Bool-cases frame.done) [
        | inl e ↦ rw e (remove_at-InStep (remove_done m (suc i) frames b) i rest)
        | inr e ↦ rw e rest
      ]
