-- ===== src/Batch/Calls.antt =====
-- Any sequence of calls on a `Batcher`.
use vvaves.Common.{
  ℕ, ◌≡◌, refl, sym, ap, ◌∙◌, subst, inl, inr, Bool, List, [], ◌∷◌, map, length, is_empty,
  Bool-cases, arith,
}
use vvaves.Common.Results.{Result, ok, err}
use vvaves.KvCache.Stacked.{Stacked}
use vvaves.Text.Chars.{Text, Unicode}
use vvaves.Batch.{
  Model, Stream, Frame, Batcher, add, remove, push_layers, advance_all, settled, stepped, step, new,
}
use vvaves.Batch.Rows.{
  HaveRows, InStep, new-InStep, add-InStep, remove-InStep, remove_done-InStep, HaveRows-push_layers,
  length-push_layers, length-advance_all,
}

module _ (m : Model) where
  open m use {Voice, Item, Latent, MimiState, Audio, Noise, zero_item, num_layers}

  replaced-InStep :
      (b : Batcher Item Latent MimiState) (cs : List (Stacked Item))
      (ss : List (Stream Latent MimiState))
      → length cs ≡ length b.caches
      → HaveRows (length b.streams) cs
      → length ss ≡ length b.streams
      → InStep m b
      → InStep m (record b { caches = cs; streams = ss })
  replaced-InStep b cs ss e rows same h = record {
    layers = elim h.layers [
      | inl all ↦ inl (e ∙ all)
      | inr (none_yet, idle) ↦ inr (no_items cs (e ∙ ap length none_yet), same ∙ idle)
    ];
    belong = subst (λ k. HaveRows k cs) (sym same) rows;
  }
    where
      no_items : (xs : List (Stacked Item)) → length xs ≡ 0 → xs ≡ []
      no_items [] z = refl
      no_items (x ∷ xs) z = absurd (omega arith)

  settled-InStep :
      (b : Batcher Item Latent MimiState) (ss : List (Stream Latent MimiState))
      (r : Result (List (Frame Audio)))
      → InStep m (record b { streams = ss })
      → InStep m (settled m b (ss, r)).0
  unfolding settled
  settled-InStep b ss err h = h
  settled-InStep b ss (ok frames) h = remove_done-InStep m 0 frames (record b { streams = ss }) h

  stepped-InStep :
      (b : Batcher Item Latent MimiState) (items : List (List Item))
      (r : Result (List (Latent × Bool)))
      → InStep m b
      → InStep m (stepped m b (items, r)).0
  unfolding stepped
  stepped-InStep b items err h =
      replaced-InStep b (push_layers m b.caches items) b.streams
        (length-push_layers m b.caches items)
        (HaveRows-push_layers m (length b.streams) b.caches items h.belong) refl h
  stepped-InStep b items (ok rows) h =
      settled-InStep (record b { caches = push_layers m b.caches items })
        (advance_all m b.streams rows).0 (advance_all m b.streams rows).1
        (replaced-InStep b (push_layers m b.caches items) (advance_all m b.streams rows).0
          (length-push_layers m b.caches items)
          (HaveRows-push_layers m (length b.streams) b.caches items h.belong)
          (length-advance_all m b.streams rows) h)

  step-InStep :
      (noise : Noise) (b : Batcher Item Latent MimiState) → InStep m b → InStep m (step m noise b).0
  unfolding step
  step-InStep noise b h = elim (Bool-cases (is_empty b.streams)) [
    | inl e ↦ rw (e, step) h
    | inr e ↦
        let (items, r) = m.forward_stacked noise (map (λ s. s.backbone_input) b.streams) b.caches in
        rw (e, step) (stepped-InStep b items r h)
  ]

  settled-kept :
      (b b' : Batcher Item Latent MimiState)
      (r : List (Stream Latent MimiState) × Result (List (Frame Audio)))
      → settled m b r ≡ (b', err)
      → r.0 ≡ b'.streams
  unfolding settled
  settled-kept b b' (ss, err) e = ap (λ p. p.0.streams) e
  settled-kept b b' (ss, ok frames) e = cc

  stepped-kept :
      (b b' : Batcher Item Latent MimiState) (r : List (List Item) × Result (List (Latent × Bool)))
      → stepped m b r ≡ (b', err)
      → length b'.streams ≡ length b.streams
  unfolding stepped
  stepped-kept b b' (items, err) e = ap (λ p. length p.0.streams) (sym e)
  stepped-kept b b' (items, ok rows) e =
      ap length (
        sym (
          settled-kept (record b { caches = push_layers m b.caches items }) b'
            (advance_all m b.streams rows) e))
      ∙ length-advance_all m b.streams rows

  -- A step that fails takes no stream out: as many are left as there were.
  pub failed_step-streams :
      (noise : Noise) (b b' : Batcher Item Latent MimiState)
      → step m noise b ≡ (b', err)
      → length b'.streams ≡ length b.streams
  unfolding step
  failed_step-streams noise b b' e = elim (Bool-cases (is_empty b.streams)) [
    | inl h ↦ ap (λ p. length p.0.streams) (sym e) ∙ rw (h, step) refl
    | inr h ↦
        stepped-kept b b' (m.forward_stacked noise (map (λ s. s.backbone_input) b.streams) b.caches)
          (sym (rw (h, step) refl) ∙ e)
  ]

  -- The batchers that calls can make of a new one. An `add` is one that went well: one that fails
  -- before the loop over the layers changes nothing.
  pub data Reached (u : Unicode) : Batcher Item Latent MimiState → Type 0 where
    made : Reached u (new m)
    added :
        (b : Batcher Item Latent MimiState) (text : Text) (voice : Voice) (id : ℕ)
        → Reached u b
        → (add m u b text voice).1 ≡ ok id
        → Reached u (add m u b text voice).0
    removed : (b : Batcher Item Latent MimiState) (id : ℕ) → Reached u b → Reached u (remove m b id)
    moved_on :
        (b : Batcher Item Latent MimiState) (noise : Noise)
        → Reached u b
        → Reached u (step m noise b).0

  -- However a batcher was reached by `add`s that went well, `remove`s and `step`s, the failing
  -- steps too: there is a cache for each layer (or none, if no stream was ever added), and each
  -- cache has as many rows as there are streams.
  pub Reached-InStep : (u : Unicode) (b : Batcher Item Latent MimiState) → Reached u b → InStep m b
  Reached-InStep u b made = new-InStep m
  Reached-InStep u b (added b0 text voice id r e) =
      add-InStep m u b0 text voice id (Reached-InStep u b0 r) e
  Reached-InStep u b (removed b0 id r) = remove-InStep m b0 id (Reached-InStep u b0 r)
  Reached-InStep u b (moved_on b0 noise r) = step-InStep noise b0 (Reached-InStep u b0 r)
