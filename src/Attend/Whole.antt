-- ===== src/Attend/Whole.antt =====
-- Attention tile by tile and over chunks of keys is attention over all at once.
use vvaves.Common.{
  drop-none, ℕ, zero, suc, ◌+◌, ◌-◌, ◌≤◌, ◌≡◌, refl, ap, ap₂, sym, ◌∙◌, Bool, Option, List, [], ◌∷◌,
  ◌++◌, length, take, drop, leb, ltb, arith, Bool-cases, inl, inr, leb→le, leb→gt, take-append-drop,
  length-take, length-drop,
}
use vvaves.Attend.{Kernel, block_size, tiling_threshold, weighed, tiles, sdpa}
use vvaves.Attend.Masked.{attention, weighed-seen, attention-append, masked-seen, naive-attention}

module _ {Query Key Value : Type 0} (m : Kernel Query Key Value) where
  open m use {F, Out, score, add, zero_score, neg_infinity, softmax, weigh, plus, zero_out}

  module _ (add-zero : (x : F) → add x zero_score ≡ x) where
    -- The rest behind a block starts where the block ends, or is empty.
    later :
        (q : List Query) (start shift : ℕ) (k : List Key) (v : List Value) (is_causal : Bool)
        (ctx : Option ℕ)
        → attention m (drop block_size q) k v is_causal ctx ((start + block_size) + shift)
          ≡ attention m
              (drop block_size q)
              k
              v
              is_causal
              ctx
              ((start + shift) + length (take block_size q))
    unfolding attention
    later q start shift k v is_causal ctx = elim (Bool-cases (leb block_size (length q))) [
      | inl y ↦
          ap (attention m (drop block_size q) k v is_causal ctx)
            (omega (arith, leb→le block_size (length q) y, length-take block_size q))
      | inr y ↦ rw (drop-none block_size q (omega (arith, leb→gt block_size (length q) y))) refl
    ]

    tiles-attention :
        (fuel : ℕ) (q : List Query) (start q_len : ℕ) (k : List Key) (v : List Value)
        (is_causal : Bool) (ctx : Option ℕ)
        → length q ≤ fuel
        → tiles m fuel start q_len q k v is_causal ctx
          ≡ attention m q k v is_causal ctx (start + (length k - q_len))
    unfolding tiles attention
    tiles-attention zero [] start q_len k v is_causal ctx h = refl
    tiles-attention zero (x ∷ q) start q_len k v is_causal ctx h = absurd (omega arith)
    tiles-attention (suc fuel) [] start q_len k v is_causal ctx h = refl
    tiles-attention (suc fuel) (x ∷ q) start q_len k v is_causal ctx h =
        let block : List Query = take block_size (x ∷ q) in
        let rest : List Query = drop block_size (x ∷ q) in
        let shift : ℕ = length k - q_len in
        let short : length rest ≤ fuel = omega (arith, length-drop block_size (x ∷ q)) in
        ap₂ ◌++◌
          (ap (weighed m v) (masked-seen m add-zero block k start q_len is_causal ctx)
            ∙ weighed-seen m block k v is_causal ctx (start + shift))
          (tiles-attention fuel rest (start + block_size) q_len k v is_causal ctx short
            ∙ later (x ∷ q) start shift k v is_causal ctx)
        ∙ sym (attention-append m block rest k v is_causal ctx (start + shift))
        ∙ ap (λ l. attention m l k v is_causal ctx (start + shift))
            (take-append-drop block_size (x ∷ q))

    -- `sdpa` is attention in which each query sees the keys that the mask leaves, whatever path is
    -- taken, if adding 0 changes no score: the queries stand at the end of the keys, and a key is
    -- hidden if it is later under a causal mask or out of the window.
    pub sdpa-attention :
        (q : List Query) (k : List Key) (v : List Value) (is_causal : Bool) (ctx : Option ℕ)
        → sdpa m q k v is_causal ctx ≡ attention m q k v is_causal ctx (length k - length q)
    unfolding sdpa
    sdpa-attention q k v is_causal ctx =
        let none_before : 0 + (length k - length q) ≡ length k - length q = omega arith in
        elim (Bool-cases (ltb (length q) tiling_threshold)) [
          | inl y ↦ rw y (
              naive-attention m add-zero q k v is_causal ctx
              ∙ ap (attention m q k v is_causal ctx) none_before)
          | inr y ↦ rw y (
              tiles-attention (length q) q 0 (length q) k v is_causal ctx (omega arith)
              ∙ ap (attention m q k v is_causal ctx) none_before)
        ]
