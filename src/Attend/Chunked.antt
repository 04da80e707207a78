-- ===== src/Attend/Chunked.antt =====
-- Attention over keys and values that come in chunks is attention over all of them at once.
use vvaves.Common.{
  ℕ, suc, ◌+◌, ◌-◌, ◌≡◌, refl, ap, ap₂, sym, ◌∙◌, Bool, Option, replicate, List, [], ◌∷◌, ◌++◌, map,
  concat, length, take, drop, append-nil, arith, map-append, length-append,
}
use vvaves.Attend.{
  Kernel, masked, weighed, scores_of, naive, sdpa_chunked, score_chunks, weigh_chunks, total,
  can_skip_mask_for_single_query,
}
use vvaves.Attend.Masked.{seen_row, attention, naive-attention}

module _ {Query Key Value : Type 0} (m : Kernel Query Key Value) where
  open m use {F, Out, score, add, zero_score, softmax, weigh, plus, zero_out}

  score_chunks-concat :
      (x : Query) (ks : List (List Key)) → score_chunks m x ks ≡ map (score x) (concat ks)
  unfolding score_chunks
  score_chunks-concat x [] = refl
  score_chunks-concat x (k ∷ ks) =
      ap (λ l. map (score x) k ++ l) (score_chunks-concat x ks)
      ∙ sym (map-append (score x) k (concat ks))

  all_scores :
      (q : List Query) (ks : List (List Key))
      → map (λ x. score_chunks m x ks) q ≡ scores_of m q (concat ks)
  unfolding scores_of
  all_scores [] ks = refl
  all_scores (x ∷ q) ks = ap₂ ◌∷◌ (score_chunks-concat x ks) (all_scores q ks)

  total-concat : {A : Type 0} → (xss : List (List A)) → total m xss ≡ length (concat xss)
  total-concat [] = refl
  total-concat (xs ∷ xss) =
      ap (λ n. length xs + n) (total-concat xss) ∙ sym (length-append xs (concat xss))

  module _ (add-zero : (x : F) → add x zero_score ≡ x)
      (weigh-none : (probs : List F) → weigh probs [] ≡ zero_out)
      (weigh-append : (probs : List F) (v w : List Value)
        → weigh probs (v ++ w)
          ≡ plus (weigh (take (length v) probs) v) (weigh (drop (length v) probs) w))
      (plus-assoc : (a b c : Out) → plus (plus a b) c ≡ plus a (plus b c))
      (plus-zero : (a : Out) → plus a zero_out ≡ a)
      (zero-plus : (a : Out) → plus zero_out a ≡ a) where
    weigh_chunks-sum :
        (probs : List F) (vs : List (List Value)) (output : Out)
        → weigh_chunks m probs vs output ≡ plus output (weigh probs (concat vs))
    unfolding weigh_chunks
    weigh_chunks-sum probs [] output = sym (ap (plus output) (weigh-none probs) ∙ plus-zero output)
    weigh_chunks-sum probs (v ∷ vs) output =
        let here : Out = weigh (take (length v) probs) v in
        let rest : Out = weigh (drop (length v) probs) (concat vs) in
        weigh_chunks-sum (drop (length v) probs) vs (plus output here)
        ∙ plus-assoc output here rest
        ∙ ap (plus output) (sym (weigh-append probs v (concat vs)))

    weigh_chunks-weighed :
        (vs : List (List Value)) (rows : List (List F))
        → map (λ row. weigh_chunks m (softmax row) vs zero_out) rows ≡ weighed m (concat vs) rows
    unfolding weighed
    weigh_chunks-weighed vs [] = refl
    weigh_chunks-weighed vs (row ∷ rows) =
        ap₂ ◌∷◌
          (weigh_chunks-sum (softmax row) vs zero_out ∙ zero-plus (weigh (softmax row) (concat vs)))
          (weigh_chunks-weighed vs rows)

    no_keys :
        (q : List Query) (is_causal : Bool) (ctx : Option ℕ) (pos_q : ℕ)
        → replicate (length q) zero_out ≡ attention m q [] [] is_causal ctx pos_q
    unfolding attention seen_row
    no_keys [] is_causal ctx pos_q = refl
    no_keys (x ∷ q) is_causal ctx pos_q =
        ap₂ ◌∷◌ (sym (weigh-none (softmax []))) (no_keys q is_causal ctx (suc pos_q))

    -- The path for several chunks.
    several :
        (q : List Query) (ks : List (List Key)) (vs : List (List Value)) (is_causal : Bool)
        (ctx : Option ℕ)
        → map
            (λ row. weigh_chunks m (softmax row) vs zero_out)
            (masked m
              (can_skip_mask_for_single_query (length q) (total m ks) is_causal ctx)
              0
              (length q)
              (total m ks)
              (length q)
              is_causal
              ctx
              (map (λ x. score_chunks m x ks) q))
          ≡ naive m q (concat ks) (concat vs) is_causal ctx
    unfolding naive
    several q ks vs is_causal ctx =
        rw (total-concat ks, all_scores q ks)
          (weigh_chunks-weighed vs (
            masked m (can_skip_mask_for_single_query (length q) (length (concat ks)) is_causal ctx)
              0 (length q) (length (concat ks)) (length q) is_causal ctx
              (scores_of m q (concat ks))))

    at_end :
        (q : List Query) (k : List Key) (v : List Value) (is_causal : Bool) (ctx : Option ℕ)
        → naive m q k v is_causal ctx ≡ attention m q k v is_causal ctx (length k - length q)
    at_end q k v is_causal ctx =
        let none_before : 0 + (length k - length q) ≡ length k - length q = omega arith in
        naive-attention m add-zero q k v is_causal ctx
        ∙ ap (attention m q k v is_causal ctx) none_before

    -- Attention over keys and values in chunks, as many of the values as of the keys, is attention
    -- over their concatenation, if adding 0 changes no score and sums are exact: a row times values
    -- is the sum over two parts of them, that times none is 0, and `+` is associative with 0.
    pub sdpa_chunked-attention :
        (q : List Query) (ks : List (List Key)) (vs : List (List Value)) (is_causal : Bool)
        (ctx : Option ℕ)
        → length ks ≡ length vs
        → sdpa_chunked m q ks vs is_causal ctx
          ≡ attention m q (concat ks) (concat vs) is_causal ctx (length (concat ks) - length q)
    unfolding sdpa_chunked
    sdpa_chunked-attention q [] [] is_causal ctx h = no_keys q is_causal ctx (0 - length q)
    sdpa_chunked-attention q [] (v ∷ vs) is_causal ctx h = absurd (omega (arith, h))
    sdpa_chunked-attention q (k ∷ []) [] is_causal ctx h = absurd (omega (arith, h))
    sdpa_chunked-attention q (k ∷ []) (v ∷ []) is_causal ctx h =
        rw (append-nil k, append-nil v) (at_end q k v is_causal ctx)
    sdpa_chunked-attention q (k ∷ []) (v ∷ v2 ∷ vs) is_causal ctx h = absurd (omega (arith, h))
    sdpa_chunked-attention q (k ∷ k2 ∷ ks) vs is_causal ctx h =
        several q (k ∷ k2 ∷ ks) vs is_causal ctx
        ∙ at_end q (concat (k ∷ k2 ∷ ks)) (concat vs) is_causal ctx
