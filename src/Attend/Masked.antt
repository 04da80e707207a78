-- ===== src/Attend/Masked.antt =====
-- What attention is to compute: each query sees the keys that the mask leaves, one after the other.
use vvaves.Common.{
  leb, ℕ, suc, ◌+◌, ◌-◌, ◌<◌, ◌≡◌, refl, ap, ap₂, ◌∙◌, Bool, true, false, ◌&&◌, ◌||◌, Option, none,
  some, List, [], ◌∷◌, ◌++◌, map, length, ltb, if◌then◌else◌, arith, Bool-cases, inl, inr,
}
use vvaves.Attend.{
  Kernel, can_skip_mask_for_single_query, is_out, mask_entry, mask_row, mask_rows,
  generate_mask_chunk, add_row, add_mask, scores_of, masked, weighed, naive,
}

-- A key at least the window's width before the query.
abbrev is_old : Option ℕ → ℕ → ℕ → Bool
is_old none pos_q pos_k = false
is_old (some w) pos_q pos_k = leb (pos_k + w) pos_q

-- A key that a query does not see: a later one under a causal mask, or one out of the window.
unfoldable pub is_hidden : Bool → Option ℕ → ℕ → ℕ → Bool
is_hidden is_causal ctx pos_q pos_k = (is_causal && ltb pos_q pos_k) || is_old ctx pos_q pos_k

is_out-old : (ctx : Option ℕ) (pos_q pos_k : ℕ) → is_out ctx pos_q pos_k ≡ is_old ctx pos_q pos_k
is_out-old none pos_q pos_k = refl
is_out-old (some w) pos_q pos_k = refl

module _ {Query Key Value : Type 0} (m : Kernel Query Key Value) where
  open m use {F, Out, score, add, zero_score, neg_infinity, softmax, weigh}

  -- The scores of a query against the keys from the `pos_k`-th on; a hidden one is lowered to the
  -- bottom.
  unfoldable pub seen_row : List Key → Query → Bool → Option ℕ → ℕ → ℕ → List F
  unfolding is_hidden
  seen_row [] x is_causal ctx pos_q pos_k = []
  seen_row (k ∷ ks) x is_causal ctx pos_q pos_k =
      (if is_hidden is_causal ctx pos_q pos_k then add (score x k) neg_infinity else score x k)
      ∷ seen_row ks x is_causal ctx pos_q (suc pos_k)

  pub seen_rows : List Query → List Key → Bool → Option ℕ → ℕ → List (List F)
  unfolding seen_row
  seen_rows [] k is_causal ctx pos_q = []
  seen_rows (x ∷ q) k is_causal ctx pos_q =
      seen_row k x is_causal ctx pos_q 0 ∷ seen_rows q k is_causal ctx (suc pos_q)

  -- Attention of the queries from a position on.
  unfoldable pub attention : List Query → List Key → List Value → Bool → Option ℕ → ℕ → List Out
  unfolding seen_row
  attention [] k v is_causal ctx pos_q = []
  attention (x ∷ q) k v is_causal ctx pos_q =
      weigh (softmax (seen_row k x is_causal ctx pos_q 0)) v
      ∷ attention q k v is_causal ctx (suc pos_q)

  pub weighed-seen :
      (q : List Query) (k : List Key) (v : List Value) (is_causal : Bool) (ctx : Option ℕ)
      (pos_q : ℕ)
      → weighed m v (seen_rows q k is_causal ctx pos_q) ≡ attention q k v is_causal ctx pos_q
  unfolding weighed seen_rows attention
  weighed-seen [] k v is_causal ctx pos_q = refl
  weighed-seen (x ∷ q) k v is_causal ctx pos_q =
      ap (λ l. weigh (softmax (seen_row k x is_causal ctx pos_q 0)) v ∷ l)
        (weighed-seen q k v is_causal ctx (suc pos_q))

  pub attention-append :
      (q r : List Query) (k : List Key) (v : List Value) (is_causal : Bool) (ctx : Option ℕ)
      (pos_q : ℕ)
      → attention (q ++ r) k v is_causal ctx pos_q
        ≡ attention q k v is_causal ctx pos_q ++ attention r k v is_causal ctx (pos_q + length q)
  unfolding attention
  attention-append [] r k v is_causal ctx pos_q = ap (attention r k v is_causal ctx) (omega arith)
  attention-append (x ∷ q) r k v is_causal ctx pos_q =
      let e : suc pos_q + length q ≡ pos_q + suc (length q) = omega arith in
      ap (λ l. weigh (softmax (seen_row k x is_causal ctx pos_q 0)) v ∷ l)
        (attention-append q r k v is_causal ctx (suc pos_q)
          ∙ ap (λ p. attention q k v is_causal ctx (suc pos_q) ++ attention r k v is_causal ctx p)
              e)

  -- A query that sees every key gets its scores as they are.
  pub all-seen :
      (ks : List Key) (x : Query) (is_causal : Bool) (ctx : Option ℕ) (pos_q pos_k : ℕ)
      → ((j : ℕ) → j < pos_k + length ks → is_hidden is_causal ctx pos_q j ≡ false)
      → map (score x) ks ≡ seen_row ks x is_causal ctx pos_q pos_k
  unfolding seen_row
  all-seen [] x is_causal ctx pos_q pos_k open_ = refl
  all-seen (k ∷ ks) x is_causal ctx pos_q pos_k open_ = rw (open_ pos_k (omega arith)) (
      ap (λ l. score x k ∷ l)
        (all-seen ks x is_causal ctx pos_q (suc pos_k) (λ j h. open_ j (omega (arith, h)))))

  module _ (add-zero : (x : F) → add x zero_score ≡ x) where
    add-entry :
        (y : F) (late out : Bool)
        → add y (if out then neg_infinity else (if late then neg_infinity else zero_score))
          ≡ (if late || out then add y neg_infinity else y)
    add-entry y true true = refl
    add-entry y true false = refl
    add-entry y false true = refl
    add-entry y false false = add-zero y

    add_row-seen :
        (ks : List Key) (x : Query) (is_causal : Bool) (ctx : Option ℕ) (pos_q pos_k : ℕ)
        → add_row m (map (score x) ks) (mask_row m (length ks) is_causal ctx pos_q pos_k)
          ≡ seen_row ks x is_causal ctx pos_q pos_k
    unfolding add_row mask_row mask_entry seen_row is_hidden
    add_row-seen [] x is_causal ctx pos_q pos_k = refl
    add_row-seen (k ∷ ks) x is_causal ctx pos_q pos_k =
        ap₂ ◌∷◌
          (add-entry (score x k) (is_causal && ltb pos_q pos_k) (is_out ctx pos_q pos_k)
            ∙ ap
                (λ b.
                  if (is_causal && ltb pos_q pos_k) || b
                  then add (score x k) neg_infinity
                  else score x k)
                (is_out-old ctx pos_q pos_k))
          (add_row-seen ks x is_causal ctx pos_q (suc pos_k))

    add_mask-seen :
        (q : List Query) (k : List Key) (is_causal : Bool) (ctx : Option ℕ) (pos_q : ℕ)
        → add_mask m (scores_of m q k) (mask_rows m (length q) (length k) is_causal ctx pos_q)
          ≡ seen_rows q k is_causal ctx pos_q
    unfolding add_mask scores_of mask_rows seen_rows
    add_mask-seen [] k is_causal ctx pos_q = refl
    add_mask-seen (x ∷ q) k is_causal ctx pos_q =
        ap₂ ◌∷◌ (add_row-seen k x is_causal ctx pos_q 0)
          (add_mask-seen q k is_causal ctx (suc pos_q))

    plain-seen :
        (q : List Query) (k : List Key) (pos_q : ℕ)
        → scores_of m q k ≡ seen_rows q k false none pos_q
    unfolding scores_of seen_rows is_hidden
    plain-seen [] k pos_q = refl
    plain-seen (x ∷ q) k pos_q =
        ap₂ ◌∷◌ (all-seen k x false none pos_q 0 (λ j h. refl)) (plain-seen q k (suc pos_q))

    -- Masking, where it is not skipped.
    pub masked-seen :
        (q : List Query) (k : List Key) (start q_len : ℕ) (is_causal : Bool) (ctx : Option ℕ)
        → masked m false start (length q) (length k) q_len is_causal ctx (scores_of m q k)
          ≡ seen_rows q k is_causal ctx (start + (length k - q_len))
    unfolding masked generate_mask_chunk
    masked-seen q k start q_len true ctx = add_mask-seen q k true ctx (start + (length k - q_len))
    masked-seen q k start q_len false none = plain-seen q k (start + (length k - q_len))
    masked-seen q k start q_len false (some ctx) =
        add_mask-seen q k false (some ctx) (start + (length k - q_len))

    -- A single query at the end sees every key if it may skip the mask.
    skip-seen :
        (is_causal : Bool) (ctx : Option ℕ) (q_len kv_len j : ℕ)
        → can_skip_mask_for_single_query q_len kv_len is_causal ctx ≡ true
        → j < kv_len
        → is_hidden is_causal ctx (0 + (kv_len - q_len)) j ≡ false
    unfolding can_skip_mask_for_single_query is_hidden
    skip-seen false none q_len kv_len j skip h = refl
    skip-seen true none q_len kv_len j skip h = ground arith
    skip-seen false (some ctx) q_len kv_len j skip h = ground arith
    skip-seen true (some ctx) q_len kv_len j skip h = ground arith

    skip-single :
        (is_causal : Bool) (ctx : Option ℕ) (q_len kv_len : ℕ)
        → can_skip_mask_for_single_query q_len kv_len is_causal ctx ≡ true
        → q_len ≡ 1
    unfolding can_skip_mask_for_single_query
    skip-single false none q_len kv_len skip = ground arith
    skip-single true none q_len kv_len skip = ground arith
    skip-single false (some ctx) q_len kv_len skip = ground arith
    skip-single true (some ctx) q_len kv_len skip = ground arith

    skipped-seen :
        (q : List Query) (k : List Key) (is_causal : Bool) (ctx : Option ℕ)
        → can_skip_mask_for_single_query (length q) (length k) is_causal ctx ≡ true
        → scores_of m q k ≡ seen_rows q k is_causal ctx (0 + (length k - length q))
    unfolding scores_of seen_rows
    skipped-seen [] k is_causal ctx skip = refl
    skipped-seen (x ∷ []) k is_causal ctx skip =
        ap (λ r. r ∷ [])
          (all-seen k x is_causal ctx (0 + (length k - 1)) 0
            (λ j h. skip-seen is_causal ctx 1 (length k) j skip (omega (arith, h))))
    skipped-seen (x ∷ y ∷ q) k is_causal ctx skip =
        absurd (omega (arith, skip-single is_causal ctx (suc (suc (length q))) (length k) skip))

    -- The scores of all queries, whether the mask is skipped or not.
    pub naive-attention :
        (q : List Query) (k : List Key) (v : List Value) (is_causal : Bool) (ctx : Option ℕ)
        → naive m q k v is_causal ctx ≡ attention q k v is_causal ctx (0 + (length k - length q))
    unfolding naive masked
    naive-attention q k v is_causal ctx =
        elim (Bool-cases (can_skip_mask_for_single_query (length q) (length k) is_causal ctx)) [
          | inl y ↦
              rw (y, skipped-seen q k is_causal ctx y)
                (weighed-seen q k v is_causal ctx (0 + (length k - length q)))
          | inr y ↦
              ap
                (λ b.
                  weighed m v
                    (masked m b 0 (length q) (length k) (length q) is_causal ctx (scores_of m q k)))
                y
              ∙ ap (weighed m v) (masked-seen q k 0 (length q) is_causal ctx)
              ∙ weighed-seen q k v is_causal ctx (0 + (length k - length q))
        ]
