-- ===== src/Attend.antt =====
-- apps/tts/crates/engine/src/modules/sdpa.rs, for one head of one row of the batch: a tensor is the
-- list of its columns in time. The positions of a mask are compared as `f32` in the source, which
-- holds them exactly below 2^24.
pub mod Masked
pub mod Whole
pub mod Chunked
pub mod Hidden
pub mod Streamed
mod Examples
use vvaves.Common.{
  ℕ, zero, suc, ◌+◌, ◌-◌, ◌≤◌, min, Bool, true, false, not, ◌&&◌, ◌||◌, Option, none, some, List,
  [], ◌∷◌, ◌++◌, map, concat, length, take, drop, replicate, is_empty, ltb, leb, ◌==◌,
  if◌then◌else◌,
}

abbrev pub tiling_threshold : ℕ
tiling_threshold = 512

abbrev pub block_size : ℕ
block_size = 128

-- The arithmetic on a query's row: a score, scaled; the sum of two; the literals; softmax; the row
-- of probabilities times the values; and the sum of two outputs.
pub record Kernel (Query Key Value : Type 0) : Type 1 where
  pub F : Type 0
  pub Out : Type 0
  pub score : Query → Key → F
  pub add : F → F → F
  pub zero_score : F
  pub neg_infinity : F
  pub softmax : List F → List F
  pub weigh : List F → List Value → Out
  pub plus : Out → Out → Out
  pub zero_out : Out

pub can_skip_mask_for_single_query : ℕ → ℕ → Bool → Option ℕ → Bool
can_skip_mask_for_single_query q_len kv_len is_causal none = is_causal && q_len == 1
can_skip_mask_for_single_query q_len kv_len is_causal (some ctx) =
    is_causal && q_len == 1 && leb kv_len ctx

-- `context_window.is_some()`
abbrev pub is_local : Option ℕ → Bool
is_local none = false
is_local (some ctx) = true

-- `pos_k <= pos_q - ctx`, where the difference may be negative.
abbrev pub is_out : Option ℕ → ℕ → ℕ → Bool
is_out none pos_q pos_k = false
is_out (some ctx) pos_q pos_k = leb (pos_k + ctx) pos_q

module _ {Query Key Value : Type 0} (m : Kernel Query Key Value) where
  open m use {F, Out, score, add, zero_score, neg_infinity, softmax, weigh, plus, zero_out}

  pub mask_entry : Bool → Option ℕ → ℕ → ℕ → F
  mask_entry is_causal ctx pos_q pos_k =
      let mask = if is_causal && ltb pos_q pos_k then neg_infinity else zero_score in
      if is_out ctx pos_q pos_k then neg_infinity else mask

  -- The entries of a row from a key on.
  pub mask_row : ℕ → Bool → Option ℕ → ℕ → ℕ → List F
  unfolding mask_entry
  mask_row zero is_causal ctx pos_q pos_k = []
  mask_row (suc left) is_causal ctx pos_q pos_k =
      mask_entry is_causal ctx pos_q pos_k ∷ mask_row left is_causal ctx pos_q (suc pos_k)

  -- The rows from a position on.
  pub mask_rows : ℕ → ℕ → Bool → Option ℕ → ℕ → List (List F)
  unfolding mask_row
  mask_rows zero k_len is_causal ctx pos_q = []
  mask_rows (suc num_q) k_len is_causal ctx pos_q =
      mask_row k_len is_causal ctx pos_q 0 ∷ mask_rows num_q k_len is_causal ctx (suc pos_q)

  pub generate_mask_chunk : ℕ → ℕ → ℕ → ℕ → Bool → Option ℕ → List (List F)
  unfolding mask_rows
  generate_mask_chunk start_q num_q k_len total_q_len is_causal ctx =
      mask_rows num_q k_len is_causal ctx (start_q + (k_len - total_q_len))

  -- `broadcast_add` of a row and of all rows.
  pub add_row : List F → List F → List F
  add_row [] mask = []
  add_row (x ∷ xs) [] = []
  add_row (x ∷ xs) (e ∷ mask) = add x e ∷ add_row xs mask

  pub add_mask : List (List F) → List (List F) → List (List F)
  unfolding add_row
  add_mask [] mask = []
  add_mask (row ∷ rows) [] = []
  add_mask (row ∷ rows) (e ∷ mask) = add_row row e ∷ add_mask rows mask

  pub scores_of : List Query → List Key → List (List F)
  scores_of q k = map (λ x. map (score x) k) q

  -- The scores masked, or as they are.
  pub masked : Bool → ℕ → ℕ → ℕ → ℕ → Bool → Option ℕ → List (List F) → List (List F)
  unfolding generate_mask_chunk add_mask
  masked skip start len kv_len q_len is_causal ctx scores =
      if skip
      then scores
      else if is_causal || is_local ctx
      then add_mask scores (generate_mask_chunk start len kv_len q_len is_causal ctx)
      else scores

  pub weighed : List Value → List (List F) → List Out
  weighed v rows = map (λ row. weigh (softmax row) v) rows

  -- The tiled path, block by block; no more blocks are made than there are queries.
  pub tiles : ℕ → ℕ → ℕ → List Query → List Key → List Value → Bool → Option ℕ → List Out
  unfolding masked weighed scores_of
  tiles zero start q_len q k v is_causal ctx = []
  tiles (suc fuel) start q_len [] k v is_causal ctx = []
  tiles (suc fuel) start q_len (x ∷ q) k v is_causal ctx =
      let block = take block_size (x ∷ q) in
      weighed v
        (masked false start (length block) (length k) q_len is_causal ctx (scores_of block k))
      ++ tiles fuel (start + block_size) q_len (drop block_size (x ∷ q)) k v is_causal ctx

  pub naive : List Query → List Key → List Value → Bool → Option ℕ → List Out
  unfolding masked weighed scores_of can_skip_mask_for_single_query
  naive q k v is_causal ctx =
      let q_len = length q in
      let kv_len = length k in
      weighed v (
        masked (can_skip_mask_for_single_query q_len kv_len is_causal ctx) 0 q_len kv_len q_len
          is_causal ctx (scores_of q k))

  pub sdpa : List Query → List Key → List Value → Bool → Option ℕ → List Out
  unfolding naive tiles
  sdpa q k v is_causal ctx =
      if ltb (length q) tiling_threshold
      then naive q k v is_causal ctx
      else tiles (length q) 0 (length q) q k v is_causal ctx

  -- The scores against the chunks, one beside the other.
  pub score_chunks : Query → List (List Key) → List F
  score_chunks x [] = []
  score_chunks x (k ∷ ks) = map (score x) k ++ score_chunks x ks

  -- The probabilities times the chunks of values, summed.
  pub weigh_chunks : List F → List (List Value) → Out → Out
  weigh_chunks probs [] output = output
  weigh_chunks probs (v ∷ vs) output =
      weigh_chunks (drop (length v) probs) vs (plus output (weigh (take (length v) probs) v))

  abbrev pub total : {A : Type 0} → List (List A) → ℕ
  total [] = 0
  total (xs ∷ xss) = length xs + total xss

  -- There is a chunk of values for each chunk of keys; Rust panics where the only one is missing.
  pub sdpa_chunked : List Query → List (List Key) → List (List Value) → Bool → Option ℕ → List Out
  unfolding naive masked score_chunks weigh_chunks
  sdpa_chunked q [] vs is_causal ctx = replicate (length q) zero_out
  sdpa_chunked q (k ∷ []) [] is_causal ctx = []
  sdpa_chunked q (k ∷ []) (v ∷ vs) is_causal ctx = naive q k v is_causal ctx
  sdpa_chunked q (k ∷ k2 ∷ ks) vs is_causal ctx =
      let q_len = length q in
      let kv_len = total (k ∷ k2 ∷ ks) in
      map (λ row. weigh_chunks (softmax row) vs zero_out)
        (masked (can_skip_mask_for_single_query q_len kv_len is_causal ctx) 0 q_len kv_len q_len
          is_causal ctx (map (λ x. score_chunks x (k ∷ k2 ∷ ks)) q))
