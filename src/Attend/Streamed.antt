-- ===== src/Attend/Streamed.antt =====
-- `StreamingMultiheadAttention::forward` of apps/tts/crates/engine/src/modules/attention.rs with
-- its attention: a chunk has a query, a key and a value for each time step, projected and rotated.
pub mod Items
pub mod AtOnce
mod Examples
use vvaves.Common.{ℕ, true, Option, none, some, List, [], ◌∷◌, ◌++◌, map}
use vvaves.KvCache.Streaming
use vvaves.KvCache.Streaming.{Cache, fit, read_cache, ring_chunks}
use vvaves.Attend.{Kernel, sdpa, sdpa_chunked}

abbrev pub keys : {Key Value : Type 0} → List (Key × Value) → List Key
keys kv = map (λ p. p.0) kv

abbrev pub values : {Key Value : Type 0} → List (Key × Value) → List Value
values kv = map (λ p. p.1) kv

module _ {Query Key Value : Type 0} (m : Kernel Query Key Value) (zero_item : Key × Value) where
  open m use {Out}

  -- The chunks of the ring and the new one; there is always the new one.
  pub attended : Option ℕ → List Query → List (List (Key × Value)) → List Out
  attended context q [] = sdpa_chunked m q [] [] true context
  attended context q (kv ∷ []) = sdpa m q (keys kv) (values kv) true context
  attended context q (kv ∷ kv2 ∷ rest) =
      sdpa_chunked m q (map keys (kv ∷ kv2 ∷ rest)) (map values (kv ∷ kv2 ∷ rest)) true context

  -- The output of `forward`.
  pub attend_with : Option ℕ → Cache (Key × Value) → List Query → List (Key × Value) → ℕ → List Out
  unfolding attended
  attend_with none c q kv current_pos =
      let seen = (Streaming.forward zero_item none c kv current_pos).0 in
      sdpa m q (keys seen) (values seen) true none
  attend_with (some w) c q kv current_pos =
      let c1 = fit zero_item w (read_cache c) in
      attended (some w) q (ring_chunks c1.buf c1.head c1.len ++ (kv ∷ []))

  pub forward :
      Option ℕ
      → Cache (Key × Value)
      → List (Query × (Key × Value))
      → ℕ
      → List Out × Cache (Key × Value)
  unfolding attend_with
  forward context c chunk current_pos =
      let kv = map (λ s. s.1) chunk in
      (
        attend_with context c (map (λ s. s.0) chunk) kv current_pos,
        (Streaming.forward zero_item context c kv current_pos).1,
      )
