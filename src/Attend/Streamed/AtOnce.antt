-- ===== src/Attend/Streamed/AtOnce.antt =====
-- Reading chunk by chunk and reading at once give the same outputs.
use vvaves.Common.{
  ℕ, ◌+◌, ◌-◌, ◌≡◌, refl, ap, ap₂, sym, ◌∙◌, true, Option, List, [], ◌∷◌, ◌++◌, map, length, arith,
  append_assoc, length-append, map-append, length-map,
}
use vvaves.KvCache.Streaming
use vvaves.KvCache.Streaming.{Cache, init_state, fit, read_cache, ring_chunks}
use vvaves.KvCache.Streaming.Runs.{Remembers, HasWindow, forward-sees, init-Remembers}
use vvaves.Attend.{Kernel, sdpa}
use vvaves.Attend.Masked.{attention, attention-append}
use vvaves.Attend.Streamed.{keys, values, forward}
use vvaves.Attend.Streamed.Items.{IsExact, of_items, at_end, attend_with-items, in_whole}

module _ {Query Key Value : Type 0} (m : Kernel Query Key Value) (z : Key × Value) where
  open m use {Out}

  abbrev pub queries_of : List (Query × (Key × Value)) → List Query
  queries_of chunk = map (λ s. s.0) chunk

  abbrev pub items_of : List (Query × (Key × Value)) → List (Key × Value)
  items_of chunk = map (λ s. s.1) chunk

  -- The outputs of the chunks of a reading, one after the other.
  pub outputs : Option ℕ → Cache (Key × Value) → List (List (Query × (Key × Value)) × ℕ) → List Out
  outputs context c [] = []
  outputs context c ((chunk, at) ∷ rest) =
      let (out, c') = forward m z context c chunk at in out ++ outputs context c' rest

  unfoldable pub steps_of : List (List (Query × (Key × Value)) × ℕ) → List (Query × (Key × Value))
  steps_of [] = []
  steps_of ((chunk, at) ∷ rest) = chunk ++ steps_of rest

  module _ (exact : IsExact m) where
    outputs-items :
        (context : Option ℕ) (chunks : List (List (Query × (Key × Value)) × ℕ))
        (c : Cache (Key × Value)) (past : List (Key × Value))
        → Remembers z context c past
        → outputs context c chunks
          ≡ of_items m z context
              (queries_of (steps_of chunks))
              (past ++ items_of (steps_of chunks))
              (length past)
    unfolding attention forward steps_of outputs
    outputs-items context [] c past r = refl
    outputs-items context ((chunk, at) ∷ rest) c past r =
        let q = queries_of chunk in
        let kv = items_of chunk in
        let later = items_of (steps_of rest) in
        let even : length q ≡ length kv =
          length-map (λ s. s.0) chunk ∙ sym (length-map (λ s. s.1) chunk) in
        let long : length (past ++ kv) ≡ length past + length q =
          omega (arith, even, length-append past kv) in
        ap₂ ◌++◌
          (attend_with-items m z exact context c past q kv at r
            ∙ in_whole m z exact context past q kv later even)
          (outputs-items context rest (Streaming.forward z context c kv at).1 (past ++ kv)
              (forward-sees z context c past kv at r).1
            ∙ ap₂ (of_items m z context (queries_of (steps_of rest))) (append_assoc past kv later)
                long)
        ∙ sym (
            attention-append m q (queries_of (steps_of rest)) (keys (past ++ (kv ++ later)))
              (values (past ++ (kv ++ later))) true context (length past))
        ∙ ap₂ (λ a b. of_items m z context a (past ++ b) (length past))
            (sym (map-append (λ s. s.0) chunk (steps_of rest)))
            (sym (map-append (λ s. s.1) chunk (steps_of rest)))

    -- A reading in chunks through a new streaming attention, whose window, if there is one, is at
    -- least 1, gives one after the other the outputs that `sdpa` gives for the whole reading at
    -- once, causal and with the same window, if sums are exact and a hidden key takes no part.
    pub outputs-at_once :
        (context : Option ℕ) (chunks : List (List (Query × (Key × Value)) × ℕ))
        → HasWindow z context
        → outputs context (init_state z context) chunks
          ≡ sdpa m
              (queries_of (steps_of chunks))
              (keys (items_of (steps_of chunks)))
              (values (items_of (steps_of chunks)))
              true
              context
    outputs-at_once context chunks h =
        let steps = steps_of chunks in
        let even : length (items_of steps) - length (queries_of steps) ≡ 0 =
          omega (arith, length-map (λ s. s.0) steps, length-map (λ s. s.1) steps) in
        outputs-items context chunks (init_state z context) [] (init-Remembers z context h)
        ∙ sym (
            at_end m z exact context (queries_of steps) (items_of steps)
            ∙ ap (of_items m z context (queries_of steps) (items_of steps)) even)
