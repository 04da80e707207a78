-- ===== src/Attend/Streamed/Items.antt =====
-- What each chunk's attention is over, and that the rest of the reading changes nothing of it.
use vvaves.Common.{
  ℕ, suc, ◌+◌, ◌-◌, ◌≤◌, ◌≡◌, refl, ap, ap₂, sym, ◌∙◌, true, Option, none, some, List, [], ◌∷◌,
  ◌++◌, map, concat, length, take, drop, arith, append-nil, append_assoc, length-append, map-append,
  length-map, Bool-cases, inl, inr, leb, leb→le, leb→gt, take-append-drop, length-drop, length-take,
}
use vvaves.KvCache.Streaming
use vvaves.KvCache.Streaming.{Cache, init_state, fit, read_cache, ring_chunks}
use vvaves.KvCache.Streaming.Runs.{recent, Remembers, forward-sees, forward-chunks}
use vvaves.Attend.{Kernel, sdpa, sdpa_chunked}
use vvaves.Attend.Masked.{attention}
use vvaves.Attend.Whole.{sdpa-attention}
use vvaves.Attend.Chunked.{sdpa_chunked-attention}
use vvaves.Attend.Hidden.{Hides, attention-ahead, attention-behind}
use vvaves.Attend.Streamed.{keys, values, attended, attend_with}

-- Sums are exact, and hidden keys take no part.
pub record IsExact {Query Key Value : Type 0} (m : Kernel Query Key Value) : Type 0 where
  pub add-zero : (x : m.F) → m.add x m.zero_score ≡ x
  pub weigh-none : (probs : List m.F) → m.weigh probs [] ≡ m.zero_out
  pub weigh-append :
      (probs : List m.F) (v w : List Value)
      → m.weigh probs (v ++ w)
        ≡ m.plus (m.weigh (take (length v) probs) v) (m.weigh (drop (length v) probs) w)
  pub plus-assoc : (a b c : m.Out) → m.plus (m.plus a b) c ≡ m.plus a (m.plus b c)
  pub plus-zero : (a : m.Out) → m.plus a m.zero_out ≡ a
  pub zero-plus : (a : m.Out) → m.plus m.zero_out a ≡ a
  pub hides : Hides m

module _ {Query Key Value : Type 0} (m : Kernel Query Key Value) (z : Key × Value) where
  open m use {Out}

  -- The queries of a chunk at the end of the items.
  abbrev pub of_items : Option ℕ → List Query → List (Key × Value) → ℕ → List Out
  of_items context q items pos_q = attention m q (keys items) (values items) true context pos_q

  keys-concat :
      (chunks : List (List (Key × Value))) → concat (map keys chunks) ≡ keys (concat chunks)
  keys-concat [] = refl
  keys-concat (kv ∷ chunks) =
      ap (λ l. keys kv ++ l) (keys-concat chunks) ∙ sym (map-append (λ p. p.0) kv (concat chunks))

  values-concat :
      (chunks : List (List (Key × Value))) → concat (map values chunks) ≡ values (concat chunks)
  values-concat [] = refl
  values-concat (kv ∷ chunks) =
      ap (λ l. values kv ++ l) (values-concat chunks)
      ∙ sym (map-append (λ p. p.1) kv (concat chunks))

  concat-last :
      {A : Type 0}
      → (xss : List (List A)) (xs : List A) → concat (xss ++ (xs ∷ [])) ≡ concat xss ++ xs
  concat-last [] xs = append-nil xs
  concat-last (ys ∷ xss) xs =
      ap (λ l. ys ++ l) (concat-last xss xs) ∙ sym (append_assoc ys (concat xss) xs)

  module _ (exact : IsExact m) where
    pub at_end :
        (context : Option ℕ) (q : List Query) (items : List (Key × Value))
        → sdpa m q (keys items) (values items) true context
          ≡ of_items context q items (length items - length q)
    at_end context q items =
        sdpa-attention m exact.add-zero q (keys items) (values items) true context
        ∙ ap (λ n. of_items context q items (n - length q)) (length-map (λ p. p.0) items)

    several :
        (context : Option ℕ) (q : List Query) (chunks : List (List (Key × Value)))
        → sdpa_chunked m q (map keys chunks) (map values chunks) true context
          ≡ of_items context q (concat chunks) (length (concat chunks) - length q)
    several context q chunks =
        sdpa_chunked-attention m exact.add-zero exact.weigh-none exact.weigh-append exact.plus-assoc
          exact.plus-zero exact.zero-plus q (map keys chunks) (map values chunks) true context
          (length-map keys chunks ∙ sym (length-map values chunks))
        ∙ ap₂ (λ k v. attention m q k v true context (length k - length q)) (keys-concat chunks)
            (values-concat chunks)
        ∙ ap (λ n. of_items context q (concat chunks) (n - length q))
            (length-map (λ p. p.0) (concat chunks))

    attended-items :
        (context : Option ℕ) (q : List Query) (chunks : List (List (Key × Value)))
        → attended m z context q chunks
          ≡ of_items context q (concat chunks) (length (concat chunks) - length q)
    unfolding attended
    attended-items context q [] = several context q []
    attended-items context q (kv ∷ []) = rw (append-nil kv) (at_end context q kv)
    attended-items context q (kv ∷ kv2 ∷ rest) = several context q (kv ∷ kv2 ∷ rest)

    -- The attention of a chunk is over what the cache remembers and the chunk.
    pub attend_with-items :
        (context : Option ℕ) (c : Cache (Key × Value)) (past : List (Key × Value)) (q : List Query)
        (kv : List (Key × Value)) (at : ℕ)
        → Remembers z context c past
        → attend_with m z context c q kv at
          ≡ of_items context q
              (recent z context past ++ kv)
              (length (recent z context past ++ kv) - length q)
    unfolding attend_with
    attend_with-items none c past q kv at r =
        at_end none q (Streaming.forward z none c kv at).0
        ∙ ap (λ l. of_items none q l (length l - length q)) (forward-sees z none c past kv at r).0
    attend_with-items (some w) c past q kv at r =
        let c1 = fit z w (read_cache c) in
        let chunks = ring_chunks c1.buf c1.head c1.len in
        attended-items (some w) q (chunks ++ (kv ∷ []))
        ∙ ap (λ l. of_items (some w) q l (length l - length q))
            (concat-last chunks kv
              ∙ sym (forward-chunks z w c kv at)
              ∙ (forward-sees z (some w) c past kv at r).0)

    later_items :
        (context : Option ℕ) (q : List Query) (items later : List (Key × Value)) (pos_q : ℕ)
        → pos_q + length q ≤ length items
        → of_items context q (items ++ later) pos_q ≡ of_items context q items pos_q
    later_items context q items later pos_q h =
        let k_len = length-map (λ p. p.0) items in
        let v_len = length-map (λ p. p.1) items in
        ap₂ (λ k v. attention m q k v true context pos_q) (map-append (λ p. p.0) items later)
          (map-append (λ p. p.1) items later)
        ∙ attention-ahead m exact.hides later q (keys items) (values items) context pos_q
            (omega (arith, h, k_len)) (k_len ∙ sym v_len)

    older_items :
        (w : ℕ) (q : List Query) (old items : List (Key × Value)) (pos_q : ℕ)
        → w ≤ suc pos_q
        → length q ≤ length items
        → of_items (some w) q (old ++ items) (length old + pos_q) ≡ of_items (some w) q items pos_q
    older_items w q old items pos_q h few =
        ap₂ (λ k v. attention m q k v true (some w) (length old + pos_q))
          (map-append (λ p. p.0) old items) (map-append (λ p. p.1) old items)
        ∙ attention-behind m exact.hides old q (keys items) (values items) w pos_q h
            (omega (arith, few, length-map (λ p. p.0) items))

    from_recent :
        (context : Option ℕ) (past : List (Key × Value)) (q : List Query) (kv : List (Key × Value))
        → length q ≡ length kv
        → of_items context q (recent z context past ++ kv) (length (recent z context past))
          ≡ of_items context q (past ++ kv) (length past)
    from_recent none past q kv same = refl
    from_recent (some w) past q kv same = elim (Bool-cases (leb w (length past))) [
      | inl y ↦
          let d = length past - w in
          let wide = length-drop d past in
          let front = length-take d past in
          let full : w ≤ length past = leb→le w (length past) y in
          let many = length-append (drop d past) kv in
          sym (
            ap₂ (of_items (some w) q)
              (ap (λ l. l ++ kv) (sym (take-append-drop d past))
                ∙ append_assoc (take d past) (drop d past) kv)
              (omega (arith, wide, front, full))
            ∙ older_items w q (take d past) (drop d past ++ kv) (length (drop d past))
                (omega (arith, wide, full)) (omega (arith, same, many)))
      | inr y ↦
          let fresh : length past - w ≡ 0 = omega (arith, leb→gt w (length past) y) in
          ap (λ d. of_items (some w) q (drop d past ++ kv) (length (drop d past))) fresh
    ]

    -- What is older than the window and what is later changes nothing.
    pub in_whole :
        (context : Option ℕ) (past : List (Key × Value)) (q : List Query)
        (kv later : List (Key × Value))
        → length q ≡ length kv
        → of_items context q
            (recent z context past ++ kv)
            (length (recent z context past ++ kv) - length q)
          ≡ of_items context q (past ++ (kv ++ later)) (length past)
    in_whole context past q kv later same =
        let seen = recent z context past in
        let place : length (seen ++ kv) - length q ≡ length seen =
          omega (arith, same, length-append seen kv) in
        ap (of_items context q (seen ++ kv)) place
        ∙ from_recent context past q kv same
        ∙ sym (
            later_items context q (past ++ kv) later (length past)
              (omega (arith, same, length-append past kv)))
        ∙ ap (λ l. of_items context q l (length past)) (append_assoc past kv later)
