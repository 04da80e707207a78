-- ===== src/Attend/Hidden.antt =====
-- Keys that a query does not see can be left out, if the exponential of the bottom is 0.
use vvaves.Common.{
  ℕ, suc, ◌+◌, ◌≤◌, ◌<◌, ◌≡◌, refl, ap, ap₂, sym, ◌∙◌, true, Option, none, some, List, [], ◌∷◌,
  ◌++◌, map, length, if◌then◌else◌, arith, append-nil, append_assoc, length-append,
}
use vvaves.Attend.{Kernel}
use vvaves.Attend.Masked.{is_hidden, seen_row, attention}

-- What softmax and the product make of a hidden key: its value takes no part, first or last, beside
-- another one.
pub record Hides {Query Key Value : Type 0} (m : Kernel Query Key Value) : Type 0 where
  pub first :
      (s : m.F) (row : List m.F) (y : Value) (v : List Value)
      → 0 < length row
      → m.weigh (m.softmax (m.add s m.neg_infinity ∷ row)) (y ∷ v) ≡ m.weigh (m.softmax row) v
  pub last :
      (s : m.F) (row : List m.F) (y : Value) (v : List Value)
      → 0 < length row
      → length row ≡ length v
      → m.weigh (m.softmax (row ++ (m.add s m.neg_infinity ∷ []))) (v ++ (y ∷ []))
        ≡ m.weigh (m.softmax row) v

-- A key that is hidden from a place by a window, and one that is later.
abbrev IsPast : Option ℕ → ℕ → Type 0
IsPast none pos_q = ⊥
IsPast (some w) pos_q = w ≤ pos_q

past-hidden : (ctx : Option ℕ) (pos_q : ℕ) → IsPast ctx pos_q → is_hidden true ctx pos_q 0 ≡ true
unfolding is_hidden
past-hidden none pos_q h = absurd h
past-hidden (some w) pos_q h = ground arith

IsPast-suc : (ctx : Option ℕ) (pos_q : ℕ) → IsPast ctx pos_q → IsPast ctx (suc pos_q)
IsPast-suc none pos_q h = h
IsPast-suc (some w) pos_q h = omega (arith, h)

later-hidden :
    (ctx : Option ℕ) (pos_q pos_k : ℕ) → pos_q < pos_k → is_hidden true ctx pos_q pos_k ≡ true
unfolding is_hidden
later-hidden none pos_q pos_k h = ground arith
later-hidden (some w) pos_q pos_k h = ground arith

hidden-suc :
    (ctx : Option ℕ) (pos_q pos_k : ℕ)
    → is_hidden true ctx (suc pos_q) (suc pos_k) ≡ is_hidden true ctx pos_q pos_k
unfolding is_hidden
hidden-suc none pos_q pos_k = ground arith
hidden-suc (some w) pos_q pos_k = ground arith

module _ {Query Key Value : Type 0} (m : Kernel Query Key Value) where
  open m use {F, Out, score, add, neg_infinity, softmax, weigh}

  length-seen_row :
      (k : List Key) (x : Query) (ctx : Option ℕ) (pos_q pos_k : ℕ)
      → length (seen_row m k x true ctx pos_q pos_k) ≡ length k
  unfolding seen_row
  length-seen_row [] x ctx pos_q pos_k = refl
  length-seen_row (y ∷ k) x ctx pos_q pos_k = ap suc (length-seen_row k x ctx pos_q (suc pos_k))

  seen_row-suc :
      (k : List Key) (x : Query) (ctx : Option ℕ) (pos_q pos_k : ℕ)
      → seen_row m k x true ctx (suc pos_q) (suc pos_k) ≡ seen_row m k x true ctx pos_q pos_k
  unfolding seen_row
  seen_row-suc [] x ctx pos_q pos_k = refl
  seen_row-suc (y ∷ k) x ctx pos_q pos_k =
      ap₂ ◌∷◌
        (ap (λ b. if b then add (score x y) neg_infinity else score x y)
          (hidden-suc ctx pos_q pos_k))
        (seen_row-suc k x ctx pos_q (suc pos_k))

  seen_row-later :
      (k : List Key) (y : Key) (x : Query) (ctx : Option ℕ) (pos_q pos_k : ℕ)
      → pos_q < pos_k + length k
      → seen_row m (k ++ (y ∷ [])) x true ctx pos_q pos_k
        ≡ seen_row m k x true ctx pos_q pos_k ++ (add (score x y) neg_infinity ∷ [])
  unfolding seen_row
  seen_row-later [] y x ctx pos_q pos_k h =
      ap (λ b. (if b then add (score x y) neg_infinity else score x y) ∷ [])
        (later-hidden ctx pos_q pos_k (omega (arith, h)))
  seen_row-later (z ∷ k) y x ctx pos_q pos_k h =
      ap₂ ◌∷◌ refl (seen_row-later k y x ctx pos_q (suc pos_k) (omega (arith, h)))

  module _ (hides : Hides m) where
    -- A first key that is out of every query's window.
    attention-past :
        (q : List Query) (y : Key) (k : List Key) (yv : Value) (v : List Value) (ctx : Option ℕ)
        (pos_q : ℕ)
        → IsPast ctx (suc pos_q)
        → length q ≤ length k
        → attention m q (y ∷ k) (yv ∷ v) true ctx (suc pos_q) ≡ attention m q k v true ctx pos_q
    unfolding attention seen_row
    attention-past [] y k yv v ctx pos_q h few = refl
    attention-past (x ∷ q) y k yv v ctx pos_q h few =
        let row = seen_row m k x true ctx pos_q 0 in
        let width : length row ≡ length k = length-seen_row k x ctx pos_q 0 in
        let front : seen_row m (y ∷ k) x true ctx (suc pos_q) 0
            ≡ add (score x y) neg_infinity ∷ row =
          ap₂ ◌∷◌
            (ap (λ b. if b then add (score x y) neg_infinity else score x y)
              (past-hidden ctx (suc pos_q) h))
            (seen_row-suc k x ctx pos_q 0) in
        ap₂ ◌∷◌
          (ap (λ r. weigh (softmax r) (yv ∷ v)) front
            ∙ hides.first (score x y) row yv v (omega (arith, width, few)))
          (attention-past q y k yv v ctx (suc pos_q) (IsPast-suc ctx (suc pos_q) h)
            (omega (arith, few)))

    -- A last key that is later than every query.
    attention-later :
        (q : List Query) (k : List Key) (y : Key) (v : List Value) (yv : Value) (ctx : Option ℕ)
        (pos_q : ℕ)
        → pos_q + length q ≤ length k
        → length k ≡ length v
        → attention m q (k ++ (y ∷ [])) (v ++ (yv ∷ [])) true ctx pos_q
          ≡ attention m q k v true ctx pos_q
    unfolding attention
    attention-later [] k y v yv ctx pos_q h same = refl
    attention-later (x ∷ q) k y v yv ctx pos_q h same =
        let row = seen_row m k x true ctx pos_q 0 in
        let width : length row ≡ length k = length-seen_row k x ctx pos_q 0 in
        ap₂ ◌∷◌
          (ap (λ r. weigh (softmax r) (v ++ (yv ∷ [])))
              (seen_row-later k y x ctx pos_q 0 (omega (arith, h)))
            ∙ hides.last (score x y) row yv v (omega (arith, width, h)) (width ∙ same))
          (attention-later q k y v yv ctx (suc pos_q) (omega (arith, h)) same)

    -- All keys that are later than every query.
    pub attention-ahead :
        (later : List (Key × Value)) (q : List Query) (k : List Key) (v : List Value)
        (ctx : Option ℕ) (pos_q : ℕ)
        → pos_q + length q ≤ length k
        → length k ≡ length v
        → attention m q (k ++ map (λ p. p.0) later) (v ++ map (λ p. p.1) later) true ctx pos_q
          ≡ attention m q k v true ctx pos_q
    attention-ahead [] q k v ctx pos_q h same =
        ap₂ (λ a b. attention m q a b true ctx pos_q) (append-nil k) (append-nil v)
    attention-ahead ((y, yv) ∷ later) q k v ctx pos_q h same =
        let longer = length-append k (y ∷ []) in
        let longer_v = length-append v (yv ∷ []) in
        ap₂ (λ a b. attention m q a b true ctx pos_q)
          (sym (append_assoc k (y ∷ []) (map (λ p. p.0) later)))
          (sym (append_assoc v (yv ∷ []) (map (λ p. p.1) later)))
        ∙ attention-ahead later q (k ++ (y ∷ [])) (v ++ (yv ∷ [])) ctx pos_q
            (omega (arith, h, longer)) (omega (arith, same, longer, longer_v))
        ∙ attention-later q k y v yv ctx pos_q h same

    -- All keys that are out of every query's window.
    pub attention-behind :
        (past : List (Key × Value)) (q : List Query) (k : List Key) (v : List Value) (w pos_q : ℕ)
        → w ≤ suc pos_q
        → length q ≤ length k
        → attention m q
            (map (λ p. p.0) past ++ k)
            (map (λ p. p.1) past ++ v)
            true
            (some w)
            (length past + pos_q)
          ≡ attention m q k v true (some w) pos_q
    attention-behind [] q k v w pos_q h few = ap (attention m q k v true (some w)) (omega arith)
    attention-behind ((y, yv) ∷ past) q k v w pos_q h few =
        let longer = length-append (map (λ p. p.0) past) k in
        let there : suc (length past) + pos_q ≡ suc (length past + pos_q) = omega arith in
        ap
          (attention m q (y ∷ (map (λ p. p.0) past ++ k)) (yv ∷ (map (λ p. p.1) past ++ v)) true
            (some w))
          there
        ∙ attention-past q y (map (λ p. p.0) past ++ k) yv (map (λ p. p.1) past ++ v) (some w)
            (length past + pos_q) (omega (arith, h)) (omega (arith, few, longer))
        ∙ attention-behind past q k v w pos_q h few
