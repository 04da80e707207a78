-- ===== src/Conv/Transposed/Laid.antt =====
-- What a transposed convolution computes: every column's contribution, laid one stride further than
-- the one before it and added where they overlap.
use vvaves.Common.{
  ℕ, zero, suc, ◌+◌, ◌*◌, ◌≤◌, ◌≡◌, refl, ap, ap₂, ◌∙◌, sym, Option, none, some, List, [], ◌∷◌,
  ◌++◌, map, length, take, drop, replicate, length-append, map-append, length-take, length-drop,
  length-map, take-append_past, drop-append_past, append_assoc, arith,
}
use vvaves.Conv.Transposed.{Columns, without_bias}

module _ {B : Type 0} (o : Columns B) where
  -- `p` added to the front of `ys`.
  unfoldable pub add_to : List B → List B → List B
  add_to ys [] = ys
  add_to [] (p ∷ ps) = []
  add_to (y ∷ ys) (p ∷ ps) = o.add y p ∷ add_to ys ps

  -- The bias on every column.
  pub with_bias : Option B → List B → List B
  with_bias none ys = ys
  with_bias (some b) ys = map (λ y. o.add y b) ys

  -- The laws of sums without rounding.
  pub record Exact : Type 0 where
    pub zero-add : (y : B) → o.add o.zero_column y ≡ y
    pub add_assoc : (x y z : B) → o.add x (o.add y z) ≡ o.add (o.add x y) z
    pub add_swap : (x y z : B) → o.add (o.add x y) z ≡ o.add (o.add x z) y
    pub add-sub : (x y : B) → o.sub (o.add x y) y ≡ x

  pub length-add_to : (ys ps : List B) → length (add_to ys ps) ≡ length ys
  unfolding add_to
  length-add_to ys [] = refl
  length-add_to [] (p ∷ ps) = refl
  length-add_to (y ∷ ys) (p ∷ ps) = ap suc (length-add_to ys ps)

  pub add_to-append :
      (us vs ps : List B)
      → add_to (us ++ vs) ps ≡ add_to us (take (length us) ps) ++ add_to vs (drop (length us) ps)
  unfolding add_to
  add_to-append [] vs ps = refl
  add_to-append (u ∷ us) vs [] = refl
  add_to-append (u ∷ us) vs (p ∷ ps) = ap (λ l. o.add u p ∷ l) (add_to-append us vs ps)

  pub take-add_to :
      (n : ℕ) (ys ps : List B) → take n (add_to ys ps) ≡ add_to (take n ys) (take n ps)
  unfolding add_to
  take-add_to zero ys ps = refl
  take-add_to (suc n) ys [] = refl
  take-add_to (suc n) [] (p ∷ ps) = refl
  take-add_to (suc n) (y ∷ ys) (p ∷ ps) = ap (λ l. o.add y p ∷ l) (take-add_to n ys ps)

  nil-add_to : (ps : List B) → add_to [] ps ≡ []
  unfolding add_to
  nil-add_to [] = refl
  nil-add_to (p ∷ ps) = refl

  pub drop-add_to :
      (n : ℕ) (ys ps : List B) → drop n (add_to ys ps) ≡ add_to (drop n ys) (drop n ps)
  unfolding add_to
  drop-add_to zero ys ps = refl
  drop-add_to (suc n) ys [] = refl
  drop-add_to (suc n) [] (p ∷ ps) = sym (nil-add_to (drop n ps))
  drop-add_to (suc n) (y ∷ ys) (p ∷ ps) = drop-add_to n ys ps

  pub length-with_bias : (b : Option B) (ys : List B) → length (with_bias b ys) ≡ length ys
  unfolding with_bias
  length-with_bias none ys = refl
  length-with_bias (some b) ys = length-map (λ y. o.add y b) ys

  take-map :
      (n : ℕ) (b : B) (ys : List B)
      → take n (map (λ y. o.add y b) ys) ≡ map (λ y. o.add y b) (take n ys)
  take-map zero b ys = refl
  take-map (suc n) b [] = refl
  take-map (suc n) b (y ∷ ys) = ap (λ l. o.add y b ∷ l) (take-map n b ys)

  drop-map :
      (n : ℕ) (b : B) (ys : List B)
      → drop n (map (λ y. o.add y b) ys) ≡ map (λ y. o.add y b) (drop n ys)
  drop-map zero b ys = refl
  drop-map (suc n) b [] = refl
  drop-map (suc n) b (y ∷ ys) = drop-map n b ys

  pub with_bias-append :
      (b : Option B) (ys zs : List B) → with_bias b ys ++ with_bias b zs ≡ with_bias b (ys ++ zs)
  unfolding with_bias
  with_bias-append none ys zs = refl
  with_bias-append (some b) ys zs = sym (map-append (λ y. o.add y b) ys zs)

  pub with_bias-nil : (b : Option B) → with_bias b [] ≡ []
  unfolding with_bias
  with_bias-nil none = refl
  with_bias-nil (some b) = refl

  pub take-with_bias :
      (b : Option B) (n : ℕ) (ys : List B) → take n (with_bias b ys) ≡ with_bias b (take n ys)
  unfolding with_bias
  take-with_bias none n ys = refl
  take-with_bias (some b) n ys = take-map n b ys

  pub drop-with_bias :
      (b : Option B) (n : ℕ) (ys : List B) → drop n (with_bias b ys) ≡ with_bias b (drop n ys)
  unfolding with_bias
  drop-with_bias none n ys = refl
  drop-with_bias (some b) n ys = drop-map n b ys

  module _ (e : Exact) where
    pub add_to_assoc :
        (xs ys ps : List B)
        → length ps ≤ length ys
        → add_to xs (add_to ys ps) ≡ add_to (add_to xs ys) ps
    unfolding add_to
    add_to_assoc xs ys [] h = refl
    add_to_assoc xs [] (p ∷ ps) h = absurd (omega arith)
    add_to_assoc [] (y ∷ ys) (p ∷ ps) h = refl
    add_to_assoc (x ∷ xs) (y ∷ ys) (p ∷ ps) h =
        ap₂ ◌∷◌ (e.add_assoc x y p) (add_to_assoc xs ys ps (omega arith))

    pub zeros-add_to :
        (n : ℕ) (ps : List B) → length ps ≡ n → add_to (replicate n o.zero_column) ps ≡ ps
    unfolding add_to
    zeros-add_to zero [] h = refl
    zeros-add_to (suc n) [] h = absurd (omega arith)
    zeros-add_to zero (p ∷ ps) h = absurd (omega arith)
    zeros-add_to (suc n) (p ∷ ps) h = ap₂ ◌∷◌ (e.zero-add p) (zeros-add_to n ps (omega arith))

    bias-add_to :
        (b : B) (ys ps : List B)
        → add_to (map (λ y. o.add y b) ys) ps ≡ map (λ y. o.add y b) (add_to ys ps)
    unfolding add_to
    bias-add_to b ys [] = refl
    bias-add_to b [] (p ∷ ps) = refl
    bias-add_to b (y ∷ ys) (p ∷ ps) = ap₂ ◌∷◌ (e.add_swap y b p) (bias-add_to b ys ps)

    pub with_bias-add_to :
        (b : Option B) (ys ps : List B) → add_to (with_bias b ys) ps ≡ with_bias b (add_to ys ps)
    unfolding with_bias
    with_bias-add_to none ys ps = refl
    with_bias-add_to (some b) ys ps = bias-add_to b ys ps

    sub-add : (b : B) (ys : List B) → map (λ y. o.sub y b) (map (λ y. o.add y b) ys) ≡ ys
    sub-add b [] = refl
    sub-add b (y ∷ ys) = ap₂ ◌∷◌ (e.add-sub y b) (sub-add b ys)

    pub without-with_bias : (b : Option B) (ys : List B) → without_bias o b (with_bias b ys) ≡ ys
    unfolding with_bias without_bias
    without-with_bias none ys = refl
    without-with_bias (some b) ys = sub-add b ys

  module _ {A : Type 0} (spread : A → List B) (stride : ℕ) where
    pub laid : List B → List A → List B
    unfolding add_to
    laid p [] = p
    laid p (x ∷ xs) = let q = add_to (spread x) p in take stride q ++ laid (drop stride q) xs

    module _ (trim : ℕ) (wide : (x : A) → length (spread x) ≡ stride + trim) where
      left : (x : A) (p : List B) → length (drop stride (add_to (spread x) p)) ≡ trim
      left x p =
          omega
            (arith, length-drop stride (add_to (spread x) p), length-add_to (spread x) p, wide x)

      first : (x : A) (p : List B) → length (take stride (add_to (spread x) p)) ≡ stride
      first x p =
          omega
            (arith, length-take stride (add_to (spread x) p), length-add_to (spread x) p, wide x)

      pub length-laid :
          (xs : List A) (p : List B)
          → length p ≡ trim
          → length (laid p xs) ≡ length xs * stride + trim
      unfolding laid
      length-laid [] p h = omega (arith, h)
      length-laid (x ∷ xs) p h =
          let q : List B = add_to (spread x) p in
          let rest = length-laid xs (drop stride q) (left x p) in
          let d : suc (length xs) * stride ≡ stride + length xs * stride = grind arith in
          omega (arith, length-append (take stride q) (laid (drop stride q) xs), first x p, rest, d)

      -- What is laid for two runs of columns is what is laid for the first, with the second laid
      -- onto its last columns.
      pub laid-append :
          (xs ys : List A) (p : List B)
          → length p ≡ trim
          → laid p (xs ++ ys)
            ≡ take (length xs * stride) (laid p xs)
              ++ laid (drop (length xs * stride) (laid p xs)) ys
      unfolding laid
      laid-append [] ys p h =
          let d : 0 ≡ 0 * stride = omega arith in ap (λ k. take k p ++ laid (drop k p) ys) d
      laid-append (x ∷ xs) ys p h =
          let q : List B = add_to (spread x) p in
          let here : List B = take stride q in
          let more : List B = laid (drop stride q) xs in
          let k : ℕ = length xs * stride in
          let d : suc (length xs) * stride ≡ length here + k =
            let e : suc (length xs) * stride ≡ stride + length xs * stride = grind arith in
            omega (arith, e, first x p) in
          let rest = laid-append xs ys (drop stride q) (left x p) in
          let split : here ++ (take k more ++ laid (drop k more) ys)
              ≡ take (length here + k) (here ++ more)
                ++ laid (drop (length here + k) (here ++ more)) ys =
            sym (append_assoc here (take k more) (laid (drop k more) ys))
            ∙ ap₂ (λ a b. a ++ laid b ys) (sym (take-append_past here more k))
                (sym (drop-append_past here more k)) in
          ap (λ l. here ++ l) rest
          ∙ split
          ∙ ap (λ n. take n (here ++ more) ++ laid (drop n (here ++ more)) ys) (sym d)

      pub laid-add_to :
          (e : Exact) (xs : List A) (p r : List B)
          → length p ≡ trim
          → length r ≤ trim
          → laid (add_to p r) xs ≡ add_to (laid p xs) r
      unfolding laid
      laid-add_to e [] p r h le = refl
      laid-add_to e (x ∷ xs) p r h le =
          let q : List B = add_to (spread x) p in
          let same : add_to (spread x) (add_to p r) ≡ add_to q r =
            add_to_assoc e (spread x) p r (omega arith) in
          let rest =
            laid-add_to e xs (drop stride q) (drop stride r) (left x p)
              (omega (arith, length-drop stride r)) in
          ap (λ l. take stride l ++ laid (drop stride l) xs) same
          ∙ ap₂ ◌++◌ (take-add_to stride q r) (ap (λ l. laid l xs) (drop-add_to stride q r) ∙ rest)
          ∙ ap
              (λ n.
                add_to (take stride q) (take n r) ++ add_to (laid (drop stride q) xs) (drop n r))
              (sym (first x p))
          ∙ sym (add_to-append (take stride q) (laid (drop stride q) xs) r)
