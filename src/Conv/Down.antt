-- ===== src/Conv/Down.antt =====
-- The streaming convolution of conv.rs over a reading cut into chunks.
pub mod Chunks
pub mod Restarts
use native.Mathlib.Nat.{mul-mod_left, div-add-mod'}
use vvaves.Common.{
  ℕ, zero, suc, ◌+◌, ◌-◌, ◌*◌, ◌/◌, ◌%◌, ◌≤◌, ◌<◌, ◌≡◌, refl, ap, ap₂, ◌∙◌, sym, Bool, true, false,
  ◌||◌, not, Option, none, some, List, [], ◌∷◌, ◌++◌, map, length, take, drop, replicate, concat,
  All, ltb, if◌then◌else◌, ◌==◌, length-append, map-append, take_all, append_assoc, append-nil,
  length-drop, length-replicate, Bool-cases, ◌⊎◌, inl, inr, lt→ltb, arith,
}
use vvaves.Common.Results.{Result, ok, err, ◌>>=◌}
use vvaves.Conv.{
  StreamingConv1d, effective_kernel_size, Previous, replicates, replicated, is_refused,
  with_padding, padded, convolved, init_state, found_or_new, forward, narrow,
}
use vvaves.Conv.Windows.{windows, all_windows, IsConv, windows-append, count_windows}

hops_of : (q s l r : ℕ) → q * s + r ≡ l → 0 < l → r ≡ 0 → (n : ℕ) × (l ≡ suc n * s)
hops_of zero s l r e pos none_left = absurd (omega arith)
hops_of (suc n) s l r e pos none_left = (n, omega arith)

some_kernel : (c : StreamingConv1d) → 0 < effective_kernel_size c
unfolding effective_kernel_size
some_kernel c = omega arith

module _ {A : Type 0} where
  pub columns : List (List A × ℕ) → List A
  columns chunks = concat (map (λ k. k.0) chunks)

module _ {A : Type 0} (c : StreamingConv1d) where
  unfoldable pub IsWhole : List A × ℕ → Type 0
  IsWhole chunk = (0 < length chunk.0) × (length chunk.0 % c.stride ≡ 0)

  is_refused-false :
      (n : ℕ) (x : List A) → 0 < c.stride → length x ≡ suc n * c.stride → is_refused c x ≡ false
  unfolding is_refused
  is_refused-false n x pos lx =
      let m : (suc n * c.stride) % c.stride ≡ 0 = mul-mod_left (suc n) c.stride in
      let d : suc n * c.stride ≡ c.stride + n * c.stride = grind arith in
      let r : length x % c.stride ≡ 0 = ap (λ l. l % c.stride) lx ∙ m in ground arith

  pub hops :
      (chunk : List A × ℕ)
      → 0 < c.stride
      → IsWhole chunk
      → (n : ℕ) × (length chunk.0 ≡ suc n * c.stride)
  unfolding IsWhole
  hops chunk pos whole =
      hops_of (length chunk.0 / c.stride) c.stride (length chunk.0) (length chunk.0 % c.stride)
        (div-add-mod' (length chunk.0) c.stride) whole.0 whole.1

  pub with_padding-later :
      (pad : ℕ) (p x : List A) (step : ℕ)
      → replicates c step ≡ false
      → with_padding c pad p x step ≡ p ++ x
  unfolding with_padding
  with_padding-later pad p x step later = rw later refl

module _ {A B : Type 0} (conv : List A → Result (List B)) (zero_column : A)
    (c : StreamingConv1d) where
  -- The chunks with their steps, one after the other: the outputs end to end.
  pub feed : Option (Previous A) → List (List A × ℕ) → Result (List B)
  feed state [] = ok []
  feed state (chunk ∷ chunks) = do
    (y, state') ← forward conv zero_column c state chunk.0 chunk.1
    ys ← feed state' chunks
    ok (y ++ ys)

  -- The padding in front of a reading's first chunk.
  pub first_padding : List A → ℕ → List A
  unfolding effective_kernel_size replicates replicated
  first_padding x step =
      let pad = effective_kernel_size c - c.stride in
      if replicates c step then replicated pad x else replicate pad zero_column

  kept : ℕ → Previous A → List A → Previous A
  kept zero m q = m
  kept (suc p) m q = some q

  kept-some : (pad : ℕ) (m : Previous A) (q : List A) → 0 < pad → kept pad m q ≡ some q
  unfolding kept
  kept-some zero m q h = absurd (omega arith)
  kept-some (suc pad) m q h = refl

  pub found_first :
      0 < effective_kernel_size c - c.stride
      → found_or_new none (init_state zero_column c)
        ≡ some (replicate (effective_kernel_size c - c.stride) zero_column)
  unfolding init_state
  found_first h = rw (lt→ltb c.stride (effective_kernel_size c) (omega arith)) refl

  pub with_padding-first :
      (x : List A) (step : ℕ)
      → with_padding c
          (effective_kernel_size c - c.stride)
          (replicate (effective_kernel_size c - c.stride) zero_column)
          x
          step
        ≡ first_padding x step ++ x
  unfolding with_padding first_padding
  with_padding-first x step = elim (Bool-cases (replicates c step)) [
    | inl y ↦ rw y refl
    | inr y ↦ rw y refl
  ]

  pub first-Padding :
      (x : List A) (step : ℕ)
      → 0 < length x
      → length (first_padding x step) ≡ effective_kernel_size c - c.stride
  unfolding first_padding replicated
  first-Padding [] step h = absurd (omega arith)
  first-Padding (x ∷ xs) step h = elim (Bool-cases (replicates c step)) [
    | inl y ↦ rw y (length-replicate (effective_kernel_size c - c.stride) x)
    | inr y ↦ rw y (length-replicate (effective_kernel_size c - c.stride) zero_column)
  ]

  module _ (f : List A → B) (law : IsConv (effective_kernel_size c) c.stride f conv)
      (pos : 0 < c.stride) where
    pub conv-windows :
        (n : ℕ) (xs : List A)
        → length xs ≡ (effective_kernel_size c - c.stride) + suc n * c.stride
        → conv xs ≡ ok (map f (windows (suc n) (effective_kernel_size c) c.stride xs))
    unfolding IsConv all_windows
    conv-windows n xs len =
        let d : suc n * c.stride ≡ c.stride + n * c.stride = grind arith in
        law xs (omega (arith, len, d))
        ∙ ap (λ k. ok (map f (windows k (effective_kernel_size c) c.stride xs)))
            (ap (λ l. (l - effective_kernel_size c) / c.stride + 1) len
              ∙ count_windows (effective_kernel_size c) c.stride n pos (some_kernel c))

    convolved-windows :
        (pad : ℕ) (m : Previous A) (p prev x : List A) (step n : ℕ)
        → pad ≡ effective_kernel_size c - c.stride
        → length p ≡ pad
        → length x ≡ suc n * c.stride
        → (0 < pad → m ≡ some prev)
        → (0 < pad → with_padding c pad prev x step ≡ p ++ x)
        → convolved conv c pad m x step
          ≡ ok (
            map f (windows (suc n) (effective_kernel_size c) c.stride (p ++ x)),
            kept pad m (drop (suc n * c.stride) (p ++ x)),
          )
    unfolding convolved padded kept
    convolved-windows zero m [] prev x step n e lp lx found pads =
        let here : length x ≡ (effective_kernel_size c - c.stride) + suc n * c.stride =
          omega (arith, e, lx) in
        rw (conv-windows n x here) refl
    convolved-windows zero m (y ∷ p) prev x step n e lp lx found pads = absurd (omega arith)
    convolved-windows (suc pad) m p prev x step n e lp lx found pads =
        let total : length (p ++ x) ≡ suc pad + suc n * c.stride =
          omega (arith, length-append p x, lp, lx) in
        let here : length (p ++ x) ≡ (effective_kernel_size c - c.stride) + suc n * c.stride =
          omega (arith, e, total) in
        let from : length (p ++ x) - suc pad ≡ suc n * c.stride = omega (arith, total) in
        let left : length (drop (suc n * c.stride) (p ++ x)) ≤ suc pad =
          omega (arith, length-drop (suc n * c.stride) (p ++ x), total) in
        rw
          (
            found (omega arith),
            pads (omega arith),
            conv-windows n (p ++ x) here,
            from,
            take_all (suc pad) (drop (suc n * c.stride) (p ++ x)) left,
          )
          refl

    -- What the module's state holds between two chunks.
    pub Holds : Option (Previous A) → List A → Type 0
    Holds state p =
        (length p ≡ effective_kernel_size c - c.stride)
        × (0 < effective_kernel_size c - c.stride
            → found_or_new state (init_state zero_column c) ≡ some p)

    pub forward-windows :
        (state : Option (Previous A)) (p prev x : List A) (step n : ℕ)
        → length p ≡ effective_kernel_size c - c.stride
        → length x ≡ suc n * c.stride
        → (0 < effective_kernel_size c - c.stride
            → found_or_new state (init_state zero_column c) ≡ some prev)
        → (0 < effective_kernel_size c - c.stride
            → with_padding c (effective_kernel_size c - c.stride) prev x step ≡ p ++ x)
        → (state' : Option (Previous A)) × (forward conv zero_column c state x step
            ≡ ok (map f (windows (suc n) (effective_kernel_size c) c.stride (p ++ x)), state'))
          × Holds state' (drop (suc n * c.stride) (p ++ x))
    unfolding forward Holds kept
    forward-windows state p prev x step n lp lx found pads =
        let pad : ℕ = effective_kernel_size c - c.stride in
        let m : Previous A = found_or_new state (init_state zero_column c) in
        let q : List A = drop (suc n * c.stride) (p ++ x) in
        let lq : length q ≡ pad =
          omega (arith, length-drop (suc n * c.stride) (p ++ x), length-append p x, lp, lx) in
        (
          some (kept pad m q),
          rw
              (
                is_refused-false c n x pos lx,
                convolved-windows pad m p prev x step n refl lp lx found pads,
              )
              refl,
          (lq, λ some_pad. kept-some pad m q some_pad),
        )
