-- ===== src/Conv/Down/Chunks.antt =====
-- A streaming convolution fed a reading in chunks convolves the whole.

use vvaves.Common.{
  ℕ, suc, ◌+◌, ◌-◌, ◌*◌, ◌<◌, ◌≡◌, refl, ap, ap₂, ◌∙◌, sym, false, Option, none, some, List, [],
  ◌∷◌, ◌++◌, map, length, drop, replicate, All, length-append, map-append, append_assoc, arith,
}
use vvaves.Common.Results.{Result, ok}
use vvaves.Conv.{
  StreamingConv1d, effective_kernel_size, Previous, replicates, with_padding, init_state,
  found_or_new,
}
use vvaves.Conv.Windows.{windows, IsConv, windows-append}
use vvaves.Conv.Down.{
  feed, first_padding, IsWhole, columns, found_first, with_padding-first, hops, with_padding-later,
  conv-windows, Holds, forward-windows, first-Padding,
}

module _ {A B : Type 0} (conv : List A → Result (List B)) (zero_column : A)
    (c : StreamingConv1d) where
  module _ (f : List A → B) (law : IsConv (effective_kernel_size c) c.stride f conv)
      (pos : 0 < c.stride) where
    -- What is fed makes the first windows of the padded columns.
    unfoldable pub Makes : Option (Previous A) → List A → List (List A × ℕ) → Type 0
    Makes state p chunks =
        (n : ℕ) × (length (columns chunks) ≡ n * c.stride)
        × ((feed conv zero_column c) state chunks
            ≡ ok (map f (windows n (effective_kernel_size c) c.stride (p ++ columns chunks))))

    pub feed-cons :
        (chunk : List A × ℕ) (chunks : List (List A × ℕ)) (state : Option (Previous A))
        (p prev : List A) (n : ℕ)
        → length p ≡ effective_kernel_size c - c.stride
        → length chunk.0 ≡ suc n * c.stride
        → (0 < effective_kernel_size c - c.stride
            → found_or_new state (init_state zero_column c) ≡ some prev)
        → (0 < effective_kernel_size c - c.stride
            → with_padding c (effective_kernel_size c - c.stride) prev chunk.0 chunk.1
              ≡ p ++ chunk.0)
        → ((state' : Option (Previous A)) (q : List A)
            → (Holds conv zero_column c f law pos) state' q
            → Makes state' q chunks)
        → (m : ℕ) × (length (columns (chunk ∷ chunks)) ≡ suc m * c.stride)
          × ((feed conv zero_column c) state (chunk ∷ chunks)
              ≡ ok (
                  map f (
                    windows
                      (suc m)
                      (effective_kernel_size c)
                      c.stride
                      (p ++ columns (chunk ∷ chunks)))))
    unfolding feed columns Makes
    feed-cons chunk chunks state p prev n lp lx found pads makes =
        let x : List A = chunk.0 in
        let (state', now, holds') =
          (forward-windows conv zero_column c f law pos) state p prev x chunk.1 n lp lx found
            pads in
        let (m, lrest, rest) = makes state' (drop (suc n * c.stride) (p ++ x)) holds' in
        let all : List A = columns chunks in
        let seen : ℕ → List A → List (List A) =
          λ k xs. windows k (effective_kernel_size c) c.stride xs in
        let d : suc (n + m) * c.stride ≡ suc n * c.stride + m * c.stride = grind arith in
        let e : suc n + m ≡ suc (n + m) = omega arith in
        let lpx : length (p ++ x) ≡ (effective_kernel_size c - c.stride) + suc n * c.stride =
          omega (arith, length-append p x, lp, lx) in
        let q : List A = drop (suc n * c.stride) (p ++ x) in
        let both : ◌≡◌ {A = Result (List B)}
            (ok (map f (seen (suc n) (p ++ x)) ++ map f (seen m (q ++ all))))
            (ok (map f (seen (suc (n + m)) (p ++ (x ++ all))))) =
          ap ok (
            sym (map-append f (seen (suc n) (p ++ x)) (seen m (q ++ all)))
            ∙ ap (map f) (
                sym
                  (windows-append (suc n) m (effective_kernel_size c) c.stride (p ++ x) all pos lpx)
                ∙ ap₂ seen e (append_assoc p x all))) in
        (n + m, omega (arith, length-append x all, lx, lrest, d), rw (now, rest) both)

    pub feed-Makes :
        (chunks : List (List A × ℕ)) (state : Option (Previous A)) (p : List A)
        → (Holds conv zero_column c f law pos) state p
        → All (IsWhole c) chunks
        → All (λ k. replicates c k.1 ≡ false) chunks
        → Makes state p chunks
    unfolding feed columns Holds windows Makes
    feed-Makes [] state p holds whole later = (0, omega arith, refl)
    feed-Makes (chunk ∷ chunks) state p holds whole later =
        let (n, lx) = hops c chunk pos whole.0 in
        let (m, len, e) =
          feed-cons chunk chunks state p p n holds.0 lx holds.1
            (λ some_pad.
              with_padding-later c (effective_kernel_size c - c.stride) p chunk.0 chunk.1 later.0)
            (λ state' q holds'. feed-Makes chunks state' q holds' whole.1 later.1) in
        (suc m, len, e)

    -- Where candle's convolution is what it is documented to be and the stride is at least 1, a
    -- reading cut into chunks, each some positive number of strides long, and fed to a new state
    -- yields the convolution of the whole reading behind its first padding, if no chunk after the
    -- first replicates.
    pub feed-conv :
        (chunk : List A × ℕ) (chunks : List (List A × ℕ))
        → All (IsWhole c) (chunk ∷ chunks)
        → All (λ k. replicates c k.1 ≡ false) chunks
        → (feed conv zero_column c) none (chunk ∷ chunks)
          ≡ conv ((first_padding conv zero_column c) chunk.0 chunk.1 ++ columns (chunk ∷ chunks))
    unfolding IsWhole
    feed-conv chunk chunks whole later =
        let pad : ℕ = effective_kernel_size c - c.stride in
        let p : List A = (first_padding conv zero_column c) chunk.0 chunk.1 in
        let lp : length p ≡ pad = (first-Padding conv zero_column c) chunk.0 chunk.1 whole.0.0 in
        let (n, lx) = hops c chunk pos whole.0 in
        let (m, len, e) =
          feed-cons chunk chunks none p (replicate pad zero_column) n lp lx
            (found_first conv zero_column c)
            (λ some_pad. (with_padding-first conv zero_column c) chunk.0 chunk.1)
            (λ state' q holds'. feed-Makes chunks state' q holds' whole.1 later) in
        let total : length (p ++ columns (chunk ∷ chunks)) ≡ pad + suc m * c.stride =
          omega (arith, length-append p (columns (chunk ∷ chunks)), lp, len) in
        e
        ∙ sym ((conv-windows conv zero_column c f law pos) m (p ++ columns (chunk ∷ chunks)) total)
