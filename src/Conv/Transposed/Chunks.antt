-- ===== src/Conv/Transposed/Chunks.antt =====
-- A streaming transposed convolution fed a reading in chunks yields the whole reading's, less the
-- tail that is still to be overlapped.
use vvaves.Common.{
  ℕ, zero, suc, ◌+◌, ◌-◌, ◌*◌, ◌≤◌, ◌<◌, ◌≡◌, refl, ap, ap₂, ◌∙◌, sym, Option, none, some, List, [],
  ◌∷◌, ◌++◌, length, take, drop, replicate, concat, All, length-append, length-take, length-drop,
  length-replicate, take_all, take-append_past, lt→ltb, arith,
}
use vvaves.Common.Results.{Result, ok, ◌>>=◌}
use vvaves.Conv.{found_or_new}
use vvaves.Conv.Transposed.{
  Columns, StreamingConvTranspose1d, sum, overlapped, trimmed, init_state, forward,
}
use vvaves.Conv.Transposed.Laid.{
  add_to, with_bias, Exact, with_bias-add_to, zeros-add_to, laid, length-laid, laid-append,
  laid-add_to, length-with_bias, take-with_bias, drop-with_bias, without-with_bias,
  with_bias-append, with_bias-nil,
}

module _ {B : Type 0} (o : Columns B) where
  -- `sum` with the front, then the rest.
  sum-add_to :
      (ys ps : List B)
      → length ps ≤ length ys
      → sum o (take (length ps) ys) ps ++ drop (length ps) ys ≡ add_to o ys ps
  unfolding sum add_to
  sum-add_to ys [] h = refl
  sum-add_to [] (p ∷ ps) h = absurd (omega arith)
  sum-add_to (y ∷ ys) (p ∷ ps) h = ap (λ l. o.add y p ∷ l) (sum-add_to ys ps (omega arith))

  overlapped-add_to :
      (trim : ℕ) (ys ps : List B)
      → length ps ≡ trim
      → trim ≤ length ys
      → overlapped o (some ps) trim ys ≡ add_to o ys ps
  unfolding overlapped
  overlapped-add_to trim ys ps h le =
      let l : length (drop trim ys) ≤ length ys - trim = omega (arith, length-drop trim ys) in
      rw (take_all (length ys - trim) (drop trim ys) l, sym h) (sum-add_to ys ps (omega arith))

-- candle's documented result for an input that is not empty: the contributions of the columns, each
-- as long as the kernel, a stride apart and summed where they overlap, with the bias on top.
unfoldable pub IsConvTr :
    {A B : Type 0}
    → Columns B
    → StreamingConvTranspose1d B
    → (A → List B)
    → (List A → Result (List B))
    → Type 0
IsConvTr {A} o c spread convtr =
    ((x : A) → length (spread x) ≡ c.kernel_size)
    × ((xs : List A)
        → 0 < length xs
        → convtr xs
          ≡ ok (
              with_bias o c.bias
                (laid o spread c.stride (replicate (c.kernel_size - c.stride) o.zero_column) xs)))

kept : {B : Type 0} → ℕ → Option (List B) → List B → Option (List B)
kept zero m q = m
kept (suc t) m q = some q

kept-some : {B : Type 0} (t : ℕ) (m : Option (List B)) (q : List B) → 0 < t → kept t m q ≡ some q
unfolding kept
kept-some zero m q h = absurd (omega arith)
kept-some (suc t) m q h = refl

module _ {A B : Type 0} (o : Columns B) (c : StreamingConvTranspose1d B)
    (convtr : List A → Result (List B)) where
  -- The chunks one after the other: the outputs end to end.
  pub feed : Option (Option (List B)) → List (List A) → Result (List B)
  feed state [] = ok []
  feed state (x ∷ chunks) = do
    (y, state') ← forward o convtr c state x
    ys ← feed state' chunks
    ok (y ++ ys)

  module _ (e : Exact o) (spread : A → List B) (law : IsConvTr o c spread convtr)
      (wide : c.stride ≤ c.kernel_size) where
    abbrev trim : ℕ
    trim = c.kernel_size - c.stride

    abbrev lay : List B → List A → List B
    lay = laid o spread c.stride

    spread-wide : (x : A) → length (spread x) ≡ c.stride + trim
    unfolding IsConvTr
    spread-wide x = omega (arith, law.0 x)

    lay-onto :
        (p : List B) (xs : List A)
        → length p ≡ trim
        → add_to o (lay (replicate trim o.zero_column) xs) p ≡ lay p xs
    lay-onto p xs lp =
        let zeros : List B = replicate trim o.zero_column in
        sym (
          laid-add_to o spread c.stride trim spread-wide e xs zeros p
            (length-replicate trim o.zero_column) (omega arith))
        ∙ ap (λ l. lay l xs) (zeros-add_to o e trim p lp)

    trimmed-laid :
        (t : ℕ) (m : Option (List B)) (p : List B) (xs : List A)
        → t ≡ trim
        → length p ≡ t
        → (0 < t → m ≡ some p)
        → trimmed o c t m (with_bias o c.bias (lay (replicate trim o.zero_column) xs)) ≡ (
          with_bias o c.bias (take (length xs * c.stride) (lay p xs)),
          kept t m (drop (length xs * c.stride) (lay p xs)),
        )
    unfolding trimmed kept
    trimmed-laid zero m (y ∷ p) xs h lp found = absurd (omega arith)
    trimmed-laid zero m [] xs h lp found =
        let len : length (lay [] xs) ≡ length xs * c.stride + trim =
          length-laid o spread c.stride trim spread-wide xs [] h in
        let none_left : length (lay [] xs) ≤ length xs * c.stride = omega (arith, len) in
        let same : lay (replicate trim o.zero_column) xs ≡ take (length xs * c.stride) (lay [] xs) =
          ap (λ k. lay (replicate k o.zero_column) xs) (sym h)
          ∙ sym (take_all (length xs * c.stride) (lay [] xs) none_left) in
        ap (λ l. (with_bias o c.bias l, m)) same
    trimmed-laid (suc t) m p xs h lp found =
        let y : List B = with_bias o c.bias (lay (replicate trim o.zero_column) xs) in
        let b : Option B = c.bias in
        let k : ℕ = length xs * c.stride in
        let ly : length y ≡ k + trim =
          length-with_bias o b (lay (replicate trim o.zero_column) xs)
          ∙ length-laid o spread c.stride trim spread-wide xs (replicate trim o.zero_column)
              (length-replicate trim o.zero_column) in
        let over : overlapped o (some p) (suc t) y ≡ with_bias o b (lay p xs) =
          overlapped-add_to o (suc t) y p lp (omega (arith, ly))
          ∙ with_bias-add_to o e b (lay (replicate trim o.zero_column) xs) p
          ∙ ap (with_bias o b) (lay-onto p xs (omega arith)) in
        let lp' : length (lay p xs) ≡ k + trim =
          length-laid o spread c.stride trim spread-wide xs p (omega arith) in
        let from : length (with_bias o b (lay p xs)) - suc t ≡ k =
          omega (arith, length-with_bias o b (lay p xs), lp') in
        let tail : length (drop k (lay p xs)) ≤ suc t =
          omega (arith, length-drop k (lay p xs), lp') in
        rw
          (
            found (omega arith),
            over,
            from,
            take-with_bias o b k (lay p xs),
            drop-with_bias o b k (lay p xs),
            take-with_bias o b (suc t) (drop k (lay p xs)),
            take_all (suc t) (drop k (lay p xs)) tail,
            without-with_bias o e b (drop k (lay p xs)),
          )
          refl

    Holds : Option (Option (List B)) → List B → Type 0
    Holds state p = (length p ≡ trim) × (0 < trim → found_or_new state (init_state o c) ≡ some p)

    forward-laid :
        (state : Option (Option (List B))) (p : List B) (xs : List A)
        → Holds state p
        → 0 < length xs
        → (state' : Option (Option (List B))) × (forward o convtr c state xs
            ≡ ok (with_bias o c.bias (take (length xs * c.stride) (lay p xs)), state'))
          × Holds state' (drop (length xs * c.stride) (lay p xs))
    unfolding forward Holds IsConvTr kept
    forward-laid state p xs holds some_x =
        let m : Option (List B) = found_or_new state (init_state o c) in
        let k : ℕ = length xs * c.stride in
        let q : List B = drop k (lay p xs) in
        let lq : length q ≡ trim = omega (
          arith,
          length-drop k (lay p xs),
          length-laid o spread c.stride trim spread-wide xs p holds.0,
        ) in
        (
          some (kept trim m q),
          rw (law.1 xs some_x, trimmed-laid trim m p xs refl holds.0 holds.1) refl,
          (lq, λ some_trim. kept-some trim m q some_trim),
        )

    cut :
        (x rest : List A) (p : List B)
        → length p ≡ trim
        → with_bias o c.bias (take (length x * c.stride) (lay p x))
            ++ with_bias o c.bias
                (take (length rest * c.stride) (lay (drop (length x * c.stride) (lay p x)) rest))
          ≡ with_bias o c.bias (take (length (x ++ rest) * c.stride) (lay p (x ++ rest)))
    cut x rest p lp =
        let k : ℕ = length x * c.stride in
        let k' : ℕ = length rest * c.stride in
        let one : List B = take k (lay p x) in
        let two : List B = lay (drop k (lay p x)) rest in
        let lone : length one ≡ k =
          omega (
            arith,
            length-take k (lay p x),
            length-laid o spread c.stride trim spread-wide x p lp,
          ) in
        let d : length (x ++ rest) * c.stride ≡ k + k' =
          ap (λ n. n * c.stride) (length-append x rest) ∙ grind arith in
        with_bias-append o c.bias one (take k' two)
        ∙ ap (with_bias o c.bias) (
            sym (take-append_past one two k')
            ∙ ap₂ take (omega (arith, lone, d))
                (sym (laid-append o spread c.stride trim spread-wide x rest p lp)))

    found_first :
        0 < trim → found_or_new none (init_state o c) ≡ some (replicate trim o.zero_column)
    unfolding init_state
    found_first h = rw (lt→ltb c.stride c.kernel_size (omega arith)) refl

    feed-laid :
        (chunks : List (List A)) (state : Option (Option (List B))) (p : List B)
        → Holds state p
        → All (λ x. 0 < length x) chunks
        → feed state chunks
          ≡ ok (
              with_bias o c.bias (take (length (concat chunks) * c.stride) (lay p (concat chunks))))
    unfolding feed Holds
    feed-laid [] state p holds whole =
        let d : 0 * c.stride ≡ 0 = omega arith in rw d (ap ok (sym (with_bias-nil o c.bias)))
    feed-laid (x ∷ chunks) state p holds whole =
        let (state', now, holds') = forward-laid state p x holds whole.0 in
        let k : ℕ = length x * c.stride in
        let rest = feed-laid chunks state' (drop k (lay p x)) holds' whole.1 in
        rw (now, rest) (ap ok (cut x (concat chunks) p holds.0))

    -- Where sums are exact, candle's transposed convolution is what it is documented to be and the
    -- kernel is no shorter than the stride, a reading cut into chunks that are not empty and fed to
    -- a new state yields the transposed convolution of the whole reading, less the columns at its
    -- end that the kernel is longer than the stride.
    pub feed-convtr :
        (x : List A) (chunks : List (List A))
        → All (λ x. 0 < length x) (x ∷ chunks)
        → feed none (x ∷ chunks) ≡ (do
          y ← convtr (concat (x ∷ chunks))
          ok (take (length y - (c.kernel_size - c.stride)) y))
    unfolding IsConvTr Holds
    feed-convtr x chunks whole =
        let zeros : List B = replicate trim o.zero_column in
        let xs : List A = concat (x ∷ chunks) in
        let some_x : 0 < length xs = omega (arith, length-append x (concat chunks), whole.0) in
        let y : List B = with_bias o c.bias (lay zeros xs) in
        let ly : length y - trim ≡ length xs * c.stride = omega (
          arith,
          length-with_bias o c.bias (lay zeros xs),
          length-laid o spread c.stride trim spread-wide xs zeros
              (length-replicate trim o.zero_column),
        ) in
        let made : feed none (x ∷ chunks)
            ≡ ok (with_bias o c.bias (take (length xs * c.stride) (lay zeros xs))) =
          feed-laid (x ∷ chunks) none zeros (length-replicate trim o.zero_column, found_first)
            whole in
        made
        ∙ sym (
            rw (law.1 xs some_x, ly, take-with_bias o c.bias (length xs * c.stride) (lay zeros xs))
              refl)
