-- ===== src/Conv/Down/Restarts.antt =====
-- A streaming convolution that starts again: a chunk at step 0 begins a reading of its own, in the mode
-- "replicate".
use text.Mathlib.Text.{◌==◌ as str_eq}
use vvaves.Common.{
  ℕ, suc, ◌-◌, ◌*◌, ◌<◌, ◌==◌, ◌≡◌, refl, ap, ap₂, ◌∙◌, sym, true, false, Option, none, some, List,
  [], ◌∷◌, ◌++◌, map, length, drop, replicate, All, length-append, append_assoc, arith,
}
use vvaves.Common.Results.{Result, ok, err, ◌>>=◌}
use vvaves.Conv.{
  StreamingConv1d, effective_kernel_size, Previous, replicates, replicated, with_padding,
  init_state, found_or_new,
}
use vvaves.Conv.Windows.{windows, IsConv}
use vvaves.Conv.Down.{
  feed, first_padding, IsWhole, columns, found_first, hops, with_padding-later, conv-windows, Holds,
  forward-windows, first-Padding,
}
use vvaves.Conv.Down.Chunks.{feed-cons, feed-Makes, Makes}

module _ {B : Type 0} where
  -- One result behind another.
  infixl 4 ◌followed_by◌
  abbrev pub ◌followed_by◌ : Result (List B) → Result (List B) → Result (List B)
  r followed_by r' = r >>= λ ys. r' >>= λ zs. ok (ys ++ zs)

  none_before : (r : Result (List B)) → r ≡ (ok [] followed_by r)
  none_before (ok ys) = refl
  none_before err = refl

  regroup :
      (y : List B) (r r' : Result (List B))
      → ((r followed_by r') >>= λ w. ok (y ++ w)) ≡ ((r >>= λ ys. ok (y ++ ys)) followed_by r')
  regroup y err r' = refl
  regroup y (ok ys) err = refl
  regroup y (ok ys) (ok zs) = ap ok (sym (append_assoc y ys zs))

-- A reading: its first chunk and those behind it.
abbrev pub Utterance : Type 0 → Type 0
Utterance A = (List A × ℕ) × List (List A × ℕ)

abbrev pub chunks_of : {A : Type 0} → List (Utterance A) → List (List A × ℕ)
chunks_of [] = []
chunks_of ((first, later) ∷ readings) = (first ∷ later) ++ chunks_of readings

module _ {A B : Type 0} (conv : List A → Result (List B)) (zero_column : A)
    (c : StreamingConv1d) where
  -- Columns behind copies of the first one, as many as the kernel is longer than the stride.
  abbrev pub behind_copies : List A → List A
  behind_copies [] = []
  behind_copies (x ∷ xs) = replicate (effective_kernel_size c - c.stride) x ++ (x ∷ xs)

  -- Each reading convolved on its own.
  abbrev pub each : List (Utterance A) → Result (List B)
  each [] = ok []
  each ((first, later) ∷ readings) =
      conv (behind_copies (columns (first ∷ later))) followed_by each readings

  -- Its chunks are whole, the first one is at step 0 and the others are at later steps.
  abbrev pub IsStepped : Utterance A → Type 0
  IsStepped (first, later) =
      All (IsWhole c) (first ∷ later) × (first.1 ≡ 0) × All (λ k. 0 < k.1) later

  -- The first one replicates and no other does.
  abbrev StartsAgain : Utterance A → Type 0
  StartsAgain (first, later) =
      All (IsWhole c) (first ∷ later)
      × (replicates c first.1 ≡ true)
      × All (λ k. replicates c k.1 ≡ false) later

  later_step : (n : ℕ) → 0 < n → replicates c n ≡ false
  unfolding replicates
  later_step n h = let apart : (n == 0) ≡ false = ground arith in rw apart refl

  later_steps :
      (later : List (List A × ℕ))
      → All (λ k. 0 < k.1) later
      → All (λ k. replicates c k.1 ≡ false) later
  later_steps [] h = tt
  later_steps (k ∷ later) (here, h) = (later_step k.1 here, later_steps later h)

  All-StartsAgain :
      (readings : List (Utterance A))
      → str_eq c.padding_mode "replicate" ≡ true
      → All IsStepped readings
      → All StartsAgain readings
  unfolding replicates
  All-StartsAgain [] mode h = tt
  All-StartsAgain ((first, later) ∷ readings) mode ((whole, here, behind), h) =
      ((whole, rw (here, mode) refl, later_steps later behind), All-StartsAgain readings mode h)

  first_copies :
      (x : List A) (step : ℕ) (later : List (List A × ℕ))
      → 0 < length x
      → replicates c step ≡ true
      → first_padding conv zero_column c x step ++ columns ((x, step) ∷ later)
        ≡ behind_copies (columns ((x, step) ∷ later))
  unfolding first_padding columns replicated
  first_copies [] step later some_column h = absurd (omega arith)
  first_copies (x ∷ xs) step later some_column h = rw h refl

  -- A state that a chunk can be put behind.
  abbrev IsReady : Option (Previous A) → Type 0
  IsReady state =
      (prev : List A) × (0 < effective_kernel_size c - c.stride
        → found_or_new state (init_state zero_column c) ≡ some prev)

  with_padding-again :
      (prev x : List A) (step : ℕ)
      → replicates c step ≡ true
      → with_padding c (effective_kernel_size c - c.stride) prev x step
        ≡ first_padding conv zero_column c x step ++ x
  unfolding with_padding first_padding
  with_padding-again prev x step h = rw h refl

  module _ (f : List A → B) (law : IsConv (effective_kernel_size c) c.stride f conv)
      (pos : 0 < c.stride) where
    abbrev Splits : Option (Previous A) → List (List A × ℕ) → List (List A × ℕ) → Type 0
    Splits state chunks rest =
        (state' : Option (Previous A)) × IsReady state'
        × (feed conv zero_column c state (chunks ++ rest) ≡ (
            feed conv zero_column c state chunks followed_by feed conv zero_column c state' rest))

    -- A chunk, whatever it is padded with, and what is behind it.
    cons-Splits :
        (chunk : List A × ℕ) (chunks rest : List (List A × ℕ)) (state : Option (Previous A))
        (p prev : List A) (n : ℕ)
        → length p ≡ effective_kernel_size c - c.stride
        → length chunk.0 ≡ suc n * c.stride
        → (0 < effective_kernel_size c - c.stride
            → found_or_new state (init_state zero_column c) ≡ some prev)
        → (0 < effective_kernel_size c - c.stride
            → with_padding c (effective_kernel_size c - c.stride) prev chunk.0 chunk.1
              ≡ p ++ chunk.0)
        → ((state' : Option (Previous A)) (q : List A)
            → Holds conv zero_column c f law pos state' q
            → Splits state' chunks rest)
        → Splits state (chunk ∷ chunks) rest
    unfolding feed
    cons-Splits chunk chunks rest state p prev n lp lx found pads behind =
        let (state', now, holds) =
          forward-windows conv zero_column c f law pos state p prev chunk.0 chunk.1 n lp lx found
            pads in
        let (last, ready, e) = behind state' (drop (suc n * c.stride) (p ++ chunk.0)) holds in
        let y : List B =
          map f (windows (suc n) (effective_kernel_size c) c.stride (p ++ chunk.0)) in
        (
          last,
          ready,
          rw now (
              ap (λ r. r >>= λ w. ok (y ++ w)) e
              ∙ regroup y (feed conv zero_column c state' chunks)
                  (feed conv zero_column c last rest)),
        )

    later-Splits :
        (chunks rest : List (List A × ℕ)) (state : Option (Previous A)) (p : List A)
        → Holds conv zero_column c f law pos state p
        → All (IsWhole c) chunks
        → All (λ k. replicates c k.1 ≡ false) chunks
        → Splits state chunks rest
    unfolding feed Holds
    later-Splits [] rest state p holds whole later =
        (state, (p, holds.1), none_before (feed conv zero_column c state rest))
    later-Splits (chunk ∷ chunks) rest state p holds whole later =
        let (n, lx) = hops c chunk pos whole.0 in
        cons-Splits chunk chunks rest state p p n holds.0 lx holds.1
          (λ some_pad.
            with_padding-later c (effective_kernel_size c - c.stride) p chunk.0 chunk.1 later.0)
          (λ state' q holds'. later-Splits chunks rest state' q holds' whole.1 later.1)

    -- A reading that starts again, behind whatever came before.
    again-conv :
        (first : List A × ℕ) (later : List (List A × ℕ)) (state : Option (Previous A))
        → IsReady state
        → StartsAgain (first, later)
        → feed conv zero_column c state (first ∷ later)
          ≡ conv (behind_copies (columns (first ∷ later)))
    unfolding IsWhole Makes
    again-conv first later state (prev, found) (whole, here, behind) =
        let p : List A = first_padding conv zero_column c first.0 first.1 in
        let lp = first-Padding conv zero_column c first.0 first.1 whole.0.0 in
        let (n, lx) = hops c first pos whole.0 in
        let (k, len, e) =
          feed-cons conv zero_column c f law pos first later state p prev n lp lx found
            (λ some_pad. with_padding-again prev first.0 first.1 here)
            (λ state' q holds.
              feed-Makes conv zero_column c f law pos later state' q holds whole.1 behind) in
        e
        ∙ sym (
            conv-windows conv zero_column c f law pos k (p ++ columns (first ∷ later))
              (omega (arith, length-append p (columns (first ∷ later)), lp, len)))
        ∙ ap conv (first_copies first.0 first.1 later whole.0.0 here)

    again-Splits :
        (first : List A × ℕ) (later rest : List (List A × ℕ)) (state : Option (Previous A))
        → IsReady state
        → StartsAgain (first, later)
        → Splits state (first ∷ later) rest
    unfolding IsWhole
    again-Splits first later rest state (prev, found) (whole, here, behind) =
        let p : List A = first_padding conv zero_column c first.0 first.1 in
        let (n, lx) = hops c first pos whole.0 in
        cons-Splits first later rest state p prev n
          (first-Padding conv zero_column c first.0 first.1 whole.0.0) lx found
          (λ some_pad. with_padding-again prev first.0 first.1 here)
          (λ state' q holds. later-Splits later rest state' q holds whole.1 behind)

    feed-each :
        (readings : List (Utterance A)) (state : Option (Previous A))
        → IsReady state
        → All StartsAgain readings
        → feed conv zero_column c state (chunks_of readings) ≡ each readings
    unfolding feed
    feed-each [] state ready h = refl
    feed-each ((first, later) ∷ readings) state ready (here, h) =
        let (state', ready', e) = again-Splits first later (chunks_of readings) state ready here in
        e
        ∙ ap₂ (λ r r'. r followed_by r') (again-conv first later state ready here)
            (feed-each readings state' ready' h)

    -- Where candle's convolution is what it is documented to be, the stride is at least 1 and the
    -- mode is `replicate`: readings that are fed one after the other to one state, each in chunks of
    -- some positive number of strides of which the first is at step 0 and no other is, come out end
    -- to end as each comes out on its own, convolved as a whole behind copies of its own first
    -- column, as many as the kernel is longer than the stride. So a voice prompt whose chunks are
    -- all at step 0 is convolved chunk by chunk, each chunk on its own.
    pub feed-restarts :
        (readings : List (Utterance A))
        → str_eq c.padding_mode "replicate" ≡ true
        → All IsStepped readings
        → feed conv zero_column c none (chunks_of readings) ≡ each readings
    feed-restarts readings mode h =
        feed-each readings none
          (
            replicate (effective_kernel_size c - c.stride) zero_column,
            found_first conv zero_column c,
          )
          (All-StartsAgain readings mode h)
