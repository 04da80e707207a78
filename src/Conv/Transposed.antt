-- ===== src/Conv/Transposed.antt =====
-- The transposed convolution of conv.rs, which keeps the overlap of two calls in "partial".
pub mod Laid
pub mod Chunks
use vvaves.Common.{
  ℕ, zero, suc, ◌-◌, ◌*◌, Option, none, some, List, [], ◌∷◌, ◌++◌, map, length, replicate, ltb,
  if◌then◌else◌,
}
use vvaves.Common.Results.{Result, ok, ◌>>=◌}
use vvaves.Conv.{narrow, found_or_new}

pub record StreamingConvTranspose1d (B : Type 0) : Type 0 where
  pub stride : ℕ
  pub kernel_size : ℕ
  pub bias : Option B

-- The sum and the difference of two columns.
pub record Columns (B : Type 0) : Type 0 where
  pub zero_column : B
  pub add : B → B → B
  pub sub : B → B → B

module _ {B : Type 0} (o : Columns B) where
  -- The entry "partial" of a new state.
  pub init_state : StreamingConvTranspose1d B → Option (List B)
  init_state c =
      if ltb c.stride c.kernel_size
      then some (replicate (c.kernel_size - c.stride) o.zero_column)
      else none

  -- The sum of two tensors of one length.
  pub sum : List B → List B → List B
  sum [] ys = []
  sum (x ∷ xs) [] = []
  sum (x ∷ xs) (y ∷ ys) = o.add x y ∷ sum xs ys

  pub overlapped : Option (List B) → ℕ → List B → List B
  unfolding sum
  overlapped none trim y = y
  overlapped (some partial) trim y =
      sum (narrow y 0 trim) partial ++ narrow y trim (length y - trim)

  pub without_bias : Option B → List B → List B
  without_bias none ys = ys
  without_bias (some b) ys = map (λ y. o.sub y b) ys

  pub trimmed : StreamingConvTranspose1d B → ℕ → Option (List B) → List B → List B × Option (List B)
  unfolding overlapped without_bias
  trimmed c zero m y = (y, m)
  trimmed c (suc t) m y =
      let y' = overlapped m (suc t) y in
      let len = length y' in
      (narrow y' 0 (len - suc t), some (without_bias c.bias (narrow y' (len - suc t) (suc t))))

  pub forward :
      {A : Type 0}
      → (List A → Result (List B))
      → StreamingConvTranspose1d B
      → Option (Option (List B))
      → List A
      → Result (List B × Option (Option (List B)))
  unfolding init_state trimmed
  forward convtr c state x = do
    y ← convtr x
    let (out, m) = trimmed c (c.kernel_size - c.stride) (found_or_new state (init_state c)) y
    ok (out, some m)

-- `ConvTrUpsample1d::new`, which then forwards to its convolution.
unfoldable pub upsample : {B : Type 0} → ℕ → StreamingConvTranspose1d B
upsample stride = record { stride = stride; kernel_size = 2 * stride; bias = none }
