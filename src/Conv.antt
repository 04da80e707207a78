-- ===== src/Conv.antt =====
-- apps/tts/crates/engine/src/modules/conv.rs along the time axis: a tensor is the list of its
-- columns. The convolutions themselves are candle's and are parameters. Each returns the module's
-- state with its result; after an error the state is not returned, since every caller gives it up.
pub mod Windows
pub mod Down
pub mod Transposed
mod Examples
use Prim.Native.String.{String}
use text.Mathlib.Text.{◌==◌ as str_eq}
use vvaves.Common.{
  ℕ, zero, suc, ◌+◌, ◌-◌, ◌*◌, ◌%◌, Bool, true, false, ◌&&◌, ◌||◌, not, Option, none, some, List,
  [], ◌∷◌, ◌++◌, map, length, take, drop, replicate, ltb, ◌==◌, if◌then◌else◌,
}
use vvaves.Common.Results.{Result, ok, err, ◌>>=◌}

pub record StreamingConv1d : Type 0 where
  pub padding_mode : String
  pub stride : ℕ
  pub kernel_size : ℕ
  pub dilation : ℕ

pub effective_kernel_size : StreamingConv1d → ℕ
effective_kernel_size c = (c.kernel_size - 1) * c.dilation + 1

-- The entry "previous" of the module's state.
abbrev pub Previous : Type 0 → Type 0
Previous A = Option (List A)

-- Whether the padding is the first column, replicated.
pub replicates : StreamingConv1d → ℕ → Bool
replicates c step = (step == 0) && str_eq c.padding_mode "replicate"

module _ {A : Type 0} where
  -- `narrow` of the time axis
  abbrev pub narrow : List A → ℕ → ℕ → List A
  narrow xs start len = take len (drop start xs)

  -- The state found under the module's name, or a new one.
  abbrev pub found_or_new : Option (Option (List A)) → Option (List A) → Option (List A)
  found_or_new none new = new
  found_or_new (some m) new = m

  -- "Steps must be multiple of stride"
  pub is_refused : StreamingConv1d → List A → Bool
  is_refused c x = (length x == 0) || not (length x % c.stride == 0)

  -- `zero_column` is a column of `Tensor::zeros`.
  pub init_state : A → StreamingConv1d → Previous A
  unfolding effective_kernel_size
  init_state zero_column c =
      let kernel = effective_kernel_size c in
      if ltb c.stride kernel then some (replicate (kernel - c.stride) zero_column) else none

  -- The first column as often as the padding is long.
  pub replicated : ℕ → List A → List A
  replicated pad_left [] = []
  replicated pad_left (x ∷ xs) = replicate pad_left x

  pub with_padding : StreamingConv1d → ℕ → List A → List A → ℕ → List A
  unfolding replicated replicates
  with_padding c pad_left previous x step =
      if replicates c step then replicated pad_left x ++ x else previous ++ x

module _ {A B : Type 0} (conv : List A → Result (List B)) where
  pub padded : StreamingConv1d → ℕ → Previous A → List A → ℕ → Result (List B × Previous A)
  unfolding with_padding
  padded c pad_left none x step = err
  padded c pad_left (some previous) x step =
      let xp = with_padding c pad_left previous x step in
      do y ← conv xp; ok (y, some (narrow xp (length xp - pad_left) pad_left))

  pub convolved : StreamingConv1d → ℕ → Previous A → List A → ℕ → Result (List B × Previous A)
  unfolding padded
  convolved c zero m x step = do y ← conv x; ok (y, m)
  convolved c (suc p) m x step = padded c (suc p) m x step

  pub forward :
      A → StreamingConv1d → Option (Previous A) → List A → ℕ → Result (List B × Option (Previous A))
  unfolding init_state effective_kernel_size convolved is_refused
  forward zero_column c state x step = if is_refused c x then err else do
    (y, m) ←
        convolved c (effective_kernel_size c - c.stride)
          (found_or_new state (init_state zero_column c)) x step
    ok (y, some m)

-- `ConvDownsample1d::new`, which then forwards to its convolution.
pub downsample : ℕ → StreamingConv1d
downsample stride = record {
  padding_mode = "replicate";
  stride = stride;
  kernel_size = 2 * stride;
  dilation = 1;
}
