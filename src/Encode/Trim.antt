-- ===== src/Encode/Trim.antt =====
-- `LeadTrimmer` of encode.rs. A sample is an `i16` as its bit pattern, a natural number.
pub mod Framewise
use mathlib.Core.Option
use mathlib.Core.List.{foldl}
use vvaves.Common.{
  ℕ, ◌+◌, ◌-◌, ◌*◌, ◌/◌, Bool, false, true, Option, none, some, List, [], ◌++◌, length, drop,
  if◌then◌else◌,
}
use vvaves.Common.Pieces.{chunks_exact, position}
use vvaves.Common.Floats.{Floats}

pub record LeadTrimmer (F : Type 0) : Type 0 where
  pub hop : ℕ
  pub keep : ℕ
  pub threshold : F
  pub held : List ℕ
  pub scanned : ℕ
  pub passing : Bool

module _ (f : Floats) where
  open f use {F, add, mul, div, sqrt, powf, gt, of_usize, of_i16, to_usize, sum_zero, lit, neg_lit}

  -- LEAD_KEEP_S is 0.25 and LEAD_SILENCE_DB is -40.0.
  unfoldable pub new : ℕ → LeadTrimmer F
  new sample_rate = record {
    hop = sample_rate / 100;
    keep = to_usize (mul (lit 25 2) (of_usize sample_rate));
    threshold = mul (lit 32767 0) (powf (lit 10 0) (div (neg_lit 40 0) (lit 20 0)));
    held = [];
    scanned = 0;
    passing = false;
  }

  unfoldable pub energy : List ℕ → F
  energy = foldl (λ acc s. add acc (mul (of_i16 s) (of_i16 s))) sum_zero

  -- The test of the closure that `position` is given.
  unfoldable pub is_loud : F → List ℕ → Bool
  unfolding energy
  is_loud threshold c = gt (sqrt (div (energy c) (of_usize (length c)))) threshold

  -- Where the first loud hop that is not yet scanned starts. Rust panics at a hop of no samples,
  -- which is a sample rate below 100.
  unfoldable pub loud_start : LeadTrimmer F → Option ℕ
  loud_start t =
      Option.map (λ i. t.scanned + i * t.hop)
        (position (is_loud t.threshold) (chunks_exact t.hop (drop t.scanned t.held)))

  -- `push` after the samples were added to what is held.
  unfoldable pub scan : LeadTrimmer F → List ℕ × LeadTrimmer F
  unfolding loud_start
  scan t = elim (loud_start t) [
    | none ↦ ([], record t { scanned = length t.held / t.hop * t.hop })
    | some start ↦ (drop (start - t.keep) t.held, record t { held = []; passing = true })
  ]

  unfoldable pub push : LeadTrimmer F → List ℕ → List ℕ × LeadTrimmer F
  unfolding scan
  push t pcm = if t.passing then (pcm, t) else scan (record t { held = t.held ++ pcm })

  unfoldable pub finish : LeadTrimmer F → List ℕ
  finish t = t.held

  pub trim_leading_silence : List ℕ → ℕ → List ℕ
  unfolding push finish new
  trim_leading_silence pcm sample_rate =
      let (out, t) = push (new sample_rate) pcm in out ++ finish t
