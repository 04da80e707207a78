-- ===== src/Text/Pause.antt =====
-- pause.rs: the markers, `[pause:500ms]`, and stripping them.
pub mod Found
pub mod Places
use vvaves.Common.{
  ℕ, zero, suc, ◌+◌, ◌-◌, ◌*◌, ◌/◌, not, ◌&&◌, Option, none, some, [], ◌∷◌, length, ◌==◌,
  if◌then◌else◌, is_empty,
}
use vvaves.Text.Chars.{Text, codes, Unicode}

-- `PauseMarker`
pub record PauseMarker : Type 0 where
  pub original : Text
  pub duration_ms : ℕ
  pub position : ℕ

-- What follows a given prefix.
unfoldable pub strip_prefix : Text → Text → Option Text
strip_prefix [] cs = some cs
strip_prefix (p ∷ ps) [] = none
strip_prefix (p ∷ ps) (c ∷ cs) = let rest = strip_prefix ps cs in if p == c then rest else none

-- The unit of a duration.
pub data Period : Type 0 where
  milliseconds seconds : Period

-- A match of the marker's expression: the digits before and behind the point, and the unit.
pub record Match : Type 0 where
  pub whole : Text
  pub fraction : Text
  pub period : Period

unfoldable pub match_len : Match → ℕ
match_len m =
    let unit : ℕ = elim m.period [ milliseconds ↦ 3 | seconds ↦ 2 ] in
    7 + length m.whole + (if is_empty m.fraction then 0 else 1 + length m.fraction) + unit

module _ (u : Unicode) where
  open u use {is_digit}

  -- The longest run of digits, and what follows it.
  unfoldable pub digits_of : Text → Text × Text
  digits_of [] = ([], [])
  digits_of (c ∷ cs) =
      let (ds, rest) = digits_of cs in if is_digit c then (c ∷ ds, rest) else ([], c ∷ cs)

  -- `(?:\.\d+)?`
  unfoldable pub fraction_of : Text → Text × Text
  unfolding digits_of
  fraction_of [] = ([], [])
  fraction_of (c ∷ cs) =
      let (ds, rest) = digits_of cs in
      if c == b'.' && not (is_empty ds) then (ds, rest) else ([], c ∷ cs)

  -- `(ms|s)\]`
  unfoldable pub period_of : Text → Option (Period × Text)
  unfolding strip_prefix
  period_of cs = elim (strip_prefix (codes "ms]") cs) [
    | some rest ↦ some (milliseconds, rest)
    | none ↦ elim (strip_prefix (codes "s]") cs) [ some rest ↦ some (seconds, rest) | none ↦ none ]
  ]

  unfoldable pub duration_match : Text → Option Match
  unfolding digits_of fraction_of period_of
  duration_match cs =
      let (whole, behind) = digits_of cs in
      let (fraction, tail) = fraction_of behind in
      if is_empty whole then none else elim (period_of tail) [
        | none ↦ none
        | some (period, _) ↦ some (record { whole = whole; fraction = fraction; period = period })
      ]

  -- `\[pause:(\d+(?:\.\d+)?)(ms|s)\]` at the front of a text. Each part ends where the next must
  -- begin, so the expression matches in one way at most.
  unfoldable pub marker_at : Text → Option Match
  unfolding strip_prefix duration_match
  marker_at cs = elim (strip_prefix (codes "[pause:") cs) [
    | none ↦ none
    | some rest ↦ duration_match rest
  ]

  -- `replace_all(text, " ")`, with the characters of a match that are still to be skipped.
  unfoldable pub strip_from : ℕ → Text → Text
  unfolding marker_at match_len
  strip_from skip [] = []
  strip_from (suc skip) (c ∷ cs) = strip_from skip cs
  strip_from zero (c ∷ cs) = elim (marker_at (c ∷ cs)) [
    | none ↦ c ∷ strip_from 0 cs
    | some m ↦ 32 ∷ strip_from (match_len m - 1) cs
  ]

  unfoldable pub strip_pause_markers : Text → Text
  unfolding strip_from
  strip_pause_markers cs = strip_from 0 cs

-- `silence_samples`; the product of two `u32` fits a `u64`.
pub silence_samples : ℕ → ℕ → ℕ
silence_samples duration_ms sample_rate = duration_ms * sample_rate / 1000
