-- ===== src/Text/Pause/Found.antt =====
-- The pauses that pause.rs finds in a text. A position is a byte offset.
use vvaves.Common.{
  ℕ, zero, suc, ◌+◌, ◌-◌, Bool, true, false, not, ◌&&◌, ◌||◌, Option, none, some, List, [], ◌∷◌,
  ◌++◌, take, ltb, leb, ◌==◌, if◌then◌else◌,
}
use vvaves.Text.Chars.{Text, Unicode, len_utf8, byte_len, is_ascii_digit}
use vvaves.Text.Pause.{
  PauseMarker, Match, match_len, milliseconds, seconds, marker_at, strip_pause_markers,
}

-- Reading a duration: `f64::from_str` of the digits, with a point where there is a fraction,
-- the product with 1000.0 and `as u32`.
pub record Durations : Type 1 where
  pub F : Type 0
  pub parse : Text → Text → Option F
  pub times_1000 : F → F
  pub as_u32 : F → ℕ

-- A match in the text.
pub record Found : Type 0 where
  pub start : ℕ
  pub original : Text
  pub duration : Match

-- ELLIPSIS_MS and COMMA_MS
abbrev ellipsis_ms : ℕ
ellipsis_ms = 500

abbrev comma_ms : ℕ
comma_ms = 200

module _ (u : Unicode) where
  -- `captures_iter`, with the characters of a match that are still to be skipped and the offset.
  unfoldable pub found_from : ℕ → Text → ℕ → List Found
  unfolding len_utf8
  found_from skip [] at = []
  found_from (suc skip) (c ∷ cs) at = found_from skip cs (at + len_utf8 c)
  found_from zero (c ∷ cs) at = elim (marker_at u (c ∷ cs)) [
    | none ↦ found_from 0 cs (at + len_utf8 c)
    | some m ↦
        record { start = at; original = c ∷ take (match_len m - 1) cs; duration = m }
        ∷ found_from (match_len m - 1) cs (at + len_utf8 c)
  ]

module _ (d : Durations) where
  open d use {parse, times_1000, as_u32}

  abbrev pub duration_of : Match → d.F → ℕ
  duration_of m value = elim m.period [
    | milliseconds ↦ as_u32 value
    | seconds ↦ as_u32 (times_1000 value)
  ]

  explicit_of : List Found → List PauseMarker
  explicit_of [] = []
  explicit_of (x ∷ xs) = elim (parse x.duration.whole x.duration.fraction) [
    | none ↦ explicit_of xs
    | some value ↦
        record {
          original = x.original;
          duration_ms = duration_of x.duration value;
          position = x.start;
        }
        ∷ explicit_of xs
  ]

  pub parse_explicit_pauses : Unicode → Text → List PauseMarker
  unfolding explicit_of
  parse_explicit_pauses u text = explicit_of (found_from u 0 text 0)

  -- The loop of `parse_text_with_pauses` over the matches: `unwrap_or(0.0)` of a duration, which
  -- is 0 ms, drops the marker.
  unfoldable pub placed_pauses : List Found → ℕ → List PauseMarker
  placed_pauses [] offset = []
  placed_pauses (x ∷ xs) offset =
      let rest = placed_pauses xs (offset + (byte_len x.original - 1)) in
      let ms : ℕ = elim (parse x.duration.whole x.duration.fraction) [
        | none ↦ 0
        | some value ↦ duration_of x.duration value
      ] in
      if ltb 0 ms
      then record { original = x.original; duration_ms = ms; position = x.start - offset } ∷ rest
      else rest

-- The run of dots at the front.
dots : Text → Text
dots [] = []
dots (c ∷ cs) = let rest = dots cs in if c == b'.' then c ∷ rest else []

-- `\.{3,}`: a run of three dots at least, as long as it goes.
pub ellipses_from : ℕ → Text → ℕ → List PauseMarker
unfolding dots
ellipses_from skip [] at = []
ellipses_from (suc skip) (c ∷ cs) at = ellipses_from skip cs (at + len_utf8 c)
ellipses_from zero (c ∷ cs) at =
    let run = dots (c ∷ cs) in
    elim (leb 3 (byte_len run)) [
      | true ↦
          record { original = run; duration_ms = ellipsis_ms; position = at }
          ∷ ellipses_from (byte_len run - 1) cs (at + len_utf8 c)
      | false ↦ ellipses_from 0 cs (at + len_utf8 c)
    ]

abbrev starts_with_digit : Text → Bool
starts_with_digit [] = false
starts_with_digit (c ∷ cs) = is_ascii_digit c

-- Commas that do not stand between two digits; `after_digit` is of the character before.
pub commas_from : Bool → Text → ℕ → List PauseMarker
commas_from after_digit [] at = []
commas_from after_digit (c ∷ cs) at =
    let rest = commas_from (is_ascii_digit c) cs (at + len_utf8 c) in
    if c == b',' && (not after_digit || not (starts_with_digit cs))
    then record { original = c ∷ []; duration_ms = comma_ms; position = at } ∷ rest
    else rest

-- `sort_by_key`, which is stable.
pub sorted_in : PauseMarker → List PauseMarker → List PauseMarker
sorted_in p [] = p ∷ []
sorted_in p (q ∷ qs) =
    let rest = sorted_in p qs in if leb p.position q.position then p ∷ q ∷ qs else q ∷ rest

pub sort_by_position : List PauseMarker → List PauseMarker
unfolding sorted_in
sort_by_position [] = []
sort_by_position (p ∷ ps) = sorted_in p (sort_by_position ps)

pub parse_natural_pauses : Text → List PauseMarker
unfolding sort_by_position ellipses_from commas_from
parse_natural_pauses text = sort_by_position (ellipses_from 0 text 0 ++ commas_from false text 0)

pub record ParsedText : Type 0 where
  pub clean_text : Text
  pub pauses : List PauseMarker

pub parse_text_with_pauses : Durations → Unicode → Text → ParsedText
unfolding sort_by_position parse_natural_pauses
parse_text_with_pauses d u text =
    let clean = strip_pause_markers u text in
    record {
      clean_text = clean;
      pauses =
          sort_by_position
            (parse_natural_pauses clean ++ placed_pauses d (found_from u 0 text 0) 0);
    }
