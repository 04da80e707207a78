-- ===== src/Weights.antt =====
-- apps/tts/crates/engine/src/weights.rs: where a file of weights comes from. A text is the list of
-- its characters. The hub's client is a parameter: a repository, a file and perhaps a revision to
-- the downloaded file, or an error.
pub mod Names
mod Examples
use vvaves.Common.{
  ℕ, zero, suc, Bool, true, false, Option, none, some, List, [], ◌∷◌, ◌++◌, length, ◌==◌,
  if◌then◌else◌,
}
use vvaves.Common.Results.{Result, ok, err, ◌>>=◌}

abbrev pub hf_prefix : List ℕ
hf_prefix = b'h' ∷ b'f' ∷ b':' ∷ b'/' ∷ b'/' ∷ []

-- `strip_prefix`, by which `starts_with` goes too.
pub strip_prefix : List ℕ → List ℕ → Option (List ℕ)
strip_prefix [] s = some s
strip_prefix (p ∷ prefix) [] = none
strip_prefix (p ∷ prefix) (x ∷ s) = if x == p then strip_prefix prefix s else none

-- `trim_start_matches`, which strips as often as it can.
pub trim_from : ℕ → List ℕ → List ℕ
unfolding strip_prefix
trim_from zero s = s
trim_from (suc fuel) s = elim (strip_prefix hf_prefix s) [
  | none ↦ s
  | some rest ↦ trim_from fuel rest
]

pub trim_start_matches : List ℕ → List ℕ
unfolding trim_from
trim_start_matches s = trim_from (length s) s

abbrev pub pushed : ℕ → List (List ℕ) → List (List ℕ)
pushed x [] = (x ∷ []) ∷ []
pushed x (part ∷ parts) = (x ∷ part) ∷ parts

-- `split('/')` and `join("/")`
pub split : List ℕ → List (List ℕ)
split [] = [] ∷ []
split (x ∷ s) = let parts = split s in if x == b'/' then [] ∷ parts else pushed x parts

pub join : List (List ℕ) → List ℕ
join [] = []
join (part ∷ []) = part
join (part ∷ part2 ∷ parts) = part ++ (b'/' ∷ join (part2 ∷ parts))

-- The name before the last `@` and the revision behind it, from those of what comes after a
-- character.
abbrev pub behind : ℕ → List ℕ → List ℕ × Option (List ℕ) → List ℕ × Option (List ℕ)
behind x s (name, some r) = (x ∷ name, some r)
behind x s (name, none) = if x == b'@' then ([], some s) else (x ∷ name, none)

pub revised : List ℕ → List ℕ × Option (List ℕ)
revised [] = ([], none)
revised (x ∷ s) = behind x s (revised s)

module _ {File : Type 0} (get : List ℕ → List ℕ → Option (List ℕ) → Result File)
    (local : List ℕ → File) where
  pub of_parts : List (List ℕ) → Result File
  unfolding join revised
  of_parts (owner ∷ repo ∷ first ∷ rest) =
      let (filename, revision) = revised (join (first ∷ rest)) in
      get (owner ++ (b'/' ∷ repo)) filename revision
  of_parts parts = err

  pub download_if_necessary : List ℕ → Result File
  unfolding strip_prefix trim_start_matches split of_parts
  download_if_necessary file_path = elim (strip_prefix hf_prefix file_path) [
    | none ↦ ok (local file_path)
    | some rest ↦ of_parts (split (trim_start_matches file_path))
  ]

  -- The second path is tried where the first fails or is not given.
  abbrev pub fallen_back : Option (List ℕ) → Result File
  fallen_back none = err
  fallen_back (some path) = download_if_necessary path

  abbrev pub or_else : Result File → Result File → Result File
  or_else (ok file) second = ok file
  or_else err second = second

  pub download_model_weights : Option (List ℕ) → Option (List ℕ) → Result File
  unfolding download_if_necessary
  download_model_weights none fallback = fallen_back fallback
  download_model_weights (some path) fallback =
      or_else (download_if_necessary path) (fallen_back fallback)
