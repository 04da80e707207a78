-- ===== src/Text/Chars.antt =====
-- Characters and words of Rust's `str`.
use Prim.Native.String.{String}
use Prim.Native.Char.{code}
use vvaves.Common.{
  ℕ, ◌+◌, Bool, true, false, ◌&&◌, ◌||◌, List, [], ◌∷◌, ◌++◌, length, ltb, leb, ◌==◌, if◌then◌else◌,
  is_empty,
}

abbrev pub Text : Type 0
Text = List ℕ

-- The code points of a literal.
abbrev pub codes : String → Text
codes String.[] = []
codes (String.◌∷◌ c s) = code c ∷ codes s

-- `char::len_utf8`
unfoldable pub len_utf8 : ℕ → ℕ
len_utf8 c = if ltb c 0x80 then 1 else if ltb c 0x800 then 2 else if ltb c 0x10000 then 3 else 4

-- `str::len`, in bytes.
unfoldable pub byte_len : Text → ℕ
unfolding len_utf8
byte_len [] = 0
byte_len (c ∷ cs) = len_utf8 c + byte_len cs

-- `char::is_whitespace`: Unicode's White_Space.
unfoldable pub is_whitespace : ℕ → Bool
is_whitespace c =
    c == 32
    || (leb 9 c && leb c 13)
    || c == 0x85
    || c == 0xa0
    || c == 0x1680
    || (leb 0x2000 c && leb c 0x200a)
    || c == 0x2028
    || c == 0x2029
    || c == 0x202f
    || c == 0x205f
    || c == 0x3000

unfoldable pub is_ascii_digit : ℕ → Bool
is_ascii_digit c = leb b'0' c && leb c b'9'

-- What the standard library and `regex` know of Unicode beyond white space.
pub record Unicode : Type 0 where
  pub is_uppercase : ℕ → Bool
  pub to_uppercase : ℕ → Text
  pub is_alphanumeric : ℕ → Bool
  -- `\d`
  pub is_digit : ℕ → Bool

-- `trim_start`
unfoldable pub trim_start : Text → Text
unfolding is_whitespace
trim_start [] = []
trim_start (c ∷ cs) = let rest = trim_start cs in if is_whitespace c then rest else c ∷ cs

-- `trim_end`
unfoldable pub trim_end : Text → Text
unfolding is_whitespace
trim_end [] = []
trim_end (c ∷ cs) =
    let rest = trim_end cs in if is_empty rest && is_whitespace c then [] else c ∷ rest

unfoldable pub trim : Text → Text
unfolding trim_start trim_end
trim cs = trim_end (trim_start cs)

-- A word more, if there is one.
abbrev pub add_word : Text → List Text → List Text
add_word word words = if is_empty word then words else word ∷ words

-- The words of a text behind the letters `word` that were read of the first.
unfoldable pub words_from : Text → Text → List Text
unfolding is_whitespace
words_from word [] = add_word word []
words_from word (c ∷ cs) = elim (is_whitespace c) [
  | true ↦ add_word word (words_from [] cs)
  | false ↦ words_from (word ++ (c ∷ [])) cs
]

-- `split_whitespace`
unfoldable pub split_whitespace : Text → List Text
unfolding words_from
split_whitespace cs = words_from [] cs

-- `split_whitespace().count()`
unfoldable pub word_count : Text → ℕ
unfolding split_whitespace
word_count cs = length (split_whitespace cs)
