-- ===== src/Text/Ink.antt =====
-- The characters of a text that are no white space, which trimming and splitting into words keep.
use vvaves.Common.{
  ℕ, ◌≡◌, refl, sym, ap, ◌∙◌, ◌&&◌, List, [], ◌∷◌, ◌++◌, append_assoc, is_empty, if◌then◌else◌,
  Bool-cases, inl, inr,
}
use vvaves.Text.Chars.{
  Text, is_whitespace, trim_start, trim_end, trim, add_word, words_from, split_whitespace,
}

abbrev pub ink : Text → Text
ink [] = []
ink (c ∷ cs) = if is_whitespace c then ink cs else c ∷ ink cs

abbrev pub ink_all : List Text → Text
ink_all [] = []
ink_all (t ∷ ts) = ink t ++ ink_all ts

pub ink-append : (a b : Text) → ink (a ++ b) ≡ ink a ++ ink b
ink-append [] b = refl
ink-append (c ∷ a) b = elim (Bool-cases (is_whitespace c)) [
  | inl y ↦ rw y (ink-append a b)
  | inr y ↦ rw y (ap (λ t. c ∷ t) (ink-append a b))
]

pub ink_all-append : (a b : List Text) → ink_all (a ++ b) ≡ ink_all a ++ ink_all b
ink_all-append [] b = refl
ink_all-append (t ∷ a) b =
    ap (λ x. ink t ++ x) (ink_all-append a b) ∙ sym (append_assoc (ink t) (ink_all a) (ink_all b))

ink-trim_start : (cs : Text) → ink (trim_start cs) ≡ ink cs
unfolding trim_start
ink-trim_start [] = refl
ink-trim_start (c ∷ cs) = elim (Bool-cases (is_whitespace c)) [
  | inl y ↦ rw y (ink-trim_start cs)
  | inr y ↦ rw y (ap (λ b. if b then ink cs else c ∷ ink cs) y)
]

-- A character more behind a text that was trimmed at its end.
ink_kept :
    (c : ℕ) (rest : Text)
    → ink (if is_empty rest && is_whitespace c then [] else c ∷ rest) ≡ ink (c ∷ rest)
ink_kept c [] = elim (Bool-cases (is_whitespace c)) [
  | inl y ↦ rw y refl
  | inr y ↦ rw y (ap (λ b. if b then [] else c ∷ []) y)
]
ink_kept c (d ∷ rest) = refl

ink-trim_end : (cs : Text) → ink (trim_end cs) ≡ ink cs
unfolding trim_end
ink-trim_end [] = refl
ink-trim_end (c ∷ cs) =
    ink_kept c (trim_end cs) ∙ ap (λ t. if is_whitespace c then t else c ∷ t) (ink-trim_end cs)

pub ink-trim : (cs : Text) → ink (trim cs) ≡ ink cs
unfolding trim
ink-trim cs = ink-trim_end (trim_start cs) ∙ ink-trim_start cs

ink_all-add_word :
    (word : Text) (words : List Text) → ink_all (add_word word words) ≡ ink word ++ ink_all words
ink_all-add_word [] words = refl
ink_all-add_word (c ∷ word) words = refl

ink_all-words_from : (cs word : Text) → ink_all (words_from word cs) ≡ ink word ++ ink cs
unfolding words_from
ink_all-words_from [] word = ink_all-add_word word []
ink_all-words_from (c ∷ cs) word = elim (Bool-cases (is_whitespace c)) [
  | inl y ↦
      rw (y, words_from)
        (ink_all-add_word word (words_from [] cs)
          ∙ ap (λ t. ink word ++ t) (ink_all-words_from cs []))
  | inr y ↦
      rw (y, words_from)
        (ink_all-words_from cs (word ++ (c ∷ []))
          ∙ ap (λ t. t ++ ink cs) (ink-append word (c ∷ []))
          ∙ append_assoc (ink word) (ink (c ∷ [])) (ink cs)
          ∙ ap (λ b. ink word ++ ((if b then [] else c ∷ []) ++ ink cs)) y)
]

pub ink_all-split_whitespace : (cs : Text) → ink_all (split_whitespace cs) ≡ ink cs
unfolding split_whitespace
ink_all-split_whitespace cs = ink_all-words_from cs []
