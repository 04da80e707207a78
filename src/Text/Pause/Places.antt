-- ===== src/Text/Pause/Places.antt =====
-- Where the markers of a text stand in the text without them.
use vvaves.Common.{
  ℕ, zero, suc, ◌+◌, ◌-◌, ◌≤◌, ◌≡◌, refl, subst, none, some, List, [], ◌∷◌, ◌++◌, take, All, arith,
  append_assoc, ltb, Bool-cases, Option-cases, inl, inr,
}
use vvaves.Text.Chars.{Text, Unicode, len_utf8, byte_len}
use vvaves.Text.Pause.{PauseMarker, Match, match_len, marker_at, strip_from, strip_pause_markers}
use vvaves.Text.Pause.Found.{Durations, Found, found_from, placed_pauses, duration_of}

one-le-len_utf8 : (c : ℕ) → 1 ≤ len_utf8 c
unfolding len_utf8
one-le-len_utf8 c = elim (Bool-cases (ltb c 0x80)) [
  | inl a ↦ rw a (omega arith)
  | inr a ↦ elim (Bool-cases (ltb c 0x800)) [
    | inl b ↦ rw (a, b) (omega arith)
    | inr b ↦ elim (Bool-cases (ltb c 0x10000)) [
      | inl d ↦ rw (a, b, d) (omega arith)
      | inr d ↦ rw (a, b, d) (omega arith)
    ]
  ]
]

byte_len-append : (a b : Text) → byte_len (a ++ b) ≡ byte_len a + byte_len b
unfolding byte_len
byte_len-append [] b = omega arith
byte_len-append (c ∷ a) b = omega (arith, byte_len-append a b)

byte_len-cons : (c : ℕ) (cs : Text) → byte_len (c ∷ cs) ≡ len_utf8 c + byte_len cs
unfolding byte_len
byte_len-cons c cs = refl

byte_len-snoc : (a : Text) (c : ℕ) → byte_len (a ++ (c ∷ [])) ≡ byte_len a + len_utf8 c
unfolding byte_len
byte_len-snoc a c = omega (arith, byte_len-append a (c ∷ []))

byte_len-space : (a : Text) → byte_len (a ++ (32 ∷ [])) ≡ byte_len a + 1
unfolding len_utf8
byte_len-space a = byte_len-snoc a 32

byte_len-take_none : (cs : Text) → byte_len (take 0 cs) ≡ 0
unfolding byte_len
byte_len-take_none [] = refl
byte_len-take_none (c ∷ cs) = refl

-- A space of a text at a byte offset.
abbrev pub IsSpaceAt : Text → ℕ → Type 0
IsSpaceAt t n = (front : Text) × (back : Text) × (t ≡ front ++ (32 ∷ back)) × (byte_len front ≡ n)

abbrev pub AllSpaces : Text → List PauseMarker → Type 0
AllSpaces t ps = All (λ p. IsSpaceAt t p.position) ps

module _ (d : Durations) (u : Unicode) where
  strip-none :
      (c : ℕ) (cs : Text)
      → marker_at u (c ∷ cs) ≡ none
      → strip_from u 0 (c ∷ cs) ≡ c ∷ strip_from u 0 cs
  unfolding strip_from
  strip-none c cs e = rw (e, strip_from) refl

  strip-some :
      (c : ℕ) (cs : Text) (m : Match)
      → marker_at u (c ∷ cs) ≡ some m
      → strip_from u 0 (c ∷ cs) ≡ 32 ∷ strip_from u (match_len m - 1) cs
  unfolding strip_from
  strip-some c cs m e = rw (e, strip_from) refl

  found-none :
      (c : ℕ) (cs : Text) (at : ℕ)
      → marker_at u (c ∷ cs) ≡ none
      → found_from u 0 (c ∷ cs) at ≡ found_from u 0 cs (at + len_utf8 c)
  unfolding found_from
  found-none c cs at e = rw (e, found_from) refl

  abbrev found_at : ℕ → Text → ℕ → Match → Found
  found_at c cs at m = record { start = at; original = c ∷ take (match_len m - 1) cs; duration = m }

  found-some :
      (c : ℕ) (cs : Text) (at : ℕ) (m : Match)
      → marker_at u (c ∷ cs) ≡ some m
      → found_from u 0 (c ∷ cs) at
        ≡ found_at c cs at m ∷ found_from u (match_len m - 1) cs (at + len_utf8 c)
  unfolding found_from
  found-some c cs at m e = rw (e, found_from) refl

  -- A marker more, dropped or not.
  placed-cons :
      (t : Text) (x : Found) (xs : List Found) (offset : ℕ)
      → IsSpaceAt t (x.start - offset)
      → AllSpaces t (placed_pauses d xs (offset + (byte_len x.original - 1)))
      → AllSpaces t (placed_pauses d (x ∷ xs) offset)
  unfolding placed_pauses
  placed-cons t x xs offset here rest =
      let ms : ℕ = elim (d.parse x.duration.whole x.duration.fraction) [
        | none ↦ 0
        | some value ↦ duration_of d x.duration value
      ] in
      elim (Bool-cases (ltb 0 ms)) [ inl y ↦ rw y (here, rest) | inr y ↦ rw y rest ]

  placed-nil :
      (t : Text) (skip at offset : ℕ)
      → AllSpaces t (placed_pauses d (found_from u skip [] at) offset)
  unfolding placed_pauses found_from
  placed-nil t zero at offset = tt
  placed-nil t (suc skip) at offset = tt

  found-skip :
      (skip : ℕ) (c : ℕ) (cs : Text) (at : ℕ)
      → found_from u (suc skip) (c ∷ cs) at ≡ found_from u skip cs (at + len_utf8 c)
  unfolding found_from
  found-skip skip c cs at = refl

  strip-skip :
      (skip : ℕ) (c : ℕ) (cs : Text) → strip_from u (suc skip) (c ∷ cs) ≡ strip_from u skip cs
  unfolding strip_from
  strip-skip skip c cs = refl

  -- `front` is what was written of the text so far.
  placed-AllSpaces :
      (cs : Text) (skip at offset : ℕ) (front : Text)
      → byte_len front + offset ≡ at + byte_len (take skip cs)
      → AllSpaces (front ++ strip_from u skip cs) (placed_pauses d (found_from u skip cs at) offset)
  placed-AllSpaces [] skip at offset front e =
      placed-nil (front ++ strip_from u skip []) skip at offset
  placed-AllSpaces (c ∷ cs) (suc skip) at offset front e =
      rw (found-skip skip c cs at, strip-skip skip c cs)
        (placed-AllSpaces cs skip (at + len_utf8 c) offset front
          (omega (arith, e, byte_len-cons c (take skip cs))))
  placed-AllSpaces (c ∷ cs) zero at offset front e =
      let e0 : byte_len front + offset ≡ at = omega (arith, e, byte_len-take_none (c ∷ cs)) in
      elim (Option-cases (marker_at u (c ∷ cs))) [
        | inl n ↦
            rw (found-none c cs at n, strip-none c cs n)
              (subst
                (λ t. AllSpaces t (placed_pauses d (found_from u 0 cs (at + len_utf8 c)) offset))
                (append_assoc front (c ∷ []) (strip_from u 0 cs))
                (placed-AllSpaces cs 0 (at + len_utf8 c) offset (front ++ (c ∷ []))
                  (omega (arith, e0, byte_len-snoc front c, byte_len-take_none cs))))
        | inr (m, y) ↦
            let k = match_len m - 1 in
            let o = offset + (byte_len (c ∷ take k cs) - 1) in
            rw (found-some c cs at m y, strip-some c cs m y)
              (placed-cons (front ++ (32 ∷ strip_from u k cs)) (found_at c cs at m)
                (found_from u k cs (at + len_utf8 c)) offset
                (front, strip_from u k cs, refl, omega (arith, e0))
                (subst (λ t. AllSpaces t (placed_pauses d (found_from u k cs (at + len_utf8 c)) o))
                  (append_assoc front (32 ∷ []) (strip_from u k cs))
                  (placed-AllSpaces cs k (at + len_utf8 c) o (front ++ (32 ∷ [])) (
                    omega (
                      arith,
                      e0,
                      byte_len-space front,
                      byte_len-cons c (take k cs),
                      one-le-len_utf8 c,
                    )))))
      ]

  -- Each marker that `parse_text_with_pauses` keeps gets the byte offset of a space of the text
  -- without the markers.
  pub placed_pauses-AllSpaces :
      (text : Text)
      → AllSpaces (strip_pause_markers u text) (placed_pauses d (found_from u 0 text 0) 0)
  unfolding strip_pause_markers byte_len
  placed_pauses-AllSpaces text =
      placed-AllSpaces text 0 0 0 [] (omega (arith, byte_len-take_none text))
