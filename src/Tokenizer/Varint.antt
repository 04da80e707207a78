-- ===== src/Tokenizer/Varint.antt =====
-- A number that is written as a varint is read back.
use native.Mathlib.Nat.{div-add-mod, pow-le-pow_right, pow-suc, mod-eq_of_lt, mul-le-mul_right}
use native.Mathlib.Numerals.{towards_suc}
use vvaves.Common.{
  ℕ, zero, suc, ◌+◌, ◌*◌, ◌/◌, ◌%◌, ◌^◌, ◌≤◌, ◌<◌, bit_and, bit_or, ◌≡◌, refl, ap, ap₂, sym, ◌∙◌,
  List, ◌∷◌, ◌++◌, length, drop, ltb, leb, arith, drop-length, true, false, inl, inr, Bool-cases,
  ltb→lt, ltb→le,
}
use vvaves.Common.Results.{ok}
use vvaves.Common.Bits.{bit_or-shifted, low_seven, high_bit, continued}
use vvaves.Tokenizer.{varint_from, read_varint, varint_bytes, encode_varint}

shift_seven : (s : ℕ) → 2 ^ (s + 7) ≡ 128 * 2 ^ s
shift_seven s = simp towards_suc (omega arith)

-- One group of seven bits onto those read before.
group :
    (byte shift result g : ℕ)
    → bit_and byte 0x7f ≡ g
    → result < 2 ^ shift
    → g * 2 ^ shift < 2 ^ 64
    → bit_or result (bit_and byte 0x7f * 2 ^ shift % 2 ^ 64) ≡ result + g * 2 ^ shift
group byte shift result g low h fits = rw (low, mod-eq_of_lt fits) (bit_or-shifted shift g result h)

last_byte :
    (v : ℕ) (rest : List ℕ) (pos shift result : ℕ)
    → v < 128
    → result < 2 ^ shift
    → v * 2 ^ shift < 2 ^ 64
    → varint_from (v ∷ rest) pos shift result ≡ ok (result + v * 2 ^ shift, suc pos)
unfolding varint_from
last_byte v rest pos shift result small h fits =
    let low : bit_and v 0x7f ≡ v = low_seven v (omega arith) ∙ omega arith in
    let high : bit_and v 0x80 ≡ 0 = high_bit v (omega arith) ∙ omega arith in
    rw (group v shift result v low h fits, high) refl

next_byte :
    (byte g : ℕ) (rest : List ℕ) (pos shift result : ℕ)
    → byte ≡ g + 128
    → g < 128
    → result < 2 ^ shift
    → g * 2 ^ shift < 2 ^ 64
    → shift + 7 < 64
    → varint_from (byte ∷ rest) pos shift result
      ≡ varint_from rest (suc pos) (shift + 7) (result + g * 2 ^ shift)
unfolding varint_from
next_byte byte g rest pos shift result e small h fits more =
    let low : bit_and byte 0x7f ≡ g = low_seven byte (omega arith) ∙ omega arith in
    let high : bit_and byte 0x80 ≡ 128 = high_bit byte (omega arith) ∙ omega arith in
    let going : leb 64 (shift + 7) ≡ false = ground arith in
    rw (group byte shift result g low h fits, high, going) refl

weigh : (v q r p p' : ℕ) → 128 * q + r ≡ v → p' ≡ 128 * p → v * p ≡ r * p + q * p'
weigh v q r p p' e e' = sym (ap (λ n. n * p) e) ∙ (rw e' (grind arith))

-- What is left of a number after its first group, with the groups' weights.
groups : (v s : ℕ) → v * 2 ^ s ≡ v % 128 * 2 ^ s + v / 128 * 2 ^ (s + 7)
groups v s = weigh v (v / 128) (v % 128) (2 ^ s) (2 ^ (s + 7)) (div-add-mod v 128) (shift_seven s)

small_shift : (v s : ℕ) → 128 ≤ v → v * 2 ^ s < 2 ^ 64 → s + 7 < 64
small_shift v s big fits = elim (Bool-cases (ltb (s + 7) 64)) [
  | inl y ↦ ltb→lt (s + 7) 64 y
  | inr y ↦
      let wide : 2 ^ 64 ≤ 2 ^ (s + 7) = pow-le-pow_right (omega arith) (ltb→le (s + 7) 64 y) in
      let heavy : 128 * 2 ^ s ≤ v * 2 ^ s = mul-le-mul_right (2 ^ s) big in
      absurd (omega (arith, shift_seven s, wide, heavy))
]

-- A number of one group, whatever fuel is left.
single :
    (v k : ℕ) (rest : List ℕ) (pos shift result : ℕ)
    → v < 128
    → result < 2 ^ shift
    → result + v * 2 ^ shift < 2 ^ 64
    → varint_from (varint_bytes (suc k) v ++ rest) pos shift result
      ≡ ok (result + v * 2 ^ shift, pos + length (varint_bytes (suc k) v))
unfolding varint_bytes
single v k rest pos shift result h small fits =
    let y : ltb v 0x80 ≡ true = ground arith in
    let byte : v % 256 ≡ v = omega arith in
    let one : pos + 1 ≡ suc pos = omega arith in
    rw (y, byte, one) (last_byte v rest pos shift result h small (omega arith))

below : (g result p p' : ℕ) → g < 128 → result < p → p' ≡ 128 * p → result + g * p < p'
below g result p p' h small e =
    let le : g * p ≤ 127 * p = mul-le-mul_right p (omega arith) in omega arith

varint_from-bytes :
    (k v : ℕ) (rest : List ℕ) (pos shift result : ℕ)
    → v < 128 ^ suc k
    → result < 2 ^ shift
    → result + v * 2 ^ shift < 2 ^ 64
    → varint_from (varint_bytes (suc k) v ++ rest) pos shift result
      ≡ ok (result + v * 2 ^ shift, pos + length (varint_bytes (suc k) v))
unfolding varint_bytes
varint_from-bytes zero v rest pos shift result h small fits =
    single v zero rest pos shift result (omega arith) small fits
varint_from-bytes (suc k) v rest pos shift result h small fits = elim (Bool-cases (ltb v 0x80)) [
  | inl y ↦ single v (suc k) rest pos shift result (ltb→lt v 0x80 y) small fits
  | inr y ↦
      let byte : ℕ = bit_or (bit_and (v % 256) 0x7f) 0x80 in
      let e : byte ≡ v % 128 + 128 = continued (v % 256) (omega arith) ∙ omega arith in
      let some_more : shift + 7 < 64 = small_shift v shift (ltb→le v 0x80 y) (omega arith) in
      let split : v * 2 ^ shift ≡ v % 128 * 2 ^ shift + v / 128 * 2 ^ (shift + 7) =
        groups v shift in
      let acc : ℕ = result + v % 128 * 2 ^ shift in
      let room : acc < 2 ^ (shift + 7) =
        below (v % 128) result (2 ^ shift) (2 ^ (shift + 7)) (omega arith) small
          (shift_seven shift) in
      let left : v / 128 < 128 ^ suc k = omega (arith, pow-suc 128 (suc k)) in
      let rest_of : List ℕ = varint_bytes (suc k) (v / 128) in
      rw y (
        next_byte byte (v % 128) (rest_of ++ rest) pos shift result e (omega arith) small
          (omega arith) some_more
        ∙ varint_from-bytes k (v / 128) rest (suc pos) (shift + 7) acc left room (omega arith)
        ∙ ap₂ (λ a b. ok (a, b)) (omega arith) (omega arith))
]

pub read_varint-at :
    (bytes after : List ℕ) (pos v : ℕ)
    → drop pos bytes ≡ encode_varint v ++ after
    → v < 2 ^ 64
    → read_varint bytes pos ≡ ok (v, pos + length (encode_varint v))
unfolding read_varint encode_varint
read_varint-at bytes after pos v at h =
    ap (λ l. varint_from l pos 0 0) at
    ∙ varint_from-bytes 9 v after pos 0 0 (omega arith) (omega arith) (omega arith)
    ∙ ap₂ (λ a b. ok (a, b)) (omega arith) refl

-- A tag of one byte.
pub read_varint-tag :
    (bytes after : List ℕ) (pos tag : ℕ)
    → drop pos bytes ≡ tag ∷ after
    → tag < 128
    → read_varint bytes pos ≡ ok (tag, suc pos)
unfolding read_varint
read_varint-tag bytes after pos tag at h =
    ap (λ l. varint_from l pos 0 0) at
    ∙ last_byte tag after pos 0 0 h (omega arith) (omega arith)
    ∙ ap (λ a. ok (a, suc pos)) (omega arith)

-- A `u64` that is encoded and stands somewhere in a file is read there, and the position behind it
-- is returned.
pub read_varint-encode :
    (before after : List ℕ) (v : ℕ)
    → v < 2 ^ 64
    → read_varint (before ++ (encode_varint v ++ after)) (length before)
      ≡ ok (v, length before + length (encode_varint v))
read_varint-encode before after v h =
    read_varint-at (before ++ (encode_varint v ++ after)) after (length before) v
      (drop-length before (encode_varint v ++ after)) h
