-- ===== src/Common/Bits.antt =====
-- The bit operations of a varint as arithmetic.
use Prim.Native.Nat.{
  ℕ, zero, suc, ◌+◌, ◌*◌, ◌/◌, ◌%◌, ◌^◌, ◌≤◌, ◌<◌, max, bit_and, bit_or, digits, bit_or-bitwise,
}
use mathlib.Core.Path.{◌≡◌, refl, ap, ◌∙◌}
use mathlib.Core.Bool.{Bool, true, ◌&&◌}
use native.Mathlib.Omega.{arith}
use native.Mathlib.Nat.{pow-suc}
use vvaves.Common.Tests.{◌==◌, ==_iff}

-- `|` digit by digit with two amounts of fuel that are both enough.
or_digits : ℕ → ℕ → ℕ → ℕ
or_digits fuel a b = digits (λ y. y) max fuel a b

or_digits-enough : (k l a b : ℕ) → a ≤ k → a ≤ l → or_digits k a b ≡ or_digits l a b
unfolding or_digits
or_digits-enough zero zero a b h h' = refl
or_digits-enough (suc k) (suc l) zero b h h' = refl
or_digits-enough (suc k) zero zero b h h' = refl
or_digits-enough zero (suc l) zero b h h' = refl
or_digits-enough (suc k) (suc l) (suc a) b h h' =
    rw (or_digits-enough k l (suc a / 2) (b / 2) (omega arith) (omega arith)) refl
or_digits-enough zero l (suc a) b h h' = absurd (omega arith)
or_digits-enough k zero (suc a) b h h' = absurd (omega arith)

pub bit_or-zero_left : (b : ℕ) → bit_or 0 b ≡ b
bit_or-zero_left b = simp bit_or-bitwise refl

lowest : (a b : ℕ) → bit_or a b ≡ bit_or (a / 2) (b / 2) * 2 + max (a % 2) (b % 2)
unfolding or_digits
lowest zero b = simp bit_or-bitwise (omega arith)
lowest (suc a) b = simp bit_or-bitwise (
    ap (λ n. n * 2 + max (suc a % 2) (b % 2))
      (or_digits-enough a (suc a / 2) (suc a / 2) (b / 2) (omega arith) (omega arith)))

-- `r | (q << k)` is a sum if `r` has `k` bits.
pub bit_or-shifted : (k q r : ℕ) → r < 2 ^ k → bit_or r (q * 2 ^ k) ≡ r + q * 2 ^ k
bit_or-shifted zero q zero h = bit_or-zero_left (q * 2 ^ 0) ∙ omega arith
bit_or-shifted zero q (suc r) h = absurd (omega arith)
bit_or-shifted (suc k) q r h =
    let double : q * 2 ^ suc k ≡ q * 2 ^ k * 2 = ap (λ n. q * n) (pow-suc 2 k) ∙ grind arith in
    let half : (q * 2 ^ suc k) / 2 ≡ q * 2 ^ k = omega (arith, double) in
    let even : (q * 2 ^ suc k) % 2 ≡ 0 = omega (arith, double) in
    let small : r / 2 < 2 ^ k = omega (arith, pow-suc 2 k) in
    lowest r (q * 2 ^ suc k)
    ∙ ap (λ n. bit_or (r / 2) n * 2 + max (r % 2) ((q * 2 ^ suc k) % 2)) half
    ∙ omega (arith, even, double, bit_or-shifted k q (r / 2) small)

-- Two functions compared below a bound.
agree : (f g : ℕ → ℕ) → ℕ → Bool
agree f g zero = true
agree f g (suc n) = (f n == g n) && agree f g n

agree-below : (f g : ℕ → ℕ) (n i : ℕ) → agree f g n ≡ true → i < n → f i ≡ g i
unfolding agree
agree-below f g zero i e h = absurd (omega arith)
agree-below f g (suc n) i e h = grind (arith, agree-below f g n i, ==_iff (f n) (g n))

-- `b & 0x7f`, `b & 0x80` of a byte and `(v & 0x7f) | 0x80` of a byte.
pub low_seven : (b : ℕ) → b < 256 → bit_and b 0x7f ≡ b % 128
unfolding agree
low_seven b h = agree-below (λ n. bit_and n 0x7f) (λ n. n % 128) 256 b refl h

pub high_bit : (b : ℕ) → b < 256 → bit_and b 0x80 ≡ b / 128 * 128
unfolding agree
high_bit b h = agree-below (λ n. bit_and n 0x80) (λ n. n / 128 * 128) 256 b refl h

pub continued : (b : ℕ) → b < 256 → bit_or (bit_and b 0x7f) 0x80 ≡ b % 128 + 128
unfolding agree
continued b h = agree-below (λ n. bit_or (bit_and n 0x7f) 0x80) (λ n. n % 128 + 128) 256 b refl h
