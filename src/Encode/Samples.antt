-- ===== src/Encode/Samples.antt =====
-- A concrete arithmetic and a concrete mp3 encoder, for runs of the code on given readings.

use vvaves.Common.{
  ℕ, ◌+◌, ◌-◌, ◌*◌, ◌/◌, ◌%◌, ◌^◌, max, ◌≡◌, refl, ap, ap₂, ◌∙◌, true, Option, some, List, [], ◌∷◌,
  ◌++◌, map, ltb, leb,
}
use vvaves.Common.Floats.{Floats}
use vvaves.Encode.Lame.{Lame}
use vvaves.Encode.Lame.Slices.{IsIncremental}

-- Numbers in hundredths, and a square root that is left out.
abbrev pub hundredths : Floats
hundredths = record {
  F = ℕ;
  add = λ a b. a + b;
  sub = λ a b. a - b;
  mul = λ a b. a * b / 100;
  div = λ a b. a * 100 / b;
  fmax = λ a b. max a b;
  abs = λ a. a;
  sqrt = λ a. a;
  log10 = λ a. a;
  tanh = λ a. a;
  powf = λ a b. 1;
  copysign = λ a b. a;
  gt = λ a b. ltb b a;
  less = λ a b. ltb a b;
  at_least = λ a b. leb b a;
  of_usize = λ n. n * 100;
  of_i16 = λ s. s * 100;
  to_usize = λ x. x / 100;
  to_i16 = λ x. x / 100;
  sum_zero = 0;
  lit = λ m e. m * 100 / 10 ^ e;
  neg_lit = λ m e. 0;
  neg_infinity = 0;
}

abbrev pub low_bytes : List ℕ → List ℕ
low_bytes samples = map (λ s. s % 256) samples

-- An encoder that gives a byte for each sample, and 255 at the end.
abbrev pub echo : Lame
echo = record {
  Handle = ℕ;
  init = some 0;
  set_in_samplerate = λ h r. (h, true);
  set_num_channels = λ h n. (h, true);
  set_mode = λ h m. (h, true);
  set_brate = λ h k. (h, true);
  set_quality = λ h q. (h, true);
  init_params = λ h. (h, true);
  encode_buffer = λ h samples n. (h, some (low_bytes samples));
  encode_flush = λ h n. some (255 ∷ []);
}

low_bytes-append : (a b : List ℕ) → low_bytes (a ++ b) ≡ low_bytes a ++ low_bytes b
low_bytes-append [] b = refl
low_bytes-append (s ∷ a) b = ap (λ l. (s % 256) ∷ l) (low_bytes-append a b)

written-eq :
    (h h1 : ℕ) (x y : List ℕ)
    → ◌≡◌ {A = ℕ × Option (List ℕ)} (h, some x) (h1, some y)
    → (h ≡ h1) × (x ≡ y)
written-eq h h1 x y e = (cc, cc)

pub echo-IsIncremental : IsIncremental echo
echo-IsIncremental = record {
  none_in = λ h. refl;
  in_parts = λ h h1 h2 a b x y p q.
      let (same, left) = written-eq h h1 (low_bytes a) x p in
      let (same', right) = written-eq h1 h2 (low_bytes b) y q in
      ap₂ (λ k l. (k, some l)) (same ∙ same')
        (low_bytes-append a b ∙ ap₂ (λ m n. m ++ n) left right);
}
