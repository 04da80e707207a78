-- ===== src/Encode/Lame/Slices.antt =====
-- What the code relies on of LAME when it feeds a reading slice by slice.
use vvaves.Common.{ℕ, ◌+◌, ◌*◌, ◌/◌, ◌≡◌, ap, Option, none, some, List, [], ◌++◌, length}
use vvaves.Common.Results.{ok}
use vvaves.Encode.Lame.{Lame, mp3_encode, flush_cap, written}

-- The size of the buffer that `Mp3Encoder::encode` hands to LAME.
abbrev pub room : List ℕ → ℕ
room samples = length samples * 5 / 4 + flush_cap

-- LAME buffers across calls: a slice fed in two parts gives the bytes of the whole, and no
-- samples give no bytes.
pub record IsIncremental (l : Lame) : Type 0 where
  pub none_in : (h : l.Handle) → l.encode_buffer h [] (room []) ≡ (h, some [])
  pub in_parts :
      (h h1 h2 : l.Handle) (a b x y : List ℕ)
      → l.encode_buffer h a (room a) ≡ (h1, some x)
      → l.encode_buffer h1 b (room b) ≡ (h2, some y)
      → l.encode_buffer h (a ++ b) (room (a ++ b)) ≡ (h2, some (x ++ y))

module _ (l : Lame) where
  open l use {Handle}

  written-eq-ok :
      (r : Handle × Option (List ℕ)) (x : List ℕ) (h : Handle)
      → written l r ≡ ok (x, h)
      → r ≡ (h, some x)
  unfolding written
  written-eq-ok (h, none) x h' e = cc
  written-eq-ok (h, some x) x' h' e = cc

  module _ (inc : IsIncremental l) where
    pub mp3_encode-nil : (h : Handle) → mp3_encode l h [] ≡ ok ([], h)
    unfolding mp3_encode
    mp3_encode-nil h = ap (written l) (inc.none_in h)

    pub mp3_encode-append :
        (h h1 h2 : Handle) (a b x y : List ℕ)
        → mp3_encode l h a ≡ ok (x, h1)
        → mp3_encode l h1 b ≡ ok (y, h2)
        → mp3_encode l h (a ++ b) ≡ ok (x ++ y, h2)
    unfolding mp3_encode
    mp3_encode-append h h1 h2 a b x y p q =
        ap (written l)
          (inc.in_parts h h1 h2 a b x y (written-eq-ok _ x h1 p) (written-eq-ok _ y h2 q))
