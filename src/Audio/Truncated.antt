-- ===== src/Audio/Truncated.antt =====
-- A file whose data ends before its header says.
use native.Mathlib.Nat.{mul-div-le, suc-mul, div-add-mod}
use vvaves.Common.{
  ℕ, zero, suc, ◌+◌, ◌-◌, ◌*◌, ◌/◌, ◌%◌, ◌<◌, ◌≡◌, refl, ap, sym, ◌∙◌, Bool, true, false, List, [],
  ◌∷◌, ◌++◌, map, concat, length, replicate, ◌==◌, if◌then◌else◌, length-map, append-nil, arith,
  append_assoc, length-append, length-replicate, lt→ltb,
}
use vvaves.Common.Results.{Result, ok, err, ◌>>=◌}
use vvaves.Common.Floats.{Floats}
use vvaves.Audio.{
  FromVec, Item, got, truncated, ints, column, columns, reshaped, tensor_of, read_samples, read_all,
  max_val, read_wav_internal,
}
use vvaves.Audio.Tensor.{IsFromVec, rows_of}

abbrev pub is_ok : {A : Type 0} → Result A → Bool
is_ok (ok x) = true
is_ok err = false

module _ {F : Type 0} (z : F) where
  length-column :
      (samples : List F) (channels c left i : ℕ)
      → length (column z samples channels c left i) ≡ left
  unfolding column
  length-column samples channels c zero i = refl
  length-column samples channels c (suc left) i =
      ap suc (length-column samples channels c left (suc i))

  length-columns :
      (samples : List F) (channels n left c : ℕ)
      → length (concat (columns z samples channels n left c)) ≡ left * n
  unfolding columns
  length-columns samples channels n zero c = omega arith
  length-columns samples channels n (suc left) c = omega (
    arith,
    length-append (column z samples channels c n 0)
        (concat (columns z samples channels n left (suc c))),
    length-column samples channels c n 0,
    length-columns samples channels n left (suc c),
    suc-mul left n,
  )

  length-reshaped :
      (samples : List F) (channels : ℕ) → length (reshaped z samples channels) ≡ length samples
  unfolding reshaped
  length-reshaped samples channels =
      let n = length samples / channels in
      let behind = replicate (length samples - channels * n) z in
      omega (
        arith,
        length-append (concat (columns z samples channels n channels 0)) behind,
        length-columns samples channels n channels 0,
        length-replicate (length samples - channels * n) z,
        mul-div-le (length samples) channels,
      )

  is_ok-if : {A : Type 0} (b : Bool) (x : A) → is_ok (if b then ok x else err) ≡ b
  is_ok-if true x = refl
  is_ok-if false x = refl

  whole_test : (p r t : ℕ) → p + r ≡ t → (t == p) ≡ (r == 0)
  whole_test p r t h = ground arith

  is_ok-tensor_of :
      (from_vec : FromVec F)
      → IsFromVec from_vec
      → (samples : List F) (channels : ℕ) → 1 < channels
      → is_ok (tensor_of z from_vec samples channels) ≡ (length samples % channels == 0)
  unfolding tensor_of
  is_ok-tensor_of from_vec law samples channels h =
      let n = length samples / channels in
      rw (lt→ltb 1 channels h) (
        ap is_ok (law (reshaped z samples channels) channels n)
        ∙ is_ok-if (length (reshaped z samples channels) == channels * n)
            (rows_of channels n (reshaped z samples channels))
        ∙ ap (λ t. t == channels * n) (length-reshaped samples channels)
        ∙ whole_test (channels * n) (length samples % channels) (length samples)
            (div-add-mod (length samples) channels))

is_ok-bind : {A B : Type 0} (r : Result A) (g : A → B) → is_ok (r >>= (λ a. ok (g a))) ≡ is_ok r
is_ok-bind (ok a) g = refl
is_ok-bind err g = refl

-- Where the data ends, what was read is kept, if that is something.
read_samples-truncated :
    {A F : Type 0}
    → (of : A → F) (vs : List A) (items : List (Item A)) (x : F) (samples : List F)
    → read_samples of (map got vs ++ (truncated ∷ items)) (x ∷ samples)
      ≡ ok ((x ∷ samples) ++ map of vs)
unfolding read_samples
read_samples-truncated of [] items x samples = ap ok (sym (append-nil (x ∷ samples)))
read_samples-truncated of (v ∷ vs) items x samples =
    read_samples-truncated of vs items x (samples ++ (of v ∷ []))
    ∙ ap ok (append_assoc (x ∷ samples) (of v ∷ []) (map of vs))

-- Where candle makes a tensor row by row of as many elements as it has, and of no other number: of a
-- file of several channels whose data ends within a sample, after one sample at least, what is there
-- is accepted if it is a whole number of frames, and refused as an error if it is not.
pub read-truncated :
    (f : Floats) (of_i32 : ℕ → f.F) (from_vec : FromVec f.F)
    → IsFromVec from_vec
    → (v : ℕ) (vs : List ℕ) (items : List (Item ℕ)) (channels rate bits : ℕ) → 1 < channels
    → is_ok (
        read_wav_internal f of_i32 from_vec (record {
          channels = channels;
          sample_rate = rate;
          samples = ints bits (map got (v ∷ vs) ++ (truncated ∷ items));
        }))
      ≡ (length (v ∷ vs) % channels == 0)
unfolding read_wav_internal read_all read_samples
read-truncated f of_i32 from_vec law v vs items channels rate bits h =
    let of : ℕ → f.F = λ w. f.div (of_i32 w) (max_val f of_i32 bits) in
    let silence : f.F = f.lit 0 0 in
    let there : List f.F = map of (v ∷ vs) in
    ap
      (λ r.
        is_ok {A = List (List f.F) × ℕ}
          (r >>= (λ s. tensor_of silence from_vec s channels) >>= (λ t. ok (t, rate))))
      (read_samples-truncated of vs items (of v) [])
    ∙ is_ok-bind (tensor_of silence from_vec there channels) (λ t. (t, rate))
    ∙ is_ok-tensor_of silence from_vec law there channels h
    ∙ ap (λ n. n % channels == 0) (length-map of (v ∷ vs))
