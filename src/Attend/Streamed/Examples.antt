-- ===== src/Attend/Streamed/Examples.antt =====
-- A streaming attention of apps/tts/crates/engine/src/modules/attention.rs on numbers.
use vvaves.Common.{
  ℕ, ◌+◌, ◌*◌, ◌≡◌, refl, ap, ◌∙◌, true, Option, none, some, List, [], ◌∷◌, ◌++◌, length, take,
  drop, arith,
}
use vvaves.KvCache.Streaming.{init_state}
use vvaves.Attend.{Kernel, sdpa}
use vvaves.Attend.Hidden.{Hides}
use vvaves.Attend.Streamed.Items.{IsExact}
use vvaves.Attend.Streamed.AtOnce.{outputs, steps_of, outputs-at_once}

-- Numbers with a bottom, so that hidden keys take no part.
add_bottomed : Option ℕ → Option ℕ → Option ℕ
add_bottomed none y = none
add_bottomed (some x) none = none
add_bottomed (some x) (some y) = some (x + y)

weigh_bottomed : List (Option ℕ) → List ℕ → ℕ
weigh_bottomed [] v = 0
weigh_bottomed (p ∷ probs) [] = 0
weigh_bottomed (none ∷ probs) (x ∷ v) = weigh_bottomed probs v
weigh_bottomed (some p ∷ probs) (x ∷ v) = p * x + weigh_bottomed probs v

abbrev bottomed : Kernel ℕ ℕ ℕ
bottomed = record {
  F = Option ℕ;
  Out = ℕ;
  score = λ x y. some (x * y);
  add = add_bottomed;
  zero_score = some 0;
  neg_infinity = none;
  softmax = λ row. row;
  weigh = weigh_bottomed;
  plus = ◌+◌;
  zero_out = 0;
}

add_bottomed-zero : (x : Option ℕ) → add_bottomed x (some 0) ≡ x
unfolding add_bottomed
add_bottomed-zero none = refl
add_bottomed-zero (some x) = ap some (omega arith)

add_bottomed-none : (x : Option ℕ) → add_bottomed x none ≡ none
unfolding add_bottomed
add_bottomed-none none = refl
add_bottomed-none (some x) = refl

weigh_bottomed-none : (probs : List (Option ℕ)) → weigh_bottomed probs [] ≡ 0
unfolding weigh_bottomed
weigh_bottomed-none [] = refl
weigh_bottomed-none (p ∷ probs) = refl

weigh_bottomed-append :
    (probs : List (Option ℕ)) (v w : List ℕ)
    → weigh_bottomed probs (v ++ w)
      ≡ weigh_bottomed (take (length v) probs) v + weigh_bottomed (drop (length v) probs) w
unfolding weigh_bottomed
weigh_bottomed-append [] [] w = refl
weigh_bottomed-append [] (x ∷ v) w = refl
weigh_bottomed-append (p ∷ probs) [] w = omega arith
weigh_bottomed-append (none ∷ probs) (x ∷ v) w = weigh_bottomed-append probs v w
weigh_bottomed-append (some p ∷ probs) (x ∷ v) w =
    let later = weigh_bottomed-append probs v w in omega (arith, later)

weigh_bottomed-last :
    (probs : List (Option ℕ)) (y : ℕ) (v : List ℕ)
    → length probs ≡ length v
    → weigh_bottomed (probs ++ (none ∷ [])) (v ++ (y ∷ [])) ≡ weigh_bottomed probs v
unfolding weigh_bottomed
weigh_bottomed-last [] y [] h = refl
weigh_bottomed-last [] y (x ∷ v) h = absurd (omega (arith, h))
weigh_bottomed-last (p ∷ probs) y [] h = absurd (omega (arith, h))
weigh_bottomed-last (none ∷ probs) y (x ∷ v) h = weigh_bottomed-last probs y v (omega (arith, h))
weigh_bottomed-last (some p ∷ probs) y (x ∷ v) h =
    ap (λ n. p * x + n) (weigh_bottomed-last probs y v (omega (arith, h)))

Hides-bottomed : Hides bottomed
unfolding weigh_bottomed
Hides-bottomed = record {
  first = λ s row y v h. ap (λ b. weigh_bottomed (b ∷ row) (y ∷ v)) (add_bottomed-none s);
  last = λ s row y v h same.
      ap (λ b. weigh_bottomed (row ++ (b ∷ [])) (v ++ (y ∷ []))) (add_bottomed-none s)
      ∙ weigh_bottomed-last row y v same;
}

IsExact-bottomed : IsExact bottomed
unfolding add_bottomed
IsExact-bottomed = record {
  add-zero = add_bottomed-zero;
  weigh-none = weigh_bottomed-none;
  weigh-append = weigh_bottomed-append;
  plus-assoc = λ a b c. omega arith;
  plus-zero = λ a. omega arith;
  zero-plus = λ a. omega arith;
  hides = Hides-bottomed;
}

-- A reading of five steps in three chunks, with a window of two.
abbrev reading : List (List (ℕ × (ℕ × ℕ)) × ℕ)
reading =
    ((2, (1, 7)) ∷ (3, (4, 8)) ∷ [], 0)
    ∷ ((1, (5, 9)) ∷ [], 2)
    ∷ ((4, (2, 6)) ∷ (5, (3, 1)) ∷ [], 3)
    ∷ []

outputs-at_once_example :
    outputs bottomed (0, 0) (some 2) (init_state (0, 0) (some 2)) reading
    ≡ sdpa bottomed
        (2 ∷ 3 ∷ 1 ∷ 4 ∷ 5 ∷ [])
        (1 ∷ 4 ∷ 5 ∷ 2 ∷ 3 ∷ [])
        (7 ∷ 8 ∷ 9 ∷ 6 ∷ 1 ∷ [])
        true
        (some 2)
unfolding steps_of
outputs-at_once_example =
    outputs-at_once bottomed (0, 0) IsExact-bottomed (some 2) reading (omega arith)
