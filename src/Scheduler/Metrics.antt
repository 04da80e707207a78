-- ===== src/Scheduler/Metrics.antt =====
-- The histograms of apps/tts/crates/server/src/metrics.rs.
use vvaves.Common.{
  ℕ, ◌+◌, ◌%◌, ◌^◌, ◌≡◌, refl, ap, ap₂, ◌∙◌, List, [], ◌∷◌, map, length, arith, Bool-cases, inl,
  inr, if◌then◌else◌,
}
use vvaves.Common.Floats.{Floats}
use vvaves.Scheduler.{add_one}

module _ (f : Floats) where
  open f use {F, add, at_least, lit}

  pub record Histogram : Type 0 where
    pub bounds : List F
    pub counts : List ℕ
    pub sum : F
    pub total : ℕ

  pub new : List F → Histogram
  new bounds = record { bounds = bounds; counts = map (λ b. 0) bounds; sum = lit 0 0; total = 0 }

  -- The loop over the bounds and their counts, side by side.
  pub counted : F → List F → List ℕ → List ℕ
  counted v [] counts = counts
  counted v (b ∷ bs) [] = []
  counted v (b ∷ bs) (n ∷ counts) = (if at_least b v then add_one n else n) ∷ counted v bs counts

  pub observe : Histogram → F → Histogram
  unfolding counted
  observe h v = record h {
    counts = counted v h.bounds h.counts;
    total = add_one h.total;
    sum = add h.sum v;
  }

  pub observe_all : List F → Histogram → Histogram
  unfolding observe
  observe_all [] h = h
  observe_all (v ∷ vs) h = observe_all vs (observe h v)

  -- How many values are no greater than a bound.
  abbrev pub at_most : F → List F → ℕ
  at_most b [] = 0
  at_most b (v ∷ vs) = (if at_least b v then 1 else 0) + at_most b vs

  add_one-mod : (n : ℕ) → add_one (n % 2 ^ 64) ≡ (n + 1) % 2 ^ 64
  add_one-mod n = omega arith

  counted-map :
      (v : F) (g : F → ℕ) (bs : List F)
      → counted v bs (map (λ b. g b % 2 ^ 64) bs)
        ≡ map (λ b. (g b + (if at_least b v then 1 else 0)) % 2 ^ 64) bs
  unfolding counted
  counted-map v g [] = refl
  counted-map v g (b ∷ bs) = elim (Bool-cases (at_least b v)) [
    | inl y ↦ rw y (ap₂ (λ n ns. n ∷ ns) (add_one-mod (g b)) (counted-map v g bs))
    | inr y ↦ rw y (ap₂ (λ n ns. n ∷ ns) (omega arith) (counted-map v g bs))
  ]

  map-ext : (g h : F → ℕ) (bs : List F) → ((b : F) → g b ≡ h b) → map g bs ≡ map h bs
  map-ext g h [] e = refl
  map-ext g h (b ∷ bs) e = ap₂ (λ n ns. n ∷ ns) (e b) (map-ext g h bs e)

  observe_all-counts :
      (vs : List F) (h : Histogram) (g : F → ℕ) (n : ℕ)
      → h.counts ≡ map (λ b. g b % 2 ^ 64) h.bounds
      → h.total ≡ n % 2 ^ 64
      → ((observe_all vs h).counts ≡ map (λ b. (g b + at_most b vs) % 2 ^ 64) h.bounds)
        × ((observe_all vs h).total ≡ (n + length vs) % 2 ^ 64)
  unfolding observe_all observe
  observe_all-counts [] h g n e t = (e ∙ map-ext _ _ h.bounds (λ b. omega arith), t ∙ omega arith)
  observe_all-counts (v ∷ vs) h g n e t =
      let g' : F → ℕ = λ b. g b + (if at_least b v then 1 else 0) in
      let (counts, total) =
        observe_all-counts vs (observe h v) g' (n + 1)
          (ap (counted v h.bounds) e ∙ counted-map v g h.bounds) (ap add_one t ∙ add_one-mod n) in
      (counts ∙ map-ext _ _ h.bounds (λ b. omega arith), total ∙ omega arith)

  -- After any observations of a new histogram, the count of each bound is the number of values
  -- that are no greater than it, and the total is the number of all values, both modulo 2^64.
  pub observe_all-new :
      (bounds vs : List F)
      → ((observe_all vs (new bounds)).counts ≡ map (λ b. at_most b vs % 2 ^ 64) bounds)
        × ((observe_all vs (new bounds)).total ≡ length vs % 2 ^ 64)
  unfolding new
  observe_all-new bounds vs =
      let (counts, total) =
        observe_all-counts vs (new bounds) (λ b. 0) 0 (map-ext _ _ bounds (λ b. omega arith))
          (omega arith) in
      (counts ∙ map-ext _ _ bounds (λ b. omega arith), total ∙ omega arith)
