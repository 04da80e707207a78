-- ===== src/Weights/Names.antt =====
-- The name of a file at the hub is taken apart into what it was put together from.
use vvaves.Common.{
  ℕ, zero, suc, ◌<◌, ◌≤◌, ◌≡◌, refl, ap, ap₂, sym, ◌∙◌, false, Option, none, some, List, [], ◌∷◌,
  ◌++◌, length, All, ◌==◌, arith, append-nil, ==_iff, Bool-cases, inl, inr,
}
use vvaves.Common.Results.{Result}
use vvaves.Weights.{
  hf_prefix, strip_prefix, trim_from, trim_start_matches, pushed, split, join, behind, revised,
  of_parts, download_if_necessary,
}

-- A text without a character.
abbrev pub Lacks : ℕ → List ℕ → Type 0
Lacks c s = All (λ x. (x == c) ≡ false) s

strip-later :
    (p : ℕ) (prefix : List ℕ) (x : ℕ) (s : List ℕ)
    → strip_prefix prefix s ≡ none
    → strip_prefix (p ∷ prefix) (x ∷ s) ≡ none
unfolding strip_prefix
strip-later p prefix x s h = elim (Bool-cases (x == p)) [ inl y ↦ rw y h | inr y ↦ rw y refl ]

strip-here :
    (p : ℕ) (prefix : List ℕ) (x : ℕ) (s : List ℕ)
    → (x == p) ≡ false
    → strip_prefix (p ∷ prefix) (x ∷ s) ≡ none
unfolding strip_prefix
strip-here p prefix x s h = rw h refl

-- No owner and repository look like the prefix.
strip-owner :
    (owner repo rest : List ℕ)
    → Lacks b'/' owner
    → Lacks b'/' repo
    → 0 < length repo
    → strip_prefix hf_prefix (owner ++ (b'/' ∷ (repo ++ rest))) ≡ none
strip-owner owner [] rest h k some_repo = absurd (omega (arith, some_repo))
strip-owner [] (r ∷ repo) rest h k some_repo = strip-here _ _ _ _ refl
strip-owner (a ∷ []) (r ∷ repo) rest h k some_repo = strip-later _ _ _ _ (strip-here _ _ _ _ refl)
strip-owner (a ∷ b ∷ []) (r ∷ repo) rest h k some_repo =
    strip-later _ _ _ _ (strip-later _ _ _ _ (strip-here _ _ _ _ refl))
strip-owner (a ∷ b ∷ c ∷ []) (r ∷ repo) rest h (k, k') some_repo =
    strip-later _ _ _ _
      (strip-later _ _ _ _ (strip-later _ _ _ _ (strip-later _ _ _ _ (strip-here _ _ _ _ k))))
strip-owner (a ∷ b ∷ c ∷ d ∷ owner) (r ∷ repo) rest (ha, (hb, (hc, (hd, h)))) k some_repo =
    strip-later _ _ _ _ (strip-later _ _ _ _ (strip-later _ _ _ _ (strip-here _ _ _ _ hd)))

trimmed :
    (fuel : ℕ) (s : List ℕ)
    → 2 ≤ fuel
    → strip_prefix hf_prefix s ≡ none
    → trim_from fuel (hf_prefix ++ s) ≡ s
unfolding trim_from strip_prefix
trimmed zero s h plain = absurd (omega (arith, h))
trimmed (suc zero) s h plain = absurd (omega (arith, h))
trimmed (suc (suc fuel)) s h plain =
    ap (λ (o : Option (List ℕ)). elim o [ none ↦ s | some rest ↦ trim_from fuel rest ]) plain

split-part : (part s : List ℕ) → Lacks b'/' part → split (part ++ (b'/' ∷ s)) ≡ part ∷ split s
unfolding split
split-part [] s h = refl
split-part (x ∷ part) s (h, rest) = rw h (ap (pushed x) (split-part part s rest))

-- A text is split into parts.
split-some : (s : List ℕ) → (part : List ℕ) × (parts : List (List ℕ)) × (split s ≡ part ∷ parts)
unfolding split
split-some [] = ([], [], refl)
split-some (x ∷ s) =
    let (part, parts, e) = split-some s in
    elim (Bool-cases (x == b'/')) [
      | inl y ↦ rw y ([], split s, refl)
      | inr y ↦ rw y (x ∷ part, parts, ap (pushed x) e)
    ]

join-pushed :
    (x : ℕ) (part : List ℕ) (parts : List (List ℕ))
    → join ((x ∷ part) ∷ parts) ≡ x ∷ join (part ∷ parts)
unfolding join
join-pushed x part [] = refl
join-pushed x part (part2 ∷ parts) = refl

join-split : (s : List ℕ) → join (split s) ≡ s
unfolding split join
join-split [] = refl
join-split (x ∷ s) =
    let (part, parts, e) = split-some s in
    let whole : join (part ∷ parts) ≡ s = ap join (sym e) ∙ join-split s in
    elim (Bool-cases (x == b'/')) [
      | inl y ↦ let slash : b'/' ≡ x = sym ((==_iff x b'/').0 y) in rw (y, e) (ap₂ ◌∷◌ slash whole)
      | inr y ↦ rw (y, e) (join-pushed x part parts ∙ ap (λ l. x ∷ l) whole)
    ]

revised-plain : (name : List ℕ) → Lacks b'@' name → revised name ≡ (name, none)
unfolding revised
revised-plain [] h = refl
revised-plain (x ∷ name) (h, rest) = ap (behind x name) (revised-plain name rest) ∙ rw h refl

revised-at :
    (name revision : List ℕ)
    → Lacks b'@' revision
    → revised (name ++ (b'@' ∷ revision)) ≡ (name, some revision)
unfolding revised
revised-at [] revision h = ap (behind b'@' revision) (revised-plain revision h)
revised-at (x ∷ name) revision h =
    ap (behind x (name ++ (b'@' ∷ revision))) (revised-at name revision h)

abbrev pub suffix : Option (List ℕ) → List ℕ
suffix none = []
suffix (some revision) = b'@' ∷ revision

-- Neither a name without a revision nor a revision has an `@`.
abbrev pub HasNoAt : List ℕ → Option (List ℕ) → Type 0
HasNoAt filename none = Lacks b'@' filename
HasNoAt filename (some revision) = Lacks b'@' revision

revised-suffix :
    (filename : List ℕ) (revision : Option (List ℕ))
    → HasNoAt filename revision
    → revised (filename ++ suffix revision) ≡ (filename, revision)
revised-suffix filename none h = ap revised (append-nil filename) ∙ revised-plain filename h
revised-suffix filename (some revision) h = revised-at filename revision h

abbrev pub full_name : List ℕ → List ℕ → List ℕ → Option (List ℕ) → List ℕ
full_name owner repo filename revision =
    hf_prefix ++ (owner ++ (b'/' ∷ (repo ++ (b'/' ∷ (filename ++ suffix revision)))))

module _ {File : Type 0} (get : List ℕ → List ℕ → Option (List ℕ) → Result File)
    (local : List ℕ → File) where
  of_parts-split :
      (owner repo s : List ℕ)
      → of_parts get local (owner ∷ repo ∷ split s)
        ≡ get (owner ++ (b'/' ∷ repo)) (revised s).0 (revised s).1
  unfolding of_parts
  of_parts-split owner repo s =
      let (part, parts, e) = split-some s in
      let whole : join (part ∷ parts) ≡ s = ap join (sym e) ∙ join-split s in
      rw e (ap (λ l. get (owner ++ (b'/' ∷ repo)) (revised l).0 (revised l).1) whole)

  -- A file at the hub is asked for by the repository, the name and the revision that its path is
  -- put together from, if neither owner nor repository has a `/`, the repository is not empty, and
  -- the revision, or the name where there is no revision, has no `@`. The name may have folders.
  pub download-full_name :
      (owner repo filename : List ℕ) (revision : Option (List ℕ))
      → Lacks b'/' owner
      → Lacks b'/' repo
      → 0 < length repo
      → HasNoAt filename revision
      → download_if_necessary get local (full_name owner repo filename revision)
        ≡ get (owner ++ (b'/' ∷ repo)) filename revision
  unfolding download_if_necessary trim_start_matches trim_from strip_prefix
  download-full_name owner repo filename revision h k some_repo plain =
      let tail = filename ++ suffix revision in
      let once : strip_prefix hf_prefix (owner ++ (b'/' ∷ (repo ++ (b'/' ∷ tail)))) ≡ none =
        strip-owner owner repo (b'/' ∷ tail) h k some_repo in
      let parts : split (owner ++ (b'/' ∷ (repo ++ (b'/' ∷ tail)))) ≡ owner ∷ repo ∷ split tail =
        split-part owner (repo ++ (b'/' ∷ tail)) h ∙ ap (λ l. owner ∷ l) (split-part repo tail k) in
      ap (λ l. of_parts get local (split l))
        (trimmed (length (full_name owner repo filename revision))
          (owner ++ (b'/' ∷ (repo ++ (b'/' ∷ tail)))) (omega arith) once)
      ∙ ap (of_parts get local) parts
      ∙ of_parts-split owner repo tail
      ∙ ap (λ r. get (owner ++ (b'/' ∷ repo)) r.0 r.1) (revised-suffix filename revision plain)
