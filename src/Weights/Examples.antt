-- ===== src/Weights/Examples.antt =====
-- A name at the hub.
use vvaves.Common.{ℕ, ◌≡◌, refl, Option, none, some, List, [], ◌∷◌, ◌++◌, arith}
use vvaves.Common.Results.{Result, ok}
use vvaves.Weights.{download_if_necessary}
use vvaves.Weights.Names.{full_name, download-full_name}

-- A hub whose answer is the question.
abbrev echo : List ℕ → List ℕ → Option (List ℕ) → Result (List ℕ)
echo repo filename none = ok (repo ++ filename)
echo repo filename (some revision) = ok (repo ++ (filename ++ revision))

-- hf://a/b/c/d@e
download-full_name_example :
    download_if_necessary echo
      (λ path. path)
      (full_name (b'a' ∷ []) (b'b' ∷ []) (b'c' ∷ b'/' ∷ b'd' ∷ []) (some (b'e' ∷ [])))
    ≡ ok (b'a' ∷ b'/' ∷ b'b' ∷ b'c' ∷ b'/' ∷ b'd' ∷ b'e' ∷ [])
download-full_name_example =
    download-full_name echo (λ path. path) (b'a' ∷ []) (b'b' ∷ []) (b'c' ∷ b'/' ∷ b'd' ∷ [])
      (some (b'e' ∷ [])) (refl, tt) (refl, tt) (omega arith) (refl, tt)
