-- ===== src/Libc/Strings/Text.antt =====
-- What a C string in memory is, as a list of its bytes, and the list functions that the string
-- functions are measured by.
use olympos.Prelude.{
  ℕ, suc, ◌+◌, ◌<◌, Bool, false, ◌||◌, Option, none, some, List, [], ◌∷◌, ◌==◌, if◌then◌else◌, ◌≡◌,
  Memory,
}

-- The bytes `xs`, none of them 0, stand at `p`, followed by a 0.
abbrev pub IsString : Memory → ℕ → List ℕ → Type 0
IsString m p [] = m p ≡ 0
IsString m p (x ∷ xs) = (m p ≡ x) × (0 < x) × (x < 256) × IsString m (p + 1) xs

-- The position of the first `c`.
abbrev pub index_of : ℕ → List ℕ → Option ℕ
index_of c [] = none
index_of c (x ∷ xs) =
    if x == c then some 0 else elim (index_of c xs) [ none ↦ none | some i ↦ some (suc i) ]

abbrev pub contains : List ℕ → ℕ → Bool
contains [] c = false
contains (x ∷ xs) c = (x == c) || contains xs c

-- The length of the longest prefix whose bytes all satisfy `p`.
abbrev pub prefix_length : (ℕ → Bool) → List ℕ → ℕ
prefix_length p [] = 0
prefix_length p (x ∷ xs) = let rest = suc (prefix_length p xs) in if p x then rest else 0
