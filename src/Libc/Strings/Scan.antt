-- ===== src/Libc/Strings/Scan.antt =====
-- The scanning functions against lists: each ends within fuel above the length of its strings.
use olympos.Prelude.{
  ℕ, zero, suc, ◌+◌, ◌-◌, ◌≤◌, ◌<◌, not, none, some, List, [], ◌∷◌, length, ◌==◌, if◌then◌else◌,
  ◌≡◌, ◌↔◌, refl, sym, ap, ◌∙◌, subst, arith, Memory, u8, ℤ, pos,
}
use olympos.Libc.Strings.{
  strlen_from, strlen, strcmp, byte_difference, strchr, span_from, strspn, cspan_from, strcspn,
}
use olympos.Libc.Strings.Text.{IsString, index_of, contains, prefix_length}

strlen_from_lem :
    (fuel : ℕ) (m : Memory) (str len : ℕ) (xs : List ℕ)
    → IsString m (str + len) xs
    → length xs < fuel
    → strlen_from fuel m str len ≡ some (len + length xs)
unfolding strlen_from
strlen_from_lem zero m str len xs s h = absurd (omega arith)
strlen_from_lem (suc fuel) m str len [] s h = ground arith
strlen_from_lem (suc fuel) m str len (x ∷ xs) s h =
    let next : IsString m (str + (len + 1)) xs = subst (λ q. IsString m q xs) (omega arith) s.3 in
    ground (arith, s.0, s.1, strlen_from_lem fuel m str (len + 1) xs next)

-- `strlen` returns the length of the string, given more fuel than that.
pub strlen_lem :
    (fuel : ℕ) (m : Memory) (str : ℕ) (xs : List ℕ)
    → IsString m str xs
    → length xs < fuel
    → strlen fuel m str ≡ some (length xs)
unfolding strlen
strlen_lem fuel m str xs s h =
    strlen_from_lem fuel m str 0 xs (subst (λ q. IsString m q xs) (omega arith) s) h ∙ ground arith

-- `strchr` returns the address of the first such character, that of the terminator for the
-- character 0, and NULL if there is none.
abbrev pub located : ℕ → ℕ → List ℕ → ℕ
located str c xs = elim (index_of (u8 c) xs) [
  | some i ↦ str + i
  | none ↦ if c == 0 then str + length xs else 0
]

-- With fuel above the length of its string `strchr` ends, with `located` of the character: its first
-- address, that of the terminator for the character 0, or NULL.
pub strchr_lem :
    (fuel : ℕ) (m : Memory) (str c : ℕ) (xs : List ℕ)
    → IsString m str xs
    → length xs < fuel
    → strchr fuel m str c ≡ some (located str c xs)
unfolding strchr
strchr_lem zero m str c xs s h = absurd (omega arith)
strchr_lem (suc fuel) m str c [] s h = ground arith
strchr_lem (suc fuel) m str c (x ∷ xs) s h =
    ground (arith, s.0, s.1, strchr_lem fuel m (str + 1) c xs s.3)

-- For a byte that is not 0, the result is NULL just if the string lacks it.
located-contains :
    (str c : ℕ) (xs : List ℕ)
    → 0 < str
    → 0 < c
    → c < 256
    → (located str c xs == 0) ≡ not (contains xs c)
located-contains str c [] hs h l = ground arith
located-contains str c (x ∷ xs) hs h l =
    ground (arith, located-contains (str + 1) c xs (omega arith) h l)

module _ (f : ℕ) (m : Memory) (set : ℕ) (chars : List ℕ) (s : IsString m set chars)
    (enough : length chars < f) (nonnull : 0 < set) where
  found :
      (c : ℕ)
      → 0 < c
      → c < 256
      → (r : ℕ) × (strchr f m set c ≡ some r) × ((r == 0) ≡ not (contains chars c))
  found c h l = (
    located set c chars,
    strchr_lem f m set c chars s enough,
    located-contains set c chars nonnull h l,
  )

  span_from_lem :
      (fuel str p : ℕ) (xs : List ℕ)
      → IsString m p xs
      → length xs < fuel
      → str ≤ p
      → span_from f fuel m str p set ≡ some (p - str + prefix_length (contains chars) xs)
  unfolding span_from
  span_from_lem zero str p xs t h l = absurd (omega arith)
  span_from_lem (suc fuel) str p [] t h l = ground arith
  span_from_lem (suc fuel) str p (x ∷ xs) t h l =
      let r = found x t.1 t.2 in
      let e : strchr f m set (m p) ≡ some r.0 = ap (strchr f m set) t.0 ∙ r.1 in
      ground (arith, t.0, t.1, e, r.2, span_from_lem fuel str (p + 1) xs t.3)

  cspan_from_lem :
      (fuel str p : ℕ) (xs : List ℕ)
      → IsString m p xs
      → length xs < fuel
      → str ≤ p
      → cspan_from f fuel m str p set
        ≡ some (p - str + prefix_length (λ c. not (contains chars c)) xs)
  unfolding cspan_from
  cspan_from_lem zero str p xs t h l = absurd (omega arith)
  cspan_from_lem (suc fuel) str p [] t h l = ground arith
  cspan_from_lem (suc fuel) str p (x ∷ xs) t h l =
      let r = found x t.1 t.2 in
      let e : strchr f m set (m p) ≡ some r.0 = ap (strchr f m set) t.0 ∙ r.1 in
      ground (arith, t.0, t.1, e, r.2, cspan_from_lem fuel str (p + 1) xs t.3)

-- With fuel above the lengths of both strings `strspn` returns the length of the longest prefix of bytes from the set, and `strcspn` that of
-- the longest prefix of bytes outside it.
pub strspn_lem :
    (fuel : ℕ) (m : Memory) (str set : ℕ) (xs chars : List ℕ)
    → IsString m str xs
    → IsString m set chars
    → 0 < set
    → length xs < fuel
    → length chars < fuel
    → (strspn fuel m str set ≡ some (prefix_length (contains chars) xs))
      × (strcspn fuel m str set ≡ some (prefix_length (λ c. not (contains chars c)) xs))
unfolding strspn strcspn
strspn_lem fuel m str set xs chars s t nonnull h k = (
  span_from_lem fuel m set chars t k nonnull fuel str str xs s h (omega arith)
      ∙ ap some (omega arith),
  cspan_from_lem fuel m set chars t k nonnull fuel str str xs s h (omega arith)
      ∙ ap some (omega arith),
)

-- The lexicographic order of two strings by their first difference, as `strcmp` reports it.
abbrev pub first_difference : List ℕ → List ℕ → ℤ
first_difference [] [] = pos 0
first_difference [] (y ∷ ys) = byte_difference 0 y
first_difference (x ∷ xs) [] = byte_difference x 0
first_difference (x ∷ xs) (y ∷ ys) =
    let rest = first_difference xs ys in if x == y then rest else byte_difference x y

-- With fuel above the length of its first string `strcmp` ends, with the first difference.
pub strcmp_lem :
    (fuel : ℕ) (m : Memory) (s1 s2 : ℕ) (xs ys : List ℕ)
    → IsString m s1 xs
    → IsString m s2 ys
    → length xs < fuel
    → strcmp fuel m s1 s2 ≡ some (first_difference xs ys)
unfolding strcmp
strcmp_lem zero m s1 s2 xs ys p q h = absurd (omega arith)
strcmp_lem (suc fuel) m s1 s2 [] [] p q h = ground arith
strcmp_lem (suc fuel) m s1 s2 [] (y ∷ ys) p q h = ground (arith, q.0)
strcmp_lem (suc fuel) m s1 s2 (x ∷ xs) [] p q h = ground (arith, p.0, p.1)
strcmp_lem (suc fuel) m s1 s2 (x ∷ xs) (y ∷ ys) p q h =
    ground (arith, p.0, p.1, q.0, strcmp_lem fuel m (s1 + 1) (s2 + 1) xs ys p.3 q.3)

pub first_difference-zero :
    (m : Memory) (p q : ℕ) (xs ys : List ℕ)
    → IsString m p xs
    → IsString m q ys
    → first_difference xs ys ≡ pos 0
    → xs ≡ ys
first_difference-zero m p q [] [] s t e = refl
first_difference-zero m p q [] (y ∷ ys) s t e = ground (arith, t.1)
first_difference-zero m p q (x ∷ xs) [] s t e = ground (arith, s.1)
first_difference-zero m p q (x ∷ xs) (y ∷ ys) s t e =
    ground (arith, first_difference-zero m (p + 1) (q + 1) xs ys s.3 t.3)

pub first_difference_self : (xs : List ℕ) → first_difference xs xs ≡ pos 0
first_difference_self [] = refl
first_difference_self (x ∷ xs) = ground (arith, first_difference_self xs)

-- With fuel above the length of its first string, `strcmp` returns 0 exactly for equal strings.
pub strcmp-eq_iff :
    (fuel : ℕ) (m : Memory) (s1 s2 : ℕ) (xs ys : List ℕ)
    → IsString m s1 xs
    → IsString m s2 ys
    → length xs < fuel
    → (strcmp fuel m s1 s2 ≡ some (pos 0)) ↔ (xs ≡ ys)
strcmp-eq_iff fuel m s1 s2 xs ys p q h = (
  λ e. first_difference-zero m s1 s2 xs ys p q (same e),
  λ e.
      strcmp_lem fuel m s1 s2 xs ys p q h
      ∙ ap some (ap (λ zs. first_difference xs zs) (sym e) ∙ first_difference_self xs),
)
  where
    same : strcmp fuel m s1 s2 ≡ some (pos 0) → first_difference xs ys ≡ pos 0
    same e = cc (e, strcmp_lem fuel m s1 s2 xs ys p q h)
