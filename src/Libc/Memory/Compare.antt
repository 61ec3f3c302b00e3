-- ===== src/Libc/Memory/Compare.antt =====
-- `memcmp` against the first difference of the two regions.
use olympos.Prelude.{ℕ, zero, suc, ◌+◌, ◌≤◌, ◌<◌, ◌≡◌, refl, arith, Memory, ℤ, pos, negsuc}
use native.Mathlib.Decide.{dec_lt, ℕ_discrete}
use olympos.Libc.Memory.{compare_from, memcmp}

-- The regions agree from offset `lo` up to, but not including, `hi`.
abbrev pub Agree : Memory → ℕ → ℕ → ℕ → ℕ → Type 0
Agree m a b lo hi = (j : ℕ) → lo ≤ j → j < hi → m (a + j) ≡ m (b + j)

-- 0 for equal regions, -1 or 1 by the first byte that differs.
pub data Compared (m : Memory) (a b lo hi : ℕ) (r : ℤ) : Type 0 where
  equal : Agree m a b lo hi → r ≡ pos 0 → Compared m a b lo hi r
  less :
      (i : ℕ)
      → lo ≤ i
      → i < hi
      → Agree m a b lo i
      → m (a + i) < m (b + i)
      → r ≡ negsuc 0
      → Compared m a b lo hi r
  greater :
      (i : ℕ)
      → lo ≤ i
      → i < hi
      → Agree m a b lo i
      → m (b + i) < m (a + i)
      → r ≡ pos 1
      → Compared m a b lo hi r

widen :
    (m : Memory) (a b lo hi : ℕ)
    → m (a + lo) ≡ m (b + lo)
    → Agree m a b (lo + 1) hi
    → Agree m a b lo hi
widen m a b lo hi e rest j p q = elim (ℕ_discrete lo j) [
  | yes f ↦ rw (← f) e
  | no f ↦ rest j (omega arith) q
]

prepend :
    (m : Memory) (a b lo hi : ℕ) (r : ℤ)
    → m (a + lo) ≡ m (b + lo)
    → Compared m a b (lo + 1) hi r
    → Compared m a b lo hi r
prepend m a b lo hi r e (equal all s) = equal (widen m a b lo hi e all) s
prepend m a b lo hi r e (less i p q all l s) = less i (omega arith) q (widen m a b lo i e all) l s
prepend m a b lo hi r e (greater i p q all l s) =
    greater i (omega arith) q (widen m a b lo i e all) l s

compare_same :
    (a b n i : ℕ) (m : Memory)
    → m (a + i) ≡ m (b + i)
    → compare_from a b (suc n) i m ≡ compare_from a b n (i + 1) m
unfolding compare_from
compare_same a b n i m e = ground arith

compare_from-Compared :
    (a b n i hi : ℕ) (m : Memory) → i + n ≡ hi → Compared m a b i hi (compare_from a b n i m)
compare_from-Compared a b zero i hi m e =
    equal (λ j p q. absurd (omega arith)) (unfold compare_from in refl)
compare_from-Compared a b (suc n) i hi m e = elim (dec_lt (m (a + i)) (m (b + i))) [
  | yes l ↦
      less i (omega arith) (omega arith) (λ j p q. absurd (omega arith)) l
        (unfold compare_from in ground arith)
  | no l ↦ elim (dec_lt (m (b + i)) (m (a + i))) [
    | yes g ↦
        greater i (omega arith) (omega arith) (λ j p q. absurd (omega arith)) g
          (unfold compare_from in ground arith)
    | no g ↦ rw (compare_same a b n i m (omega arith)) (
        prepend m a b i hi _ (omega arith) (compare_from-Compared a b n (i + 1) hi m (omega arith)))
  ]
]

-- `memcmp` returns 0 for equal regions, and otherwise -1 or 1 by the order of the first two bytes
-- that differ.
pub memcmp-Compared : (a b size : ℕ) (m : Memory) → Compared m a b 0 size (memcmp a b size m)
unfolding memcmp
memcmp-Compared a b size m = compare_from-Compared a b size 0 size m (omega arith)
