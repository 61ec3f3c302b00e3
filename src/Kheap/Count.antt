-- ===== src/Kheap/Count.antt =====
-- How many blocks of a bitmap are used, and how a run changes the number.
use olympos.Prelude.{
  ℕ, zero, suc, ◌+◌, ◌-◌, ◌≤◌, ◌<◌, min, Bool, true, false, if◌then◌else◌, ◌≡◌, refl, arith, List,
  ◌∙◌,
}
use olympos.Kheap.{heap_blocks_max, is_block_used}
use olympos.Kheap.Blocks.{in_run}

-- The number of `k < n` with `p k`.
pub count_below : ℕ → (ℕ → Bool) → ℕ
count_below zero p = 0
count_below (suc n) p = (if p n then 1 else 0) + count_below n p

pub count_below-le : (n : ℕ) (p : ℕ → Bool) → count_below n p ≤ n
unfolding count_below
count_below-le zero p = omega arith
count_below-le (suc n) p = ground (arith, count_below-le n p)

pub count_below_ext :
    (n : ℕ) (p q : ℕ → Bool) → ((k : ℕ) → p k ≡ q k) → count_below n p ≡ count_below n q
unfolding count_below
count_below_ext zero p q h = refl
count_below_ext (suc n) p q h = ground (arith, h n, count_below_ext n p q h)

-- Filling an empty run adds the part of it that lies below `m`.
count_below-run :
    (m s n : ℕ) (p : ℕ → Bool)
    → ((k : ℕ) → s ≤ k → k < s + n → p k ≡ false)
    → count_below m (λ k. if in_run s n k then true else p k)
      ≡ count_below m p + (min m (s + n) - s)
unfolding count_below
count_below-run zero s n p h = omega arith
count_below-run (suc m) s n p h = ground (arith, h m, count_below-run m s n p h)

pub count_used : List ℕ → ℕ
count_used bm = count_below heap_blocks_max (is_block_used bm)

pub count_used-le : (bm : List ℕ) → count_used bm ≤ heap_blocks_max
unfolding count_used
count_used-le bm = count_below-le heap_blocks_max (is_block_used bm)

-- Between two bitmaps that differ by a free run of `n` blocks the numbers differ by `n`.
pub count_used-run :
    (bm bm' : List ℕ) (s n : ℕ)
    → s + n ≤ heap_blocks_max
    → ((k : ℕ) → s ≤ k → k < s + n → is_block_used bm k ≡ false)
    → ((k : ℕ) → is_block_used bm' k ≡ (if in_run s n k then true else is_block_used bm k))
    → count_used bm' ≡ count_used bm + n
unfolding count_used
count_used-run bm bm' s n fits free marked =
    count_below_ext heap_blocks_max _ _ marked
    ∙ count_below-run heap_blocks_max s n (is_block_used bm) free
    ∙ omega arith

nothing : (n : ℕ) (p : ℕ → Bool) → ((k : ℕ) → p k ≡ false) → count_below n p ≡ 0
unfolding count_below
nothing zero p h = refl
nothing (suc n) p h = ground (arith, h n, nothing n p h)

pub count_used-zero : (bm : List ℕ) → ((k : ℕ) → is_block_used bm k ≡ false) → count_used bm ≡ 0
unfolding count_used
count_used-zero bm h = nothing heap_blocks_max (is_block_used bm) h

pub count_used_ext :
    (bm bm' : List ℕ)
    → ((k : ℕ) → is_block_used bm k ≡ is_block_used bm' k)
    → count_used bm ≡ count_used bm'
unfolding count_used
count_used_ext bm bm' h = count_below_ext heap_blocks_max _ _ h
