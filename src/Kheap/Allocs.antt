-- ===== src/Kheap/Allocs.antt =====
-- The abstract heap: the list of live allocations, each a start block and a number of blocks.
use olympos.Prelude.{
  ℕ, ◌+◌, ◌*◌, ◌≤◌, ◌<◌, Bool, true, false, ◌||◌, if◌then◌else◌, ◌==◌, List, [], ◌∷◌, ◌≡◌, ◌≢◌, ◌⊎◌,
  inl, inr, refl, sym, ◌∙◌, subst, arith, Memory, store,
}
use native.Mathlib.Decide.{ℕ_discrete}
use olympos.Kheap.{heap_blocks_max, heap_block_size}
use olympos.Kheap.Blocks.{in_run}

abbrev pub Allocs : Type 0
Allocs = List (ℕ × ℕ)

abbrev pub covers : Allocs → ℕ → Bool
covers [] k = false
covers ((s, n) ∷ live) k = in_run s n k || covers live k

-- Every allocation is non-empty and inside the heap, and no two share a block.
abbrev pub Disjoint : Allocs → Type 0
Disjoint [] = Unit {0}
Disjoint ((s, n) ∷ live) =
    (0 < n)
    × (s + n ≤ heap_blocks_max)
    × ((k : ℕ) → in_run s n k ≡ true → covers live k ≡ false)
    × Disjoint live

-- The first word of each allocation holds its number of blocks.
abbrev pub Stored : Memory → ℕ → Allocs → Type 0
Stored m base [] = Unit {0}
Stored m base ((s, n) ∷ live) = (m (base + s * heap_block_size) ≡ n) × Stored m base live

abbrev pub Listed : ℕ → ℕ → Allocs → Type 0
Listed s n [] = ⊥
Listed s n ((s', n') ∷ live) = ((s ≡ s') × (n ≡ n')) ⊎ Listed s n live

-- The allocations without the one that starts at `s`.
abbrev pub release : ℕ → Allocs → Allocs
release s [] = []
release s ((s', n') ∷ live) = if s == s' then live else (s', n') ∷ release s live

pub Listed-covers :
    (s n k : ℕ) (live : Allocs) → Listed s n live → in_run s n k ≡ true → covers live k ≡ true
Listed-covers s n k [] l h = absurd l
Listed-covers s n k ((s', n') ∷ live) (inl e) h = ground arith
Listed-covers s n k ((s', n') ∷ live) (inr l) h = ground (arith, Listed-covers s n k live l h)

pub Listed-Stored :
    (m : Memory) (base s n : ℕ) (live : Allocs)
    → Listed s n live
    → Stored m base live
    → m (base + s * heap_block_size) ≡ n
Listed-Stored m base s n [] l st = absurd l
Listed-Stored m base s n ((s', n') ∷ live) (inl e) st = rw (e.0, e.1) st.0
Listed-Stored m base s n ((s', n') ∷ live) (inr l) st = Listed-Stored m base s n live l st.1

pub Listed-bounds :
    (s n : ℕ) (live : Allocs)
    → Listed s n live
    → Disjoint live
    → (0 < n) × (s + n ≤ heap_blocks_max)
Listed-bounds s n [] l d = absurd l
Listed-bounds s n ((s', n') ∷ live) (inl e) d = omega (arith, e.0, e.1, d.0, d.1)
Listed-bounds s n ((s', n') ∷ live) (inr l) d = Listed-bounds s n live l d.3

-- A write to a word that is no allocation's first leaves the counts alone.
pub Stored-store :
    (m : Memory) (base a v : ℕ) (live : Allocs)
    → ((s n : ℕ) → Listed s n live → a ≢ base + s * heap_block_size)
    → Stored m base live
    → Stored (store m a v) base live
Stored-store m base a v [] other st = tt
Stored-store m base a v ((s, n) ∷ live) other st = (
  ground (arith, st.0, other s n (inl (refl, refl))),
  Stored-store m base a v live (λ s' n' l. other s' n' (inr l)) st.1,
)

-- The counts stay where memory changes only elsewhere.
pub Stored-kept :
    (m m' : Memory) (base : ℕ) (live : Allocs)
    → ((s n : ℕ)
        → Listed s n live
        → m' (base + s * heap_block_size) ≡ m (base + s * heap_block_size))
    → Stored m base live
    → Stored m' base live
Stored-kept m m' base [] same st = tt
Stored-kept m m' base ((s, n) ∷ live) same st = (
  same s n (inl (refl, refl)) ∙ st.0,
  Stored-kept m m' base live (λ t k l. same t k (inr l)) st.1,
)

-- The first block of an allocation is used.
pub Listed-start :
    (s n : ℕ) (live : Allocs) → Listed s n live → Disjoint live → covers live s ≡ true
Listed-start s n live l d = Listed-covers s n s live l (ground (arith, Listed-bounds s n live l d))

pub covers-release :
    (s n k : ℕ) (live : Allocs)
    → Listed s n live
    → Disjoint live
    → covers (release s live) k ≡ (if in_run s n k then false else covers live k)
covers-release s n k [] l d = absurd l
covers-release s n k ((s', n') ∷ live) (inl e) d = ground (arith, e.0, e.1, d.2 k)
covers-release s n k ((s', n') ∷ live) (inr l) d = ground (
  arith,
  d.0,
  d.2 s,
  d.2 k,
  Listed-start s n live l d.3,
  Listed-covers s n k live l,
  covers-release s n k live l d.3,
)

pub release_head : (s s' n' : ℕ) (live : Allocs) → s ≡ s' → release s ((s', n') ∷ live) ≡ live
release_head s s' n' live e = ground arith

release_tail :
    (s s' n' : ℕ) (live : Allocs) → s ≢ s' → release s ((s', n') ∷ live) ≡ (s', n') ∷ release s live
release_tail s s' n' live e = ground arith

Listed-ne : (s n s' n' : ℕ) (live : Allocs) → Listed s n live → Disjoint ((s', n') ∷ live) → s ≢ s'
Listed-ne s n s' n' live l d e = ground (arith, d.0, d.2 s, Listed-start s n live l d.3)

pub release-Disjoint :
    (s n : ℕ) (live : Allocs) → Listed s n live → Disjoint live → Disjoint (release s live)
release-Disjoint s n [] l d = absurd l
release-Disjoint s n ((s', n') ∷ live) (inl e) d =
    subst Disjoint (sym (release_head s s' n' live e.0)) d.3
release-Disjoint s n ((s', n') ∷ live) (inr l) d =
    subst Disjoint (sym (release_tail s s' n' live (Listed-ne s n s' n' live l d))) (
      d.0,
      d.1,
      λ k h. ground (arith, d.2 k h, covers-release s n k live l d.3),
      release-Disjoint s n live l d.3,
    )

pub release-Stored :
    (m : Memory) (base s : ℕ) (live : Allocs) → Stored m base live → Stored m base (release s live)
release-Stored m base s [] st = tt
release-Stored m base s ((s', n') ∷ live) st = elim (ℕ_discrete s s') [
  | yes e ↦ subst (Stored m base) (sym (release_head s s' n' live e)) st.1
  | no ne ↦
      subst (Stored m base) (sym (release_tail s s' n' live ne))
        (st.0, release-Stored m base s live st.1)
]
