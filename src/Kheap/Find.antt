-- ===== src/Kheap/Find.antt =====
-- `find_free_blocks` against its meaning: the first run of free blocks that fits.
use olympos.Prelude.{
  ℕ, zero, suc, ◌+◌, ◌≤◌, ◌<◌, true, false, Option, none, some, List, ltb, ◌≡◌, sym, ◌∙◌, subst,
  inl, inr, arith, Bool-cases, Option-cases, u32,
}
use native.Mathlib.Decide.{ℕ_discrete, dec_lt}
use mathlib.Core.Bool.{false≢true}
use olympos.Kheap.{heap_blocks_max, is_block_used, used_offset, find_from, find_free_blocks}

-- `count` free blocks from block `i` on, inside the heap.
pub record IsFreeRun (bm : List ℕ) (count i : ℕ) : Type 0 where
  pub fits : i + count ≤ heap_blocks_max
  pub free : (k : ℕ) → i ≤ k → k < i + count → is_block_used bm k ≡ false

-- The first free run, or none because there is none.
abbrev pub FirstFit : List ℕ → ℕ → Option ℕ → Type 0
FirstFit bm count none = (i : ℕ) → ¬ IsFreeRun bm count i
FirstFit bm count (some i) = IsFreeRun bm count i × ((i' : ℕ) → IsFreeRun bm count i' → i ≤ i')

-- What the inner loop finds: the first used block at an offset from `j` up to `j + left`, within
-- the heap.
abbrev Offset : List ℕ → ℕ → ℕ → ℕ → Option ℕ → Type 0
Offset bm i left j none =
    (k : ℕ) → i + j ≤ k → k < i + j + left → k < heap_blocks_max → is_block_used bm k ≡ false
Offset bm i left j (some o) =
    (j ≤ o) × (o < j + left) × (i + o < heap_blocks_max) × (is_block_used bm (i + o) ≡ true)

widen :
    (bm : List ℕ) (i left j : ℕ) (o : Option ℕ)
    → is_block_used bm (i + j) ≡ false
    → Offset bm i left (j + 1) o
    → Offset bm i (suc left) j o
widen bm i left j none free rest = λ k p q s. elim (ℕ_discrete k (i + j)) [
  | yes e ↦ rw e free
  | no ne ↦ rest k (omega arith) (omega arith) s
]
widen bm i left j (some o) free rest = (omega arith, omega arith, rest.2, rest.3)

used_offset-Offset :
    (bm : List ℕ) (i left j : ℕ)
    → i < heap_blocks_max
    → j + left ≤ heap_blocks_max
    → Offset bm i left j (used_offset bm i left j)
unfolding used_offset
used_offset-Offset bm i zero j h l = λ k p q r. absurd (omega arith)
used_offset-Offset bm i (suc left) j h l = elim (Bool-cases (ltb (u32 (i + j)) heap_blocks_max)) [
  | inl inside ↦ elim (Bool-cases (is_block_used bm (i + j))) [
    | inl used ↦ rw (inside, used) (omega arith, omega arith, ground arith, used)
    | inr free ↦
        rw (inside, free)
          (widen bm i left j _ free (used_offset-Offset bm i left (j + 1) h (omega arith)))
  ]
  | inr outside ↦ rw outside (λ k p q r. absurd (ground arith))
]

-- No free run starts at a block below `n`.
abbrev NoneBelow : List ℕ → ℕ → ℕ → Type 0
NoneBelow bm count n = (i' : ℕ) → i' < n → ¬ IsFreeRun bm count i'

-- The skip: a used block at offset `o` of block `i` rules out every start up to it.
skip :
    (bm : List ℕ) (count i o : ℕ)
    → o < count
    → is_block_used bm (i + o) ≡ true
    → NoneBelow bm count i
    → NoneBelow bm count (i + o + 1)
skip bm count i o l used below i' h run = elim (dec_lt i' i) [
  | yes p ↦ below i' p run
  | no p ↦ false≢true (sym (run.free (i + o) (omega arith) (omega arith)) ∙ used)
]

too_long :
    (bm : List ℕ) (count i : ℕ)
    → heap_blocks_max < i + count
    → NoneBelow bm count i
    → NoneBelow bm count (i + 1)
too_long bm count i long below i' h run = elim (dec_lt i' i) [
  | yes p ↦ below i' p run
  | no p ↦ omega (arith, run.fits)
]

leftmost :
    (bm : List ℕ) (count i : ℕ) → NoneBelow bm count i → (i' : ℕ) → IsFreeRun bm count i' → i ≤ i'
leftmost bm count i below i' run = elim (dec_lt i' i) [
  | yes p ↦ absurd (below i' p run)
  | no p ↦ omega arith
]

module _ (bm : List ℕ) (count fuel i : ℕ) where
  past_end : heap_blocks_max ≤ i → find_from bm count (suc fuel) i ≡ none
  unfolding find_from
  past_end h = ground arith

  after_used :
      (o : ℕ)
      → i < heap_blocks_max
      → used_offset bm i count 0 ≡ some o
      → find_from bm count (suc fuel) i ≡ find_from bm count fuel (i + o + 1)
  unfolding find_from
  after_used o h e = ground arith

  after_long :
      i < heap_blocks_max
      → count ≤ heap_blocks_max
      → heap_blocks_max < i + count
      → used_offset bm i count 0 ≡ none
      → find_from bm count (suc fuel) i ≡ find_from bm count fuel (i + 1)
  unfolding find_from
  after_long h small long e = ground arith

  after_fits :
      i < heap_blocks_max
      → i + count ≤ heap_blocks_max
      → used_offset bm i count 0 ≡ none
      → find_from bm count (suc fuel) i ≡ some i
  unfolding find_from
  after_fits h fits e = ground arith

  -- The test at the end of a round decides whether block `i` starts a free run.
  free_here :
      used_offset bm i count 0 ≡ none
      → Offset bm i count 0 (used_offset bm i count 0)
      → i + count ≤ heap_blocks_max
      → IsFreeRun bm count i
  free_here e o fits =
      let o' : Offset bm i count 0 none = rw e at o in
      record { fits = fits; free = λ k p q. o' k (omega arith) (omega arith) (omega arith) }

find_from-FirstFit :
    (bm : List ℕ) (count fuel i : ℕ)
    → 0 < count
    → count ≤ heap_blocks_max
    → heap_blocks_max ≤ i + fuel
    → NoneBelow bm count i
    → FirstFit bm count (find_from bm count fuel i)
find_from-FirstFit bm count zero i pos small enough below =
    unfold find_from in λ i' run. below i' (omega (arith, run.fits)) run
find_from-FirstFit bm count (suc fuel) i pos small enough below = elim (dec_lt i heap_blocks_max) [
  | no outside ↦
      rw (past_end bm count fuel i (omega arith))
        (λ i' run. below i' (omega (arith, run.fits, pos)) run)
  | yes inside ↦ elim (Option-cases (used_offset bm i count 0)) [
    | inr (o, e) ↦
        let at : Offset bm i count 0 (some o) =
          rw e at (used_offset-Offset bm i count 0 inside (omega arith)) in
        subst (FirstFit bm count) (sym (after_used bm count fuel i o inside e)) (
          find_from-FirstFit bm count fuel (i + o + 1) pos small (omega arith)
            (skip bm count i o (omega (arith, at.1)) at.3 below))
    | inl e ↦ elim (dec_lt heap_blocks_max (i + count)) [
      | yes long ↦
          subst (FirstFit bm count) (sym (after_long bm count fuel i inside small long e)) (
            find_from-FirstFit bm count fuel (i + 1) pos small (omega arith)
              (too_long bm count i long below))
      | no fits ↦
          subst (FirstFit bm count) (sym (after_fits bm count fuel i inside (omega arith) e)) (
            free_here bm count fuel i e (used_offset-Offset bm i count 0 inside (omega arith))
                (omega arith),
            leftmost bm count i below,
          )
    ]
  ]
]

-- For a count from 1 to 2048 `find_free_blocks` returns the lowest start of a run of `count` free blocks inside the heap, and
-- fails only if there is no such run: the skip-ahead loses nothing.
pub find_free_blocks-FirstFit :
    (bm : List ℕ) (count : ℕ)
    → 0 < count
    → count ≤ heap_blocks_max
    → FirstFit bm count (find_free_blocks bm count)
unfolding find_free_blocks
find_free_blocks-FirstFit bm count pos small =
    find_from-FirstFit bm count heap_blocks_max 0 pos small (omega arith)
      (λ i' h. absurd (omega arith))
