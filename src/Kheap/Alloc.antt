-- ===== src/Kheap/Alloc.antt =====
-- `kmalloc` on a heap in order.
use olympos.Prelude.{
  ℕ, ◌+◌, ◌-◌, ◌*◌, ◌≤◌, ◌<◌, true, Option, none, some, ◌∷◌, ◌≡◌, ◌≢◌, ◌⊎◌, inl, inr, refl, sym,
  ◌∙◌, arith, u32, store, Option-cases,
}
use olympos.Kheap.{
  out_of_memory, heap_block_size, heap_blocks_max, Kheap, say, blocks_needed, find_free_blocks,
  mark_block_used, mark_blocks, take_blocks, kmalloc,
}
use olympos.Kheap.Blocks.{HasRun, mark_block_used-Marks, mark_blocks-HasRun}
use olympos.Kheap.Find.{IsFreeRun, FirstFit, find_free_blocks-FirstFit}
use olympos.Kheap.Count.{count_used, count_used-le, count_used-run}
use olympos.Kheap.Allocs.{Allocs, Disjoint, Listed, Listed-start, Stored-store}
use olympos.Kheap.Inv.{Holds}

-- The largest request that the heap can serve.
abbrev pub largest : ℕ
largest = heap_blocks_max * heap_block_size - 4

-- The address that the user gets for an allocation that starts at block `s`.
abbrev pub user_address : Kheap → ℕ → ℕ
user_address h s = h.heap_start + s * heap_block_size + 4

-- `blocks_needed` is the least number of blocks that holds the request and the count before it.
pub blocks_needed_bounds :
    (size : ℕ)
    → 0 < size
    → size ≤ largest
    → (0 < blocks_needed size)
      × (blocks_needed size ≤ heap_blocks_max)
      × (size + 4 ≤ blocks_needed size * heap_block_size)
      × (blocks_needed size * heap_block_size < size + 4 + heap_block_size)
unfolding blocks_needed
blocks_needed_bounds size pos small = omega arith

-- The request got the blocks from `start` on: the first run of free blocks that is long enough.
pub record Allocated (live : Allocs) (h : Kheap) (size : ℕ) (result : Option (ℕ × Kheap))
    : Type 0 where
  pub start : ℕ
  pub after : Kheap
  pub returns : result ≡ some (user_address h start, after)
  pub same_base : after.heap_start ≡ h.heap_start
  pub run : IsFreeRun h.heap_bitmap (blocks_needed size) start
  pub first : (i : ℕ) → IsFreeRun h.heap_bitmap (blocks_needed size) i → start ≤ i
  pub holds : Holds ((start, blocks_needed size) ∷ live) after

-- There was no room: NULL, a message, and no other change.
abbrev pub Refused : Kheap → ℕ → Option (ℕ × Kheap) → Type 0
Refused h size result =
    ((i : ℕ) → ¬ IsFreeRun h.heap_bitmap (blocks_needed size) i)
    × (result ≡ some (0, say h (out_of_memory (blocks_needed size) size)))

module _ (size : ℕ) (h : Kheap) (pos : 0 < size)
    (small : blocks_needed size ≤ heap_blocks_max) where
  kmalloc_no_run :
      find_free_blocks h.heap_bitmap (blocks_needed size) ≡ none
      → kmalloc size h ≡ some (0, say h (out_of_memory (blocks_needed size) size))
  unfolding kmalloc
  kmalloc_no_run e = ground arith

  kmalloc_run :
      (start : ℕ)
      → find_free_blocks h.heap_bitmap (blocks_needed size) ≡ some start
      → kmalloc size h ≡ take_blocks h start (blocks_needed size)
  unfolding kmalloc
  kmalloc_run start e = ground arith

module _ (live : Allocs) (h : Kheap) (v : Holds live h) (start n : ℕ) where
  module _ (pos : 0 < n) (run : IsFreeRun h.heap_bitmap n start) where
    -- The new allocation shares no block with a live one.
    fresh-Disjoint : Disjoint ((start, n) ∷ live)
    fresh-Disjoint = (
      pos,
      run.fits,
      λ k e. sym (v.used k) ∙ run.free k (ground arith) (ground arith),
      v.disjoint,
    )

    fresh-ne : (s m : ℕ) → Listed s m live → start ≢ s
    fresh-ne s m l e =
        ground (arith, e, v.used s, run.free s (omega arith), Listed-start s m live l v.disjoint)

    -- The bitmap after the marking loop.
    marked : HasRun true h.heap_bitmap start n (mark_blocks mark_block_used h.heap_bitmap start n)
    marked =
        mark_blocks-HasRun true mark_block_used mark_block_used-Marks n h.heap_bitmap start v.size
          run.fits

    block_address : ℕ
    block_address = u32 (h.heap_start + u32 (start * heap_block_size))

    block_address_lem : block_address ≡ h.heap_start + start * heap_block_size
    unfolding block_address
    block_address_lem = omega (arith, run.fits, v.room, pos)

    taken : Kheap
    unfolding block_address
    taken = record h {
      heap_bitmap = marked.after;
      blocks_used = u32 (h.blocks_used + n);
      memory = store h.memory block_address n;
    }

    count_after : count_used marked.after ≡ count_used h.heap_bitmap + n
    count_after = count_used-run h.heap_bitmap marked.after start n run.fits run.free marked.blocks

    taken-Holds : Holds ((start, n) ∷ live) taken
    unfolding taken
    taken-Holds = record {
      size = marked.size;
      nonnull = v.nonnull;
      room = v.room;
      used = λ k. ground (arith, marked.blocks k, v.used k);
      counted = omega (arith, count_after, count_used-le marked.after, v.counted);
      disjoint = fresh-Disjoint;
      stored = (
        ground (arith, block_address_lem),
        Stored-store h.memory h.heap_start block_address n live
            (λ s m l. λ e. fresh-ne s m l (omega (arith, e, block_address_lem))) v.stored,
      );
    }

    take_blocks-taken : take_blocks h start n ≡ some (user_address h start, taken)
    unfolding take_blocks taken
    take_blocks-taken = ground (arith, marked.returns, block_address_lem, run.fits, v.room)

-- A request that fits the heap gets the first free run of the blocks that it needs, and the heap
-- holds it beside the live allocations; or no run is free, and `kmalloc` returns NULL and changes
-- nothing but the output. It never writes outside the bitmap.
pub kmalloc_lem :
    (live : Allocs) (h : Kheap) (size : ℕ)
    → Holds live h
    → 0 < size
    → size ≤ largest
    → Allocated live h size (kmalloc size h) ⊎ Refused h size (kmalloc size h)
kmalloc_lem live h size v pos small =
    let b = blocks_needed_bounds size pos small in
    let fit = find_free_blocks-FirstFit h.heap_bitmap (blocks_needed size) b.0 b.1 in
    elim (Option-cases (find_free_blocks h.heap_bitmap (blocks_needed size))) [
      | inl e ↦ inr (rw e at fit, kmalloc_no_run size h pos b.1 e)
      | inr (start, e) ↦
          let at : FirstFit h.heap_bitmap (blocks_needed size) (some start) = rw e at fit in
          inl (record {
            start = start;
            after = taken live h v start (blocks_needed size) b.0 at.0;
            returns =
                kmalloc_run size h pos b.1 start e
                ∙ take_blocks-taken live h v start (blocks_needed size) b.0 at.0;
            same_base = unfold taken in refl;
            run = at.0;
            first = at.1;
            holds = taken-Holds live h v start (blocks_needed size) b.0 at.0;
          })
    ]
