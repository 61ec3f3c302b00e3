-- ===== src/Kheap/Free.antt =====
-- `kfree` of a live allocation.
use olympos.Prelude.{
  ℕ, ◌+◌, ◌-◌, ◌*◌, ◌^◌, ◌≤◌, ◌<◌, true, false, Option, some, ◌≡◌, refl, ap, ◌∙◌, arith, u32,
}
use olympos.Kheap.{
  heap_block_size, heap_blocks_max, Kheap, is_block_used, mark_block_free, mark_blocks, kfree,
}
use olympos.Kheap.Blocks.{in_run, HasRun, mark_block_free-Marks, mark_blocks-HasRun}
use olympos.Kheap.Count.{count_used, count_used-le, count_used-run}
use olympos.Kheap.Allocs.{
  Allocs, covers, Listed, release, Listed-covers, Listed-Stored, Listed-bounds, covers-release,
  release-Disjoint, release-Stored,
}
use olympos.Kheap.Inv.{Holds}
use olympos.Kheap.Alloc.{user_address}

-- The heap is in order without the allocation that starts at `s`, and starts where it did.
pub record Freed (live : Allocs) (h : Kheap) (s : ℕ) (result : Option Kheap) : Type 0 where
  pub after : Kheap
  pub returns : result ≡ some after
  pub same_base : after.heap_start ≡ h.heap_start
  pub holds : Holds (release s live) after

module _ (live : Allocs) (h : Kheap) (v : Holds live h) (s n : ℕ) (l : Listed s n live) where
  bounds : (0 < n) × (s + n ≤ heap_blocks_max)
  bounds = Listed-bounds s n live l v.disjoint

  cleared : HasRun false h.heap_bitmap s n (mark_blocks mark_block_free h.heap_bitmap s n)
  cleared =
      mark_blocks-HasRun false mark_block_free mark_block_free-Marks n h.heap_bitmap s v.size
        bounds.1

  freed : Kheap
  freed = record h { heap_bitmap = cleared.after; blocks_used = u32 (h.blocks_used + 2 ^ 32 - n) }

  was_used : (k : ℕ) → in_run s n k ≡ true → is_block_used h.heap_bitmap k ≡ true
  was_used k e = v.used k ∙ Listed-covers s n k live l e

  count_after : count_used h.heap_bitmap ≡ count_used cleared.after + n
  count_after =
      count_used-run cleared.after h.heap_bitmap s n bounds.1
        (λ k p q. ground (arith, cleared.blocks k))
        (λ k. ground (arith, cleared.blocks k, was_used k))

  after_covers : (k : ℕ) → is_block_used cleared.after k ≡ covers (release s live) k
  after_covers k =
      ground (arith, cleared.blocks k, v.used k, covers-release s n k live l v.disjoint)

  freed-Holds : Holds (release s live) freed
  unfolding freed
  freed-Holds = record {
    size = cleared.size;
    nonnull = v.nonnull;
    room = v.room;
    used = after_covers;
    counted = omega (arith, count_after, v.counted, count_used-le h.heap_bitmap);
    disjoint = release-Disjoint s n live l v.disjoint;
    stored = release-Stored h.memory h.heap_start s live v.stored;
  }

  block_addr_lem : u32 (user_address h s + 2 ^ 32 - 4) ≡ h.heap_start + s * heap_block_size
  block_addr_lem = omega (arith, v.room, bounds)

  metadata : h.memory (u32 (user_address h s + 2 ^ 32 - 4)) ≡ n
  metadata = ap h.memory block_addr_lem ∙ Listed-Stored h.memory h.heap_start s n live l v.stored

  kfree-freed : kfree (user_address h s) h ≡ some freed
  unfolding kfree freed
  kfree-freed = ground (arith, block_addr_lem, metadata, cleared.returns, bounds)

  -- `kfree` of the pointer that `kmalloc` gave for a live allocation stays inside the bitmap, frees
  -- just the blocks of that allocation, and leaves a heap in order that holds the others.
  pub kfree_lem : Freed live h s (kfree (user_address h s) h)
  kfree_lem = record {
    after = freed;
    returns = kfree-freed;
    same_base = unfold freed in refl;
    holds = freed-Holds;
  }
