-- ===== src/Kheap/Limits.antt =====
-- Requests and pointers that the heap refuses, and those that it should refuse.
use olympos.Prelude.{
  ℕ, zero, suc, ◌+◌, ◌-◌, ◌*◌, ◌/◌, ◌^◌, ◌≤◌, ◌<◌, none, some, List, length, ◌≡◌, ◌≢◌, ◌⊎◌, refl,
  ap, arith, u32, store,
}
use native.Mathlib.Decide.{dec_lt}
use olympos.Kheap.{
  Message, too_large, before_heap, beyond_heap, corrupted_count, heap_block_size, heap_blocks_max,
  bitmap_size, Kheap, say, blocks_needed, used_offset, find_from, find_free_blocks, mark_block_free,
  write_bitmap, mark_blocks, take_blocks, kmalloc, kfree,
}
use olympos.Kheap.Blocks.{mark_block_free-Marks}
use olympos.Kheap.Alloc.{largest}

-- A request larger than the heap, short of the sizes whose sum with the rounding wraps at 2^32,
-- gets NULL, and only a message is added.
pub kmalloc_too_large :
    (size : ℕ) (h : Kheap)
    → largest < size
    → size + 4099 < 2 ^ 32
    → kmalloc size h ≡ some (0, say h (too_large size (blocks_needed size)))
unfolding kmalloc blocks_needed
kmalloc_too_large size h p q = ground arith

find_nothing : (bm : List ℕ) → find_free_blocks bm 0 ≡ some 0
unfolding find_free_blocks find_from used_offset
find_nothing bm = refl

wrapped_blocks : (size : ℕ) → 2 ^ 32 ≤ size + 4099 → size + 4 < 2 ^ 32 → blocks_needed size ≡ 0
unfolding blocks_needed
wrapped_blocks size low high = omega arith

-- A request of 2^32 - 4099 up to 2^32 - 5 bytes is not refused: the rounding wraps to no blocks at
-- all. `kmalloc` returns the first address of the heap, reserves nothing there, and overwrites the
-- block count of whatever allocation holds block 0 with 0.
pub kmalloc_wraps :
    (size : ℕ) (h : Kheap)
    → 2 ^ 32 ≤ size + 4099
    → size + 4 < 2 ^ 32
    → h.heap_start + 4 < 2 ^ 32
    → h.blocks_used < 2 ^ 32
    → kmalloc size h ≡ some (h.heap_start + 4, record h { memory = store h.memory h.heap_start 0 })
unfolding kmalloc take_blocks mark_blocks
kmalloc_wraps size h low high base used = ground (
  arith,
  no_blocks,
  find_nothing h.heap_bitmap,
  ap (λ (k : ℕ). find_free_blocks h.heap_bitmap k) no_blocks,
)
  where
    no_blocks : blocks_needed size ≡ 0
    no_blocks = wrapped_blocks size low high

-- Where `kfree` looks for the block count of a pointer.
abbrev pub count_address : ℕ → ℕ
count_address ptr = u32 (ptr + 2 ^ 32 - 4)

-- The pointer lies before the heap, or beyond it, or has an impossible count before it.
abbrev pub IsBad : ℕ → Kheap → Type 0
IsBad ptr h =
    (count_address ptr < h.heap_start)
    ⊎ ((h.heap_start + heap_blocks_max * heap_block_size ≤ count_address ptr)
        ⊎ ((h.memory (count_address ptr) ≡ 0) ⊎ (heap_blocks_max < h.memory (count_address ptr))))

-- `kfree` of a bad pointer changes nothing but the output, to which it adds one message.
pub kfree_refuses :
    (ptr : ℕ) (h : Kheap) → ptr ≢ 0 → IsBad ptr h → (m : Message) × (kfree ptr h ≡ some (say h m))
kfree_refuses ptr h nz bad = elim (dec_lt (count_address ptr) h.heap_start) [
  | yes p ↦ (before_heap ptr, unfold kfree in ground arith)
  | no p ↦ elim (dec_lt (count_address ptr) (h.heap_start + heap_blocks_max * heap_block_size)) [
    | no q ↦ (beyond_heap ptr, unfold kfree in ground arith)
    | yes q ↦ (corrupted_count (h.memory (count_address ptr)) ptr, unfold kfree in ground arith)
  ]
]

outside :
    (bm : List ℕ) (i : ℕ)
    → length bm ≡ bitmap_size
    → heap_blocks_max ≤ i
    → mark_block_free bm i ≡ none
unfolding mark_block_free write_bitmap
outside bm i size h = ground arith

overrun :
    (n : ℕ) (bm : List ℕ) (start : ℕ)
    → length bm ≡ bitmap_size
    → start ≤ heap_blocks_max
    → heap_blocks_max < start + n
    → mark_blocks mark_block_free bm start n ≡ none
unfolding mark_blocks
overrun zero bm start size low high = absurd (omega arith)
overrun (suc n) bm start size low high = elim (dec_lt start heap_blocks_max) [
  | yes p ↦
      let one = mark_block_free-Marks bm start size p in
      rw (one.returns, mark_blocks)
        (overrun n one.after (start + 1) one.size (omega arith) (omega arith))
  | no p ↦ rw (outside bm start size (omega arith), mark_blocks)
]

-- `kfree` trusts the count before the pointer: a count up to 2048 that reaches past the last block
-- makes the loop write outside `heap_bitmap`.
pub kfree_overruns :
    (ptr : ℕ) (h : Kheap)
    → length h.heap_bitmap ≡ bitmap_size
    → ptr ≢ 0
    → h.heap_start ≤ count_address ptr
    → count_address ptr < h.heap_start + heap_blocks_max * heap_block_size
    → h.memory (count_address ptr) ≤ heap_blocks_max
    → heap_blocks_max
      < (count_address ptr - h.heap_start) / heap_block_size + h.memory (count_address ptr)
    → kfree ptr h ≡ none
unfolding kfree
kfree_overruns ptr h size nz low high small past = ground (
  arith,
  overrun (h.memory (count_address ptr)) h.heap_bitmap
      ((count_address ptr - h.heap_start) / heap_block_size) size,
)
