-- ===== src/Kheap/Inv.antt =====
-- What a heap in order is, and that `kheap_init` makes an empty one.
use olympos.Prelude.{
  ℕ, ◌+◌, ◌-◌, ◌*◌, ◌/◌, ◌^◌, ◌≤◌, ◌<◌, bit_and, false, List, [], length, replicate, ◌≡◌, refl, ap,
  sym, ◌∙◌, arith, u32, not32, length-replicate,
}
use olympos.Bitmap.{test-replicate}
use olympos.Bits.Fields.{bit_and_high}
use olympos.Kheap.{
  Message, heap_block_size, heap_blocks_max, bitmap_size, Kheap, is_block_used, kheap_init, say,
}
use olympos.Kheap.Count.{count_used, count_used-zero}
use olympos.Kheap.Allocs.{Allocs, covers, Disjoint, Stored}

-- `h` holds the allocations of `live`: the bitmap marks just their blocks, `blocks_used` counts
-- them, each starts with its number of blocks, and all addresses of the heap are 32-bit numbers.
pub record Holds (live : Allocs) (h : Kheap) : Type 0 where
  pub size : length h.heap_bitmap ≡ bitmap_size
  pub nonnull : 0 < h.heap_start
  pub room : h.heap_start + heap_blocks_max * heap_block_size ≤ 2 ^ 32
  pub used : (k : ℕ) → is_block_used h.heap_bitmap k ≡ covers live k
  pub counted : h.blocks_used ≡ count_used h.heap_bitmap
  pub disjoint : Disjoint live
  pub stored : Stored h.memory h.heap_start live

-- Printing changes nothing of that.
pub say-Holds : {live : Allocs} {h : Kheap} → Holds live h → (m : Message) → Holds live (say h m)
say-Holds v m = record {
  size = v.size;
  nonnull = v.nonnull;
  room = v.room;
  used = v.used;
  counted = v.counted;
  disjoint = v.disjoint;
  stored = v.stored;
}

-- The first block address at or above `e`.
abbrev pub page_up : ℕ → ℕ
page_up e = (e + heap_block_size - 1) / heap_block_size * heap_block_size

empty_block : (n k : ℕ) → is_block_used (replicate n 0) k ≡ false
unfolding is_block_used
empty_block n k = test-replicate 8 n k

aligned :
    (e : ℕ)
    → page_up e + heap_blocks_max * heap_block_size ≤ 2 ^ 32
    → bit_and (u32 (e + heap_block_size - 1)) (not32 (heap_block_size - 1)) ≡ page_up e
aligned e room =
    bit_and_high 12 32 (u32 (e + heap_block_size - 1)) (omega arith) (omega arith) ∙ omega arith

-- A fresh bitmap and a start address make an empty heap.
empty-Holds :
    (n : ℕ) (h : Kheap)
    → n ≡ bitmap_size
    → h.heap_bitmap ≡ replicate n 0
    → h.blocks_used ≡ 0
    → 0 < h.heap_start
    → h.heap_start + heap_blocks_max * heap_block_size ≤ 2 ^ 32
    → Holds [] h
empty-Holds n h e fresh none_used pos room =
    let empty = λ (k : ℕ). ap (λ (bm : List ℕ). is_block_used bm k) fresh ∙ empty_block n k in
    record {
      size = ap length fresh ∙ length-replicate n 0 ∙ e;
      nonnull = pos;
      room = room;
      used = empty;
      counted = none_used ∙ sym (count_used-zero h.heap_bitmap empty);
      disjoint = tt;
      stored = tt;
    }

-- After `kheap_init` the heap is in order and empty, and starts at the first block boundary at or
-- above the kernel's end, where the whole heap from there on lies below 4 GiB.
pub kheap_init-Holds :
    (elf_sections_end : ℕ) (h : Kheap)
    → 0 < elf_sections_end
    → page_up elf_sections_end + heap_blocks_max * heap_block_size ≤ 2 ^ 32
    → Holds [] (kheap_init elf_sections_end h)
      × ((kheap_init elf_sections_end h).heap_start ≡ page_up elf_sections_end)
unfolding kheap_init
kheap_init-Holds elf_sections_end h pos room =
    let e = aligned elf_sections_end room in
    (
      empty-Holds bitmap_size (kheap_init elf_sections_end h) refl refl refl (omega (arith, e))
          (omega (arith, e)),
      e,
    )
