-- ===== src/Kheap.antt =====
-- kernel/arch/i386/kheap.c: the bitmap heap of 2048 blocks of 4096 bytes.
-- A function that writes the bitmap returns `none` where the C code would write outside
-- `heap_bitmap`. A pointer is its address, 0 being NULL.
pub mod Blocks
pub mod Find
pub mod Count
pub mod Allocs
pub mod Inv
pub mod Alloc
pub mod Free
pub mod Limits
pub mod Client
use olympos.Prelude.{
  ℕ, zero, suc, ◌+◌, ◌-◌, ◌*◌, ◌/◌, ◌%◌, ◌^◌, bit_and, bit_or, Bool, true, false, not, ◌||◌, Option,
  none, some, List, [], ◌∷◌, ◌++◌, length, get_or, set, replicate, ltb, leb, ◌==◌, if◌then◌else◌,
  u8, u32, not32, Memory, store,
}

abbrev pub heap_block_size : ℕ
heap_block_size = 4096

abbrev pub heap_blocks_max : ℕ
heap_blocks_max = 2048

abbrev pub bitmap_size : ℕ
bitmap_size = heap_blocks_max / 8

-- The lines that the allocator prints.
pub data Message : Type 0 where
  heap_initialized : ℕ → Message
  too_large : ℕ → ℕ → Message
  out_of_memory : ℕ → ℕ → Message
  before_heap : ℕ → Message
  beyond_heap : ℕ → Message
  corrupted_count : ℕ → ℕ → Message

-- The file's static variables, the 32-bit words of memory, and what has been printed.
pub record Kheap : Type 0 where
  pub kheap_curr : ℕ
  pub heap_bitmap : List ℕ
  pub heap_start : ℕ
  pub blocks_used : ℕ
  pub memory : Memory
  pub printed : List Message

abbrev pub say : Kheap → Message → Kheap
say h m = record h { printed = h.printed ++ m ∷ [] }

pub is_block_used : List ℕ → ℕ → Bool
is_block_used heap_bitmap block_idx =
    let byte_idx = block_idx / 8 in
    let bit_idx = block_idx % 8 in not (bit_and (get_or heap_bitmap byte_idx 0) (2 ^ bit_idx) == 0)

-- A write of one byte of the bitmap.
pub write_bitmap : List ℕ → ℕ → ℕ → Option (List ℕ)
write_bitmap heap_bitmap i v =
    if ltb i (length heap_bitmap) then some (set heap_bitmap i (u8 v)) else none

pub mark_block_used : List ℕ → ℕ → Option (List ℕ)
mark_block_used heap_bitmap block_idx =
    let byte_idx = block_idx / 8 in
    let bit_idx = block_idx % 8 in
    write_bitmap heap_bitmap byte_idx (bit_or (get_or heap_bitmap byte_idx 0) (2 ^ bit_idx))

pub mark_block_free : List ℕ → ℕ → Option (List ℕ)
mark_block_free heap_bitmap block_idx =
    let byte_idx = block_idx / 8 in
    let bit_idx = block_idx % 8 in
    write_bitmap heap_bitmap byte_idx
      (bit_and (get_or heap_bitmap byte_idx 0) (not32 (2 ^ bit_idx)))

-- The inner loop of `find_free_blocks` from offset `j` on, `left` rounds before `j < count` fails:
-- the offset of the first used block, if there is one.
pub used_offset : List ℕ → ℕ → ℕ → ℕ → Option ℕ
used_offset heap_bitmap i zero j = none
used_offset heap_bitmap i (suc left) j =
    let rest = used_offset heap_bitmap i left (j + 1) in
    if ltb (u32 (i + j)) heap_blocks_max
    then (if is_block_used heap_bitmap (i + j) then some j else rest)
    else none

-- The outer loop. `i` grows in every round, so `heap_blocks_max - i` rounds end it by its test.
pub find_from : List ℕ → ℕ → ℕ → ℕ → Option ℕ
find_from heap_bitmap count zero i = none
find_from heap_bitmap count (suc fuel) i = elim (ltb i heap_blocks_max) [
  | false ↦ none
  | true ↦ elim (used_offset heap_bitmap i count 0) [
    | some j ↦ find_from heap_bitmap count fuel (i + j + 1)
    | none ↦ elim (leb (u32 (i + count)) heap_blocks_max) [
      | true ↦ some i
      | false ↦ find_from heap_bitmap count fuel (i + 1)
    ]
  ]
]

-- `none` is the -1 of the source.
pub find_free_blocks : List ℕ → ℕ → Option ℕ
find_free_blocks heap_bitmap count = find_from heap_bitmap count heap_blocks_max 0

-- `elf_sections_end` is the global that debug.c sets.
pub kheap_init : ℕ → Kheap → Kheap
kheap_init elf_sections_end h =
    let curr =
      bit_and (u32 (elf_sections_end + heap_block_size - 1)) (not32 (heap_block_size - 1)) in
    say
      (record h {
        kheap_curr = curr;
        heap_start = curr;
        heap_bitmap = replicate bitmap_size 0;
        blocks_used = 0;
      })
      (heap_initialized curr)

-- `for (i = 0; i < n; i++) mark(start + i)`, with `n` rounds left.
pub mark_blocks : (List ℕ → ℕ → Option (List ℕ)) → List ℕ → ℕ → ℕ → Option (List ℕ)
mark_blocks mark heap_bitmap start zero = some heap_bitmap
mark_blocks mark heap_bitmap start (suc n) = elim (mark heap_bitmap start) [
  | none ↦ none
  | some heap_bitmap' ↦ mark_blocks mark heap_bitmap' (start + 1) n
]

-- `(size + 4 + 4095) / 4096` in `size_t`.
pub blocks_needed : ℕ → ℕ
blocks_needed size = u32 (u32 (size + 4) + heap_block_size - 1) / heap_block_size

-- What `kmalloc` does once `start_block` is found.
pub take_blocks : Kheap → ℕ → ℕ → Option (ℕ × Kheap)
take_blocks h start_block needed =
    elim (mark_blocks mark_block_used h.heap_bitmap start_block needed) [
      | none ↦ none
      | some heap_bitmap ↦
          let ptr = u32 (h.heap_start + u32 (start_block * heap_block_size)) in
          some (
            u32 (ptr + 4),
            record h {
              heap_bitmap = heap_bitmap;
              blocks_used = u32 (h.blocks_used + needed);
              memory = store h.memory ptr needed;
            },
          )
    ]

pub kmalloc : ℕ → Kheap → Option (ℕ × Kheap)
kmalloc size h =
    let needed = blocks_needed size in
    if size == 0
    then some (0, h)
    else if ltb heap_blocks_max needed
    then some (0, say h (too_large size needed))
    else elim (find_free_blocks h.heap_bitmap needed) [
      | none ↦ some (0, say h (out_of_memory needed size))
      | some start_block ↦ take_blocks h start_block needed
    ]

pub kfree : ℕ → Kheap → Option Kheap
kfree ptr h =
    let block_addr = u32 (ptr + 2 ^ 32 - 4) in
    let blocks_to_free = h.memory block_addr in
    let start_block = (block_addr - h.heap_start) / heap_block_size in
    if ptr == 0
    then some h
    else if ltb block_addr h.heap_start
    then some (say h (before_heap ptr))
    else if leb heap_blocks_max start_block
    then some (say h (beyond_heap ptr))
    else if (blocks_to_free == 0) || ltb heap_blocks_max blocks_to_free
    then some (say h (corrupted_count blocks_to_free ptr))
    else elim (mark_blocks mark_block_free h.heap_bitmap start_block blocks_to_free) [
      | none ↦ none
      | some heap_bitmap ↦ some (record h {
        heap_bitmap = heap_bitmap;
        blocks_used = u32 (h.blocks_used + 2 ^ 32 - blocks_to_free);
      })
    ]

-- The five numbers that `kheap_stats` prints, in order.
pub kheap_stats : Kheap → List ℕ
kheap_stats h =
    let free_blocks = u32 (heap_blocks_max + 2 ^ 32 - h.blocks_used) in
    h.blocks_used
    ∷ heap_blocks_max
    ∷ free_blocks
    ∷ u32 (h.blocks_used * heap_block_size) / 1024
    ∷ u32 (free_blocks * heap_block_size) / 1024
    ∷ []
