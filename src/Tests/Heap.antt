-- ===== src/Tests/Heap.antt =====
-- The heap of a kernel that ends at 0x106789, so that the heap starts at 0x107000.
use olympos.Prelude.{
  ℕ, ◌≤◌, ◌+◌, ◌-◌, ◌*◌, ◌<◌, none, some, [], ◌∷◌, ◌≡◌, ◌⊎◌, inl, inr, refl, ◌∙◌, arith, store,
}
use olympos.Kheap.{
  heap_block_size, Kheap, Message, too_large, say, is_block_used, blocks_needed, find_free_blocks,
  kheap_init, kmalloc, kfree, kheap_stats,
}
use olympos.Kheap.Find.{FirstFit, find_free_blocks-FirstFit}
use olympos.Kheap.Count.{count_used}
use olympos.Kheap.Inv.{Holds, page_up, kheap_init-Holds}
use olympos.Kheap.Alloc.{user_address, Allocated, Refused, blocks_needed_bounds, kmalloc_lem}
use olympos.Kheap.Free.{Freed, kfree_lem}
use olympos.Kheap.Limits.{kmalloc_too_large, kmalloc_wraps, kfree_refuses, kfree_overruns}
use olympos.Kheap.Client.{kmalloc-apart, kfree-kmalloc_used, kheap_stats_lem}

abbrev kernel_end : ℕ
kernel_end = 0x106789

abbrev unset : Kheap
unset = record {
  kheap_curr = 0;
  heap_bitmap = [];
  heap_start = 0;
  blocks_used = 0;
  memory = λ a. 7;
  printed = [];
}

abbrev pub booted : Kheap
booted = kheap_init kernel_end unset

find_free_blocks-FirstFit_example :
    FirstFit (0xFF ∷ 0x07 ∷ 0xA0 ∷ []) 3 (find_free_blocks (0xFF ∷ 0x07 ∷ 0xA0 ∷ []) 3)
find_free_blocks-FirstFit_example =
    find_free_blocks-FirstFit (0xFF ∷ 0x07 ∷ 0xA0 ∷ []) 3 (omega arith) (omega arith)

kheap_init-Holds_example : Holds [] booted × (booted.heap_start ≡ page_up kernel_end)
kheap_init-Holds_example = kheap_init-Holds kernel_end unset (omega arith) (omega arith)

pub booted-Holds : Holds [] booted
booted-Holds = kheap_init-Holds_example.0

pub booted-starts : 1000 < booted.heap_start
booted-starts = omega (arith, kheap_init-Holds_example.1)

kmalloc_lem_example :
    Allocated [] booted 100 (kmalloc 100 booted) ⊎ Refused booted 100 (kmalloc 100 booted)
kmalloc_lem_example = kmalloc_lem [] booted 100 booted-Holds (omega arith) (omega arith)

one_block : blocks_needed 100 ≡ 1
one_block = omega (arith, blocks_needed_bounds 100 (omega arith) (omega arith))

-- The first allocation succeeds.
first_allocation : Allocated [] booted 100 (kmalloc 100 booted)
first_allocation = elim (kmalloc_lem [] booted 100 booted-Holds (omega arith) (omega arith)) [
  | inl a ↦ a
  | inr r ↦
      absurd
        (r.0 0 (record { fits = omega (arith, one_block); free = λ k p q. booted-Holds.used k }))
]

abbrev busy : Kheap
busy = first_allocation.after

kfree_lem_example :
    Freed
      ((first_allocation.start, blocks_needed 100) ∷ [])
      busy
      first_allocation.start
      (kfree (user_address busy first_allocation.start) busy)
kfree_lem_example =
    kfree_lem ((first_allocation.start, blocks_needed 100) ∷ []) busy first_allocation.holds
      first_allocation.start (blocks_needed 100) (inl (refl, refl))

kfree-kmalloc_used_example :
    (h2 : Kheap) × (kfree (user_address booted first_allocation.start) (record busy {
      memory = store busy.memory (user_address booted first_allocation.start + 40) 5;
    })
      ≡ some h2)
    × Holds [] h2
    × ((k : ℕ) → is_block_used h2.heap_bitmap k ≡ is_block_used booted.heap_bitmap k)
kfree-kmalloc_used_example =
    kfree-kmalloc_used [] booted 100 (user_address booted first_allocation.start) busy
      (store busy.memory (user_address booted first_allocation.start + 40) 5) booted-Holds
      (omega arith) (omega arith) first_allocation.returns (omega arith) (λ k o. ground (arith, o))

-- The heap of the first allocation, and another one in it.
first_at_0 : first_allocation.start ≡ 0
first_at_0 = omega (
  arith,
  first_allocation.first 0
      (record { fits = omega (arith, one_block); free = λ k p q. booted-Holds.used k }),
)

second_allocation :
    Allocated ((first_allocation.start, blocks_needed 100) ∷ []) busy 200 (kmalloc 200 busy)
second_allocation =
    elim (kmalloc_lem ((first_allocation.start, blocks_needed 100) ∷ []) busy 200
      first_allocation.holds (omega arith) (omega arith)) [
        | inl a ↦ a
        | inr r ↦ absurd (
            r.0 1 (record {
              fits = omega (arith, one_block_200);
              free = λ k p q.
                  first_allocation.holds.used k
                  ∙ ground (arith, first_at_0, one_block, one_block_200);
            }))
      ]
  where
    one_block_200 : blocks_needed 200 ≡ 1
    one_block_200 = omega (arith, blocks_needed_bounds 200 (omega arith) (omega arith))

kmalloc-apart_example :
    (busy.heap_start + (first_allocation.start + blocks_needed 100) * heap_block_size + 4
      ≤ user_address busy second_allocation.start)
    ⊎ (user_address busy second_allocation.start + 200
        ≤ busy.heap_start + first_allocation.start * heap_block_size)
kmalloc-apart_example =
    kmalloc-apart ((first_allocation.start, blocks_needed 100) ∷ []) busy first_allocation.start
      (blocks_needed 100) 200 (user_address busy second_allocation.start) second_allocation.after
      first_allocation.holds (inl (refl, refl)) (omega arith) (omega arith)
      second_allocation.returns (omega arith)

kheap_stats_lem_example :
    kheap_stats booted
    ≡ count_used booted.heap_bitmap
      ∷ 2048
      ∷ (2048 - count_used booted.heap_bitmap)
      ∷ (count_used booted.heap_bitmap * 4)
      ∷ ((2048 - count_used booted.heap_bitmap) * 4)
      ∷ []
kheap_stats_lem_example = kheap_stats_lem [] booted booted-Holds

kmalloc_too_large_example :
    kmalloc 9000000 booted ≡ some (0, say booted (too_large 9000000 (blocks_needed 9000000)))
kmalloc_too_large_example = kmalloc_too_large 9000000 booted (omega arith) (omega arith)

abbrev aligned_heap : Kheap
aligned_heap = record unset { heap_start = 0x107000; blocks_used = 3 }

kmalloc_wraps_example :
    kmalloc 0xFFFFFFFB aligned_heap
    ≡ some (0x107004, record aligned_heap { memory = store aligned_heap.memory 0x107000 0 })
kmalloc_wraps_example =
    kmalloc_wraps 0xFFFFFFFB aligned_heap (omega arith) (omega arith) (omega arith) (omega arith)

kfree_refuses_example : (m : Message) × (kfree 0x2004 aligned_heap ≡ some (say aligned_heap m))
kfree_refuses_example = kfree_refuses 0x2004 aligned_heap (omega arith) (inl (omega arith))

abbrev corrupted : Kheap
corrupted = record booted { memory = λ a. 2000; heap_start = 0x107000 }

kfree_overruns_example : kfree 0x207004 corrupted ≡ none
kfree_overruns_example =
    kfree_overruns 0x207004 corrupted booted-Holds.size (omega arith) (omega arith) (omega arith)
      (omega arith) (omega arith)
