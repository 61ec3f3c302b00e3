-- ===== src/Tests/Frames.antt =====
-- The frame allocator and the identity mapping, with the kernel's end at 0x106789.
use olympos.Prelude.{ℕ, ◌*◌, if◌then◌else◌, none, some, [], length, ltb, ◌≡◌, ◌⊎◌, inl, ◌∙◌, arith}
use olympos.Paging.{
  kmem_max, Paging, frame_test, frame_bitmap_init, frame_alloc, frame_free, setup_identity_mapping,
}
use olympos.Paging.Frames.{
  bitmap_words, TakesFrame, OutOfFrames, frame_alloc_lem, frame_free-frame_alloc,
  frame_bitmap_init_lem,
}
use olympos.Paging.Mapping.{translate, IsLayout, setup_identity_mapping_lem}

abbrev kernel_end : ℕ
kernel_end = 0x106789

abbrev blank : Paging
blank = record {
  frame_bitmap = [];
  memory = λ a. 7;
  cr3 = 0;
  cr0 = 0;
  isr_handlers = [];
  printed = [];
}

abbrev booted : Paging
booted = frame_bitmap_init kernel_end blank

frame_bitmap_init_lem_example :
    (length booted.frame_bitmap ≡ bitmap_words)
    × ((k : ℕ) → frame_test booted.frame_bitmap k ≡ ltb (k * 4096) kernel_end)
frame_bitmap_init_lem_example = frame_bitmap_init_lem kernel_end blank (omega arith)

frame_alloc_lem_example :
    TakesFrame booted (frame_alloc booted) ⊎ OutOfFrames booted (frame_alloc booted)
frame_alloc_lem_example = frame_alloc_lem booted frame_bitmap_init_lem_example.0

frame_free-frame_alloc_example :
    let (addr, after) = frame_alloc booted in
    frame_test (frame_free addr after).frame_bitmap 300 ≡ frame_test booted.frame_bitmap 300
frame_free-frame_alloc_example =
    frame_free-frame_alloc booted frame_bitmap_init_lem_example.0 500 (omega arith)
      (frame_bitmap_init_lem_example.1 500 ∙ ground arith) 300

layout : IsLayout 0x109000 0x10A000
layout = record {
  dir_aligned = omega arith;
  aligned = omega arith;
  nonnull = omega arith;
  below = omega arith;
  apart = inl (omega arith);
}

setup_identity_mapping_lem_example :
    let after = setup_identity_mapping 0x109000 0x10A000 booted in
    (translate after.memory 0x109000 0xB8000
      ≡ (if ltb 0xB8000 kmem_max then some 0xB8000 else none))
    × (after ≡ record booted { memory = after.memory })
setup_identity_mapping_lem_example =
    setup_identity_mapping_lem 0x109000 0x10A000 booted 0xB8000 layout (omega arith)
