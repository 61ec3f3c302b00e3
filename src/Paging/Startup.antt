-- ===== src/Paging/Startup.antt =====
-- What the start of paging leaves of the frame allocator.
use olympos.Prelude.{ℕ, zero, suc, ◌+◌, ◌*◌, ◌≤◌, ltb, ◌≡◌, refl, ap, ◌∙◌, arith, length}
use olympos.Paging.{
  Paging, page_size, frame_size, num_frames, frame_test, frame_bitmap_init, map_page, map_pages,
  setup_identity_mapping, enable_paging, paging_init,
}
use olympos.Paging.Frames.{bitmap_words, frame_bitmap_init_lem}

map_page_keeps :
    (dir virt phys flags : ℕ) (s : Paging)
    → (map_page dir virt phys flags s).frame_bitmap ≡ s.frame_bitmap
unfolding map_page
map_page_keeps dir virt phys flags s = ground arith

map_pages_keeps :
    (dir n addr : ℕ) (s : Paging) → (map_pages dir n addr s).frame_bitmap ≡ s.frame_bitmap
unfolding map_pages
map_pages_keeps dir zero addr s = refl
map_pages_keeps dir (suc n) addr s =
    map_pages_keeps dir n (addr + page_size) _ ∙ map_page_keeps dir addr addr _ s

paging_init_keeps :
    (elf_sections_end dir tables : ℕ) (s : Paging)
    → (paging_init elf_sections_end dir tables s).frame_bitmap
      ≡ (frame_bitmap_init elf_sections_end s).frame_bitmap
unfolding paging_init setup_identity_mapping enable_paging
paging_init_keeps elf_sections_end dir tables s = map_pages_keeps dir _ 0 _

-- After `paging_init` the frame bitmap has its size and just the frames below the kernel's end are
-- used, where the kernel ends within the memory of the frames.
pub paging_init-frames :
    (elf_sections_end dir tables : ℕ) (s : Paging)
    → elf_sections_end ≤ num_frames * frame_size
    → let after = paging_init elf_sections_end dir tables s in
      (length after.frame_bitmap ≡ bitmap_words)
      × ((k : ℕ) → frame_test after.frame_bitmap k ≡ ltb (k * frame_size) elf_sections_end)
paging_init-frames elf_sections_end dir tables s h =
    let e = paging_init_keeps elf_sections_end dir tables s in
    let f = frame_bitmap_init_lem elf_sections_end s h in
    (ap length e ∙ f.0, λ k. ap (λ bm. frame_test bm k) e ∙ f.1 k)
