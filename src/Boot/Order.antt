-- ===== src/Boot/Order.antt =====
-- The kernel after its start.
use olympos.Prelude.{
  ℕ, ◌-◌, ◌*◌, ◌/◌, ◌%◌, ◌^◌, ◌≤◌, ◌<◌, false, none, some, [], get_or, ltb, ◌==◌, Memory, ◌≡◌, ◌≢◌,
  refl, sym, ap, ◌∙◌, arith, length, inl, inr, get_or-set_self,
}
use native.Mathlib.Decide.{dec_lt}
use olympos.Io.{Device}
use olympos.Boot.{
  multiboot_bootloader_magic, Layout, Kernel, aborted, started, initialize_rest, after_debug,
  kernel_main,
}
use olympos.Debug.{Debug, debug_initialize}
use olympos.Interrupts.Regs.{Handler}
use olympos.Interrupts.Idt.{zero_entry}
use olympos.Interrupts.Idt.Gates.{idt_init-Loaded}
use olympos.Interrupts.Irq.{Irq, reqister_irq}
use olympos.Keyboard.{keyboard_initialize}
use olympos.Kheap.Inv.{Holds, page_up, kheap_init-Holds}
use olympos.Paging.{frame_size, num_frames, frame_test, frame_alloc}
use olympos.Paging.Frames.{bitmap_words, frame_alloc_lem}
use olympos.Paging.Startup.{paging_init-frames}
use olympos.Terminal.{terminal_initialize}

abbrev cleared : Kernel → Kernel
cleared k = record k { terminal = terminal_initialize k.terminal }

starts :
    (l : Layout) (addr : ℕ) (m : Memory) (k : Kernel) (debug : Debug)
    → debug_initialize l.fuel l.kernel_end l.symtab l.strtab m addr k.debug ≡ some debug
    → kernel_main l multiboot_bootloader_magic addr m k
      ≡ started (initialize_rest l (cleared k) debug)
unfolding kernel_main
starts l addr m k debug e = ap (after_debug l (cleared k)) e

-- Without the loader's magic number the kernel stops before any of its parts is started.
pub kernel_main_aborts :
    (l : Layout) (magic addr : ℕ) (m : Memory) (k : Kernel)
    → magic ≢ multiboot_bootloader_magic
    → kernel_main l magic addr m k ≡ aborted
unfolding kernel_main
kernel_main_aborts l magic addr m k h =
    let e : (magic == multiboot_bootloader_magic) ≡ false = ground arith in rw e refl

-- The kernel is ready: an empty heap in order behind its sections, just the frames below used, and the
-- keyboard's handler in its slot.
pub record Ready (sections_end : ℕ) (k : Kernel) : Type 0 where
  pub heap : Holds [] k.kheap
  pub heap_start : k.kheap.heap_start ≡ sections_end
  pub frames : length k.paging.frame_bitmap ≡ bitmap_words
  pub used : (f : ℕ) → frame_test k.paging.frame_bitmap f ≡ ltb (f * frame_size) sections_end
  pub keyboard : get_or k.irq.irq_handlers 1 none ≡ some Handler.kb_irq_trampoline

keyboard_slot :
    (device : Device) (st : Irq)
    → length st.irq_handlers ≡ 16
    → get_or (keyboard_initialize device st).irq_handlers 1 none ≡ some Handler.kb_irq_trampoline
unfolding keyboard_initialize reqister_irq
keyboard_slot device st h =
    get_or-set_self st.irq_handlers 1 (some Handler.kb_irq_trampoline) none (omega (arith, h))

aligned_page_up : (e : ℕ) → e % 4096 ≡ 0 → page_up e ≡ e
aligned_page_up e h = omega (arith, h)

-- Started by the loader, where `debug_initialize` gives a page boundary above 0 and within the memory of the frames as the end of the sections, the
-- kernel is ready: its heap is empty and in order from that boundary on, just the frames below it are used, and the
-- keyboard's handler is registered.
pub kernel_main-Ready :
    (l : Layout) (addr : ℕ) (m : Memory) (k : Kernel) (debug : Debug)
    → debug_initialize l.fuel l.kernel_end l.symtab l.strtab m addr k.debug ≡ some debug
    → 0 < debug.elf_sections_end
    → debug.elf_sections_end ≤ num_frames * frame_size
    → debug.elf_sections_end % 4096 ≡ 0
    → length k.irq.irq_handlers ≡ 16
    → (after : Kernel) × (kernel_main l multiboot_bootloader_magic addr m k ≡ started after)
      × Ready debug.elf_sections_end after
kernel_main-Ready l addr m k debug e low high page slots =
    let up = aligned_page_up debug.elf_sections_end page in
    let h = kheap_init-Holds debug.elf_sections_end k.kheap low (omega (arith, up)) in
    let f =
      paging_init-frames debug.elf_sections_end l.kernel_page_directory l.kernel_page_tables
        k.paging high in
    (
      initialize_rest l (cleared k) debug,
      starts l addr m k debug e,
      record {
        heap = h.0;
        heap_start = h.1 ∙ up;
        frames = f.0;
        used = f.1;
        keyboard =
            keyboard_slot l.device
              (record k.irq { log = (initialize_rest l (cleared k) debug).idt.log }) slots;
      },
    )

-- In a ready kernel whose sections end below the memory of the frames, the first frame that `frame_alloc` gives is the
-- first block of the heap, which the heap holds for free as well.
pub frame_alloc-overlaps :
    (sections_end : ℕ) (k : Kernel)
    → Ready sections_end k
    → sections_end % 4096 ≡ 0
    → sections_end < num_frames * frame_size
    → (frame_alloc k.paging).0 ≡ k.kheap.heap_start
frame_alloc-overlaps sections_end k r page small = elim (frame_alloc_lem k.paging r.frames) [
  | inl a ↦
      let above : sections_end ≤ a.frame * frame_size =
        unused (a.frame * frame_size) (sym (r.used a.frame) ∙ a.free) in
      let below : a.frame ≤ sections_end / 4096 = elim (dec_lt (sections_end / 4096) a.frame) [
        | yes l ↦ absurd (cc (a.first (sections_end / 4096) l, boundary))
        | no l ↦ omega arith
      ] in
      ap (λ q. q.0) a.returns ∙ omega arith ∙ sym r.heap_start
  | inr out ↦ absurd (cc (out.0 (sections_end / 4096) (omega arith), boundary))
]
  where
    unused : (a : ℕ) → ltb a sections_end ≡ false → sections_end ≤ a
    unused a h = ground arith

    boundary : frame_test k.paging.frame_bitmap (sections_end / 4096) ≡ false
    boundary = r.used (sections_end / 4096) ∙ ground arith

-- No part of the start sets a gate for the vector 0x80: behind it the entry is empty, and `int 0x80`
-- has no handler.
pub kernel_main-no_syscalls :
    (l : Layout) (addr : ℕ) (m : Memory) (k : Kernel) (debug : Debug)
    → debug_initialize l.fuel l.kernel_end l.symtab l.strtab m addr k.debug ≡ some debug
    → ((v : ℕ) → (l.isr v < 2 ^ 32) × (l.irq v < 2 ^ 32))
    → (after : Kernel) × (kernel_main l multiboot_bootloader_magic addr m k ≡ started after)
      × (get_or after.idt.idt 0x80 zero_entry ≡ zero_entry)
kernel_main-no_syscalls l addr m k debug e fits = (
  initialize_rest l (cleared k) debug,
  starts l addr m k debug e,
  idt_init-Loaded l.isr l.irq l.idt (record k.idt { log = (cleared k).terminal.log }) 0x80
      (fits 0x80).0 (fits (0x80 - 32)).1,
)
