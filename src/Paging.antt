-- ===== src/Paging.antt =====
-- kernel/arch/i386/paging.c and kernel/include/kernel/paging.h: the frame allocator and the page
-- tables. Memory is read and written here by 32-bit words, at the address of the word.
pub mod Frames
pub mod Mapping
pub mod Startup
use olympos.Prelude.{
  ℕ, zero, suc, ◌+◌, ◌-◌, ◌*◌, ◌/◌, ◌%◌, ◌^◌, bit_and, bit_or, Bool, true, false, not, Option, none,
  some, List, [], ◌∷◌, ◌++◌, get_or, set, replicate, ltb, leb, ◌==◌, if◌then◌else◌, u32, not32,
  Memory, store, pos,
}
use olympos.Interrupts.Regs.{Regs, page_fault_handler}
use olympos.Interrupts.Isr.{IsrTable, register_isr}

abbrev pub page_size : ℕ
page_size = 4096

abbrev pub frame_size : ℕ
frame_size = page_size

abbrev pub num_frames : ℕ
num_frames = 128 * 1024 * 1024 / frame_size

abbrev pub kmem_max : ℕ
kmem_max = 8 * 1024 * 1024

abbrev pub pde_present : ℕ
pde_present = 0x1

abbrev pub pde_writable : ℕ
pde_writable = 0x2

abbrev pub pte_present : ℕ
pte_present = pde_present

abbrev pub pte_writable : ℕ
pte_writable = pde_writable

-- The lines that this part prints.
pub data Message : Type 0 where
  invalid_frame : ℕ → Message
  no_page_table : ℕ → Message
  paging_initialized : Message

-- The static variables, the memory that holds the directory and the tables, the two control
-- registers that paging uses, and the table of exception handlers.
pub record Paging : Type 0 where
  pub frame_bitmap : List ℕ
  pub memory : Memory
  pub cr3 : ℕ
  pub cr0 : ℕ
  pub isr_handlers : IsrTable
  pub printed : List Message

abbrev pub say : Paging → Message → Paging
say s m = record s { printed = s.printed ++ m ∷ [] }

pub frame_test : List ℕ → ℕ → Bool
frame_test frame_bitmap frame_num =
    let idx = frame_num / 32 in
    let bit = frame_num % 32 in not (bit_and (get_or frame_bitmap idx 0) (2 ^ bit) == 0)

-- A write past the bitmap, which only a kernel of more than 128 MiB would cause, is not modelled.
pub frame_set : List ℕ → ℕ → List ℕ
frame_set frame_bitmap frame_num =
    let idx = frame_num / 32 in
    let bit = frame_num % 32 in
    set frame_bitmap idx (u32 (bit_or (get_or frame_bitmap idx 0) (2 ^ bit)))

pub frame_clear : List ℕ → ℕ → List ℕ
frame_clear frame_bitmap frame_num =
    let idx = frame_num / 32 in
    let bit = frame_num % 32 in
    set frame_bitmap idx (u32 (bit_and (get_or frame_bitmap idx 0) (not32 (2 ^ bit))))

-- `for (i = 0; i < kernel_frames; i++) frame_set(i)`, with `n` rounds left.
pub set_frames : ℕ → ℕ → List ℕ → List ℕ
set_frames zero i frame_bitmap = frame_bitmap
set_frames (suc n) i frame_bitmap = set_frames n (i + 1) (frame_set frame_bitmap i)

pub frame_bitmap_init : ℕ → Paging → Paging
frame_bitmap_init elf_sections_end s =
    let kernel_frames = u32 (elf_sections_end + frame_size - 1) / frame_size in
    record s { frame_bitmap = set_frames kernel_frames 0 (replicate (num_frames / 32) 0) }

-- The scan from frame `i` on, with `n` rounds left: the first free frame.
pub first_free : ℕ → ℕ → List ℕ → Option ℕ
first_free zero i frame_bitmap = none
first_free (suc n) i frame_bitmap = elim (frame_test frame_bitmap i) [
  | false ↦ some i
  | true ↦ first_free n (i + 1) frame_bitmap
]

pub frame_alloc : Paging → ℕ × Paging
frame_alloc s = elim (first_free num_frames 0 s.frame_bitmap) [
  | some i ↦ (i * frame_size, record s { frame_bitmap = frame_set s.frame_bitmap i })
  | none ↦ (0, s)
]

pub frame_free : ℕ → Paging → Paging
frame_free frame_addr s =
    let frame_num = frame_addr / frame_size in
    if leb num_frames frame_num
    then say s (invalid_frame frame_addr)
    else record s { frame_bitmap = frame_clear s.frame_bitmap frame_num }

pub map_page : ℕ → ℕ → ℕ → ℕ → Paging → Paging
map_page page_dir virt_addr phys_addr flags s =
    let pd_idx = virt_addr / 2 ^ 22 in
    let pt_idx = bit_and (virt_addr / 2 ^ 12) 0x3ff in
    let pde = s.memory (page_dir + 4 * pd_idx) in
    let page_table = bit_and pde (not32 0xfff) in
    if page_table == 0 then say s (no_page_table pd_idx) else record s {
      memory =
          store s.memory (page_table + 4 * pt_idx) (bit_or (bit_and phys_addr (not32 0xfff)) flags);
    }

-- `memset` of `n` words to zero, from address `a` on.
pub zero_words : ℕ → ℕ → Memory → Memory
zero_words zero a m = m
zero_words (suc n) a m = zero_words n (a + 4) (store m a 0)

-- The mapping loop at address `addr`, with `n` rounds left.
pub map_pages : ℕ → ℕ → ℕ → Paging → Paging
map_pages page_dir zero addr s = s
map_pages page_dir (suc n) addr s =
    map_pages page_dir n (addr + page_size)
      (map_page page_dir addr addr (bit_or pte_present pte_writable) s)

-- `kernel_page_directory` and `kernel_page_tables` stand at the addresses `dir` and `tables`.
pub setup_identity_mapping : ℕ → ℕ → Paging → Paging
setup_identity_mapping dir tables s =
    let m = zero_words (2 * 1024) tables (zero_words 1024 dir s.memory) in
    let m = store m dir (bit_or (bit_or tables pde_present) pde_writable) in
    let m = store m (dir + 4) (bit_or (bit_or (tables + 4096) pde_present) pde_writable) in
    map_pages dir (kmem_max / page_size) 0 (record s { memory = m })

pub enable_paging : ℕ → Paging → Paging
enable_paging page_dir s = record s { cr3 = page_dir; cr0 = bit_or s.cr0 0x80000000 }

pub paging_init : ℕ → ℕ → ℕ → Paging → Paging
paging_init elf_sections_end dir tables s =
    let s = frame_bitmap_init elf_sections_end s in
    let s = setup_identity_mapping dir tables s in
    let s = record s {
      isr_handlers = (register_isr (pos 14) (some page_fault_handler) s.isr_handlers).1;
    } in
    let s = enable_paging dir s in say s paging_initialized

-- What the page fault handler reports of the fault before it panics: the address in CR2, and the
-- three flags and the two registers of the saved state.
pub record FaultReport : Type 0 where
  pub faulty_addr : ℕ
  pub present : Bool
  pub write : Bool
  pub user : Bool
  pub eip : ℕ
  pub err_code : ℕ

pub report_fault : ℕ → Regs → FaultReport
report_fault cr2 regs = record {
  faulty_addr = cr2;
  present = not (bit_and regs.err_code 0x1 == 0);
  write = not (bit_and regs.err_code 0x2 == 0);
  user = not (bit_and regs.err_code 0x4 == 0);
  eip = regs.eip;
  err_code = regs.err_code;
}
