-- ===== src/Tests/Start.antt =====
-- The start of a kernel whose loader passes one section, and what stands on the symbols.
use olympos.Prelude.{
  ℕ, ◌+◌, ◌-◌, ◌^◌, ◌<◌, ◌++◌, zero, suc, true, false, some, none, List, [], ◌∷◌, replicate, get_or,
  ◌≡◌, ◌⊎◌, refl, arith, Memory, store, u32,
}
use olympos.Boot.{multiboot_bootloader_magic, Layout, Kernel, started, kernel_main}
use olympos.Boot.Order.{Ready, kernel_main-Ready, frame_alloc-overlaps, kernel_main-no_syscalls}
use olympos.Debug.{
  name_at, symbol_at, section_at, Debug, symbols_initialized, sections_end, no_strtab, find_section,
  debug_initialize, find_symbol_for_address, get_function_base_address, max_section_end,
  with_symtab, with_strtab, set_initialized, max_frames, backtrace_from, print_backtrace,
  stack_backtrace,
}
use olympos.Debug.Find.{Named}
use olympos.Debug.Lookup.{
  contains, FirstFunction, NoFunction, EndsNoFunction, lookups_agree, lookups-behind_end,
}
use olympos.Debug.Sections.{Initialized, debug_initialize_lem}
use olympos.Debug.Trace.{Traced, last_line, print_backtrace-Traced}
use olympos.Interrupts.Idt.{zero_entry}
use olympos.Libc.Itoa.{codes}
use olympos.Libc.Strings.{strcmp}
use olympos.Libc.Strings.Text.{IsString}
use olympos.Paging.{frame_alloc}

-- A text written into memory.
abbrev put : Memory → ℕ → List ℕ → Memory
put m a [] = m
put m a (c ∷ cs) = put (store m a c) (a + 1) cs

-- The information at 16: ELF sections, one of them, at 64, with the names in section 0. That is a symbol
-- table of 16 bytes at 200, whose own name stands there. The two literals are at 300 and 320.
abbrev memory : Memory
memory =
    put
      (put
        (put (store (store (store (store (store (λ a. 0) 16 0x20) 44 1) 52 64) 76 200) 84 16) 200
          (codes ".symtab"))
        300 (codes ".symtab"))
      320 (codes ".strtab")

abbrev unset : Debug
unset = record {
  symbol_table = 0;
  symbol_count = 0;
  string_table = 200;
  string_table_size = 0;
  debug_initialized = false;
  elf_sections_end = 0;
  printed = [];
}

abbrev names : ℕ → List ℕ
names k = codes ".symtab"

names-Named : Named 10 memory 64 200 1 names
unfolding section_at
names-Named = record { strings = strings; short = λ k h. omega arith }
  where
    strings :
        (k : ℕ)
        → k < 1
        → IsString memory (u32 (200 + (section_at memory 64 k).sh_name)) (codes ".symtab")
    strings zero h = (
      refl,
      omega arith,
      omega arith,
      (
        refl,
        omega arith,
        omega arith,
        (
          refl,
          omega arith,
          omega arith,
          (
            refl,
            omega arith,
            omega arith,
            (
              refl,
              omega arith,
              omega arith,
              (refl, omega arith, omega arith, (refl, omega arith, omega arith, refl)),
            ),
          ),
        ),
      ),
    )
    strings (suc k) h = absurd (omega arith)

fit :
    (k : ℕ)
    → k < 1
    → (section_at memory 64 k).sh_addr + (section_at memory 64 k).sh_size < 2 ^ 32 - 4096
unfolding section_at
fit zero h = omega arith
fit (suc k) h = absurd (omega arith)

debug_initialize_lem_example :
    (after : Debug) × (debug_initialize 10 0x1FF123 300 320 memory 16 unset ≡ some after)
    × Initialized memory 0x1FF123 16 unset after
unfolding section_at
debug_initialize_lem_example =
    debug_initialize_lem 10 0x1FF123 300 320 16 memory unset names (omega arith) (omega arith)
      names-Named
      (
        refl,
        omega arith,
        omega arith,
        (
          refl,
          omega arith,
          omega arith,
          (
            refl,
            omega arith,
            omega arith,
            (
              refl,
              omega arith,
              omega arith,
              (
                refl,
                omega arith,
                omega arith,
                (refl, omega arith, omega arith, (refl, omega arith, omega arith, refl)),
              ),
            ),
          ),
        ),
      )
      (
        refl,
        omega arith,
        omega arith,
        (
          refl,
          omega arith,
          omega arith,
          (
            refl,
            omega arith,
            omega arith,
            (
              refl,
              omega arith,
              omega arith,
              (
                refl,
                omega arith,
                omega arith,
                (refl, omega arith, omega arith, (refl, omega arith, omega arith, refl)),
              ),
            ),
          ),
        ),
      )
      fit (omega arith)

abbrev loaded : Debug
loaded = record {
  symbol_table = 200;
  symbol_count = 1;
  string_table = 200;
  string_table_size = 0;
  debug_initialized = true;
  elf_sections_end = 0x200000;
  printed = no_strtab ∷ symbols_initialized 1 ∷ sections_end 0x200000 ∷ [];
}

loads : debug_initialize 10 0x1FF123 300 320 memory 16 unset ≡ some loaded
unfolding debug_initialize section_at find_section strcmp max_section_end with_symtab with_strtab
    set_initialized
loads = refl

abbrev layout : Layout
layout = record {
  kernel_end = 0x1FF123;
  symtab = 300;
  strtab = 320;
  fuel = 10;
  gdt = 0x105000;
  tss = 0x105100;
  stack_top = 0x104000;
  isr = λ v. 0x100000;
  irq = λ v. 0x100800;
  idt = 0x106000;
  kernel_page_directory = 0x108000;
  kernel_page_tables = 0x109000;
  device = λ log port. 0xFF;
}

abbrev off : Kernel
off = record {
  terminal = record {
    terminal_row = 9;
    terminal_column = 9;
    terminal_color = 0;
    terminal_buffer = λ a. 0;
    log = [];
  };
  debug = unset;
  gdt = record {
    gdt = [];
    gdtr = record { boundary = 0; base = 0 };
    tss = record { esp0 = 0; ss0 = 0; iomap_base = 0; rest = 0 };
  };
  idt = record { idt = []; idtr = record { limit = 0; base = 0 }; log = []; enabled = false };
  paging = record {
    frame_bitmap = [];
    memory = λ a. 0;
    cr3 = 0;
    cr0 = 1;
    isr_handlers = replicate 32 none;
    printed = [];
  };
  kheap = record {
    kheap_curr = 0;
    heap_bitmap = [];
    heap_start = 0;
    blocks_used = 0;
    memory = λ a. 7;
    printed = [];
  };
  irq = record { irq_handlers = replicate 16 none; log = [] };
}

kernel_main-Ready_example :
    (after : Kernel) × (kernel_main layout multiboot_bootloader_magic 16 memory off ≡ started after)
    × Ready 0x200000 after
kernel_main-Ready_example =
    kernel_main-Ready layout 16 memory off loaded loads (omega arith) (omega arith) (omega arith)
      refl

abbrev booted : Kernel
booted =
    (kernel_main-Ready layout 16 memory off loaded loads (omega arith) (omega arith) (omega arith)
      refl).0

booted-Ready : Ready 0x200000 booted
booted-Ready =
    (kernel_main-Ready layout 16 memory off loaded loads (omega arith) (omega arith) (omega arith)
      refl).2

frame_alloc-overlaps_example : (frame_alloc booted.paging).0 ≡ booted.kheap.heap_start
frame_alloc-overlaps_example =
    frame_alloc-overlaps 0x200000 booted booted-Ready (omega arith) (omega arith)

kernel_main-no_syscalls_example :
    (after : Kernel) × (kernel_main layout multiboot_bootloader_magic 16 memory off ≡ started after)
    × (get_or after.idt.idt 0x80 zero_entry ≡ zero_entry)
kernel_main-no_syscalls_example =
    kernel_main-no_syscalls layout 16 memory off loaded loads (λ v. (omega arith, omega arith))

-- Two functions: 16 bytes at 1000, and 32 bytes at 1016.
abbrev table : Memory
table =
    store
      (store (store (store (store (store (store (λ a. 0) 404 232) 405 3) 408 16) 412 2) 420 248) 421
        3)
      424 32

abbrev named : Debug
named = record loaded { symbol_table = 400; symbol_count = 2; string_table = 600 }

-- The second one is a function too.
abbrev functions : Memory
functions = store table 428 2

ends_none : EndsNoFunction functions named 1020
unfolding symbol_at
ends_none zero l f e = absurd (omega (arith, e))
ends_none (suc zero) l f e = absurd (omega (arith, e))
ends_none (suc (suc k)) l f e = absurd (omega (arith, l))

lookups_agree_example :
    FirstFunction functions named 1020
      (find_symbol_for_address functions named 1020)
      (get_function_base_address functions named 1020)
    ⊎ NoFunction functions named 1020
        (find_symbol_for_address functions named 1020)
        (get_function_base_address functions named 1020)
lookups_agree_example = lookups_agree functions named 1020 refl ends_none

lookups-behind_end_example :
    (contains (symbol_at functions 400 0) 1016 ≡ false)
    × (find_symbol_for_address functions named 1016
        ≡ name_at (u32 (600 + (symbol_at functions 400 0).st_name)))
    × (get_function_base_address functions named 1016 ≡ (symbol_at functions 400 0).st_value)
unfolding symbol_at
lookups-behind_end_example =
    lookups-behind_end functions named 1016 0 refl (omega arith) refl refl (omega arith)
      (λ k l. absurd (omega (arith, l)))

print_backtrace-Traced_example :
    Traced memory loaded max_frames 16 0 0 (backtrace_from memory loaded max_frames 16 0 0)
    × (print_backtrace memory 16 loaded
        ≡ stack_backtrace ∷ (backtrace_from memory loaded max_frames 16 0 0).1
          ++ last_line (backtrace_from memory loaded max_frames 16 0 0).0)
print_backtrace-Traced_example = print_backtrace-Traced memory 16 loaded
