-- ===== src/Debug.antt =====
-- kernel/arch/i386/debug.c, include/elf32.h and kernel/include/kernel/multiboot.h: the symbols of the
-- kernel, the backtrace, and the end of the kernel's sections. Memory is read here by bytes; a
-- pointer is its address, 0 being NULL. The addresses of objects are arguments.
pub mod Find
pub mod Lookup
pub mod Trace
pub mod Sections
use olympos.Prelude.{
  ℕ, zero, suc, ◌+◌, ◌-◌, ◌*◌, ◌/◌, ◌^◌, bit_and, Bool, true, false, not, ◌&&◌, ◌||◌, Option, none,
  some, List, [], ◌∷◌, ◌++◌, ltb, leb, ◌==◌, if◌then◌else◌, u8, u32, not32, Memory, ℤ,
}
use olympos.Libc.Itoa.Value.{magnitude}
use olympos.Libc.Strings.{strcmp, ◌>>=◌}

-- The 32-bit word at an address, the low byte first.
abbrev pub word_at : Memory → ℕ → ℕ
word_at m a = u32 (m a + m (a + 1) * 2 ^ 8 + m (a + 2) * 2 ^ 16 + m (a + 3) * 2 ^ 24)

-- The fields of a symbol and of a section header that the kernel reads.
pub record Elf32Sym : Type 0 where
  pub st_name : ℕ
  pub st_value : ℕ
  pub st_size : ℕ
  pub st_info : ℕ

abbrev pub sizeof_sym : ℕ
sizeof_sym = 16

-- Entry `i` of the table at an address.
unfoldable pub symbol_at : Memory → ℕ → ℕ → Elf32Sym
symbol_at m table i =
    let a = table + i * sizeof_sym in
    record {
      st_name = word_at m a;
      st_value = word_at m (a + 4);
      st_size = word_at m (a + 8);
      st_info = u8 (m (a + 12));
    }

pub record Elf32Shdr : Type 0 where
  pub sh_name : ℕ
  pub sh_addr : ℕ
  pub sh_size : ℕ

abbrev pub sizeof_shdr : ℕ
sizeof_shdr = 40

unfoldable pub section_at : Memory → ℕ → ℕ → Elf32Shdr
section_at m sht i =
    let a = sht + i * sizeof_shdr in
    record { sh_name = word_at m a; sh_addr = word_at m (a + 12); sh_size = word_at m (a + 20) }

abbrev pub elf32_st_type : ℕ → ℕ
elf32_st_type info = bit_and info 0xf

abbrev pub elf_sym_type_func : ℕ
elf_sym_type_func = 0x2

-- The name that a lookup gives: one of two fixed texts, or the string at an address.
pub data Name : Type 0 where
  no_symbols unknown : Name
  name_at : ℕ → Name

-- The lines that this part prints. A frame's line has its number, its name and its address, and
-- the offset in the function if there is one.
pub data Line : Type 0 where
  stack_backtrace cyclic no_frames too_deep : Line
  frame_offset : ℕ → Name → ℕ → ℕ → Line
  frame : ℕ → Name → ℕ → Line
  no_elf bad_index no_symtab no_strtab : Line
  symbols_initialized sections_end : ℕ → Line
  incomplete : ℕ → ℕ → Line

pub record Debug : Type 0 where
  pub symbol_table : ℕ
  pub symbol_count : ℕ
  pub string_table : ℕ
  pub string_table_size : ℕ
  pub debug_initialized : Bool
  pub elf_sections_end : ℕ
  pub printed : List Line

abbrev pub say : Debug → Line → Debug
say d line = record d { printed = d.printed ++ line ∷ [] }

-- The loop of `find_symbol_for_address` from symbol `i` on, with `n` rounds left.
pub find_symbol_from : Memory → Debug → ℕ → ℕ → ℕ → Name
find_symbol_from m d addr zero i = unknown
find_symbol_from m d addr (suc n) i =
    let sym = symbol_at m d.symbol_table i in
    let rest = find_symbol_from m d addr n (i + 1) in
    if elf32_st_type sym.st_info == elf_sym_type_func
    then (if leb sym.st_value addr && leb addr (u32 (sym.st_value + sym.st_size))
        then name_at (u32 (d.string_table + sym.st_name))
        else rest)
    else rest

abbrev pub has_no_symbols : Debug → Bool
has_no_symbols d = not d.debug_initialized || ((d.symbol_table == 0) || (d.string_table == 0))

pub find_symbol_for_address : Memory → Debug → ℕ → Name
find_symbol_for_address m d addr =
    if has_no_symbols d then no_symbols else find_symbol_from m d addr d.symbol_count 0

pub base_from : Memory → Debug → ℕ → ℕ → ℕ → ℕ
base_from m d addr zero i = 0
base_from m d addr (suc n) i =
    let sym = symbol_at m d.symbol_table i in
    let rest = base_from m d addr n (i + 1) in
    if elf32_st_type sym.st_info == elf_sym_type_func
    then (if leb sym.st_value addr && leb addr (u32 (sym.st_value + sym.st_size))
        then sym.st_value
        else rest)
    else rest

pub get_function_base_address : Memory → Debug → ℕ → ℕ
get_function_base_address m d addr =
    if has_no_symbols d then 0 else base_from m d addr d.symbol_count 0

abbrev pub max_frames : ℕ
max_frames = 32

abbrev pub frame_line : Memory → Debug → ℕ → ℕ → Line
frame_line m d frame_count return_addr =
    let func_name = find_symbol_for_address m d return_addr in
    let func_base = get_function_base_address m d return_addr in
    if not (func_base == 0)
    then frame_offset frame_count func_name (u32 (return_addr + 2 ^ 32 - func_base)) return_addr
    else frame frame_count func_name return_addr

-- The loop of `print_backtrace`, with `n` rounds left before `frame_count < max_frames` fails: the
-- frames counted, and the lines printed.
pub backtrace_from : Memory → Debug → ℕ → ℕ → ℕ → ℕ → ℕ × List Line
backtrace_from m d zero frame_ptr prev_return_addr frame_count = (frame_count, [])
backtrace_from m d (suc n) frame_ptr prev_return_addr frame_count =
    let return_addr = word_at m (u32 (frame_ptr + 4)) in
    let rest = backtrace_from m d n (word_at m frame_ptr) return_addr (frame_count + 1) in
    if frame_ptr == 0
    then (frame_count, [])
    else if return_addr == prev_return_addr
    then (frame_count, cyclic ∷ [])
    else (rest.0, frame_line m d frame_count return_addr ∷ rest.1)

-- From the frame pointer in `ebp` on: the lines printed.
pub print_backtrace : Memory → ℕ → Debug → List Line
print_backtrace m ebp d =
    let (frame_count, lines) = backtrace_from m d max_frames ebp 0 0 in
    let last =
      if frame_count == 0
      then no_frames ∷ []
      else if leb max_frames frame_count
      then too_deep ∷ []
      else [] in
    stack_backtrace ∷ lines ++ last

-- Section `i` of those from `i` on with `n` left that has the name, 0 if none has. `fuel` is that of each
-- comparison; `none` means that it ran out.
unfoldable pub find_section : ℕ → Memory → ℕ → ℕ → ℕ → ℕ → ℕ → Option ℕ
find_section fuel m sht sh_names name zero i = some 0
find_section fuel m sht sh_names name (suc n) i =
    let rest = find_section fuel m sht sh_names name n (i + 1) in
    strcmp fuel m (u32 (sh_names + (section_at m sht i).sh_name)) name
    >>= (λ difference. if magnitude difference == 0 then some (sht + i * sizeof_shdr) else rest)

abbrev pub multiboot_info_elf_shdr : ℕ
multiboot_info_elf_shdr = 0x20

-- The fields of `multiboot_info_t` that the kernel reads, at their offsets.
abbrev pub mbi_flags : Memory → ℕ → ℕ
mbi_flags m mbi = word_at m mbi

abbrev pub mbi_num : Memory → ℕ → ℕ
mbi_num m mbi = word_at m (mbi + 28)

abbrev pub mbi_addr : Memory → ℕ → ℕ
mbi_addr m mbi = word_at m (mbi + 36)

abbrev pub mbi_shndx : Memory → ℕ → ℕ
mbi_shndx m mbi = word_at m (mbi + 40)

-- The loop over the sections from `i` on, with `n` rounds left.
unfoldable pub max_section_end : Memory → ℕ → ℕ → ℕ → ℕ → ℕ
max_section_end m sht zero i max_addr = max_addr
max_section_end m sht (suc n) i max_addr =
    let s = section_at m sht i in
    let section_end = u32 (s.sh_addr + s.sh_size) in
    max_section_end m sht n (i + 1) (if ltb max_addr section_end then section_end else max_addr)

unfoldable pub with_symtab : Memory → ℕ → Debug → Debug
with_symtab m hdr d =
    if not (hdr == 0)
    then record d {
      symbol_table = word_at m (hdr + 12);
      symbol_count = word_at m (hdr + 20) / sizeof_sym;
    }
    else say d no_symtab

unfoldable pub with_strtab : Memory → ℕ → Debug → Debug
with_strtab m hdr d =
    if not (hdr == 0)
    then record d { string_table = word_at m (hdr + 12); string_table_size = word_at m (hdr + 20) }
    else say d no_strtab

unfoldable pub set_initialized : Debug → Debug
set_initialized d =
    if not (d.symbol_table == 0) && not (d.string_table == 0)
    then say (say (record d { debug_initialized = true }) (symbols_initialized d.symbol_count))
        (sections_end d.elf_sections_end)
    else say d (incomplete d.symbol_table d.string_table)

abbrev pub page_up : ℕ → ℕ
page_up addr = bit_and (u32 (addr + 0xFFF)) (not32 0xFFF)

-- `kernel_end` is the address of `_kernel_sections_end`, and `symtab` and `strtab` are those of the two
-- literals with the names of the sections.
unfoldable pub debug_initialize : ℕ → ℕ → ℕ → ℕ → Memory → ℕ → Debug → Option Debug
debug_initialize fuel kernel_end symtab strtab m mbi d =
    let sht = mbi_addr m mbi in
    let sht_len = mbi_num m mbi in
    let sh_names = (section_at m sht (mbi_shndx m mbi)).sh_addr in
    if bit_and (mbi_flags m mbi) multiboot_info_elf_shdr == 0
    then some (say d no_elf)
    else if leb sht_len (mbi_shndx m mbi)
    then some (say d bad_index)
    else (find_section fuel m sht sh_names symtab sht_len 0 >>= (λ symtab_hdr.
        find_section fuel m sht sh_names strtab sht_len 0 >>= (λ strtab_hdr.
          let d = with_strtab m strtab_hdr (with_symtab m symtab_hdr d) in
          some (
            set_initialized (record d {
              elf_sections_end = page_up (max_section_end m sht sht_len 0 kernel_end);
            })))))
