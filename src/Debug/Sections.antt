-- ===== src/Debug/Sections.antt =====
-- What the kernel learns from the multiboot information.
use olympos.Prelude.{
  ℕ, zero, suc, ◌+◌, ◌-◌, ◌*◌, ◌/◌, ◌%◌, ◌^◌, ◌≤◌, ◌<◌, bit_and, true, false, not, ◌&&◌, some, List,
  ltb, leb, ◌==◌, if◌then◌else◌, u32, Memory, ◌≡◌, ◌≢◌, ◌⊎◌, inl, inr, refl, sym, ap, ◌∙◌, subst,
  arith, Bool-cases, ==_iff,
}
use native.Mathlib.Decide.{ℕ_discrete}
use olympos.Bits.Fields.{bit_and_high}
use olympos.Libc.Itoa.{codes}
use olympos.Libc.Strings.Text.{IsString}
use olympos.Debug.Find.{Named, find_returns}
use olympos.Debug.{
  Line, no_elf, bad_index, say, Elf32Shdr, section_at, Debug, multiboot_info_elf_shdr, mbi_flags,
  mbi_num, mbi_addr, mbi_shndx, max_section_end, with_symtab, with_strtab, set_initialized, page_up,
  debug_initialize,
}

abbrev pub end_of : Elf32Shdr → ℕ
end_of s = s.sh_addr + s.sh_size

-- No section reaches the last page of the address space.
abbrev pub Fits : Memory → ℕ → ℕ → Type 0
Fits m sht n = (k : ℕ) → k < n → end_of (section_at m sht k) < 2 ^ 32 - 4096

record Bounds (m : Memory) (sht i n low result : ℕ) : Type 0 where
  above : low ≤ result
  covers : (k : ℕ) → i ≤ k → k < i + n → end_of (section_at m sht k) ≤ result
  small : result < 2 ^ 32 - 4096
  reached : (result ≡ low) ⊎ ((k : ℕ) × (k < i + n) × (result ≡ end_of (section_at m sht k)))

max_section_end-Bounds :
    (m : Memory) (sht n i low : ℕ)
    → ((k : ℕ) → i ≤ k → k < i + n → end_of (section_at m sht k) < 2 ^ 32 - 4096)
    → low < 2 ^ 32 - 4096
    → Bounds m sht i n low (max_section_end m sht n i low)
unfolding max_section_end
max_section_end-Bounds m sht zero i low fit h = record {
  above = omega arith;
  covers = λ k l g. absurd (omega arith);
  small = h;
  reached = inl refl;
}
max_section_end-Bounds m sht (suc n) i low fit h =
    let e = u32 (end_of (section_at m sht i)) in
    let f = fit i (omega arith) (omega arith) in
    let rest =
      max_section_end-Bounds m sht n (i + 1) (if ltb low e then e else low)
        (λ k l g. fit k (omega arith) (omega arith)) (ground (arith, f)) in
    let up : (low ≤ (if ltb low e then e else low))
        × (end_of (section_at m sht i) ≤ (if ltb low e then e else low)) =
      (ground (arith, f), ground (arith, f)) in
    record {
      above = omega (arith, up.0, rest.above);
      covers = λ k l g. elim (ℕ_discrete i k) [
        | yes q ↦
            subst
              (λ j.
                end_of (section_at m sht j)
                ≤ max_section_end m sht n (i + 1) (if ltb low e then e else low))
              q (omega (arith, up.1, rest.above))
        | no q ↦ rest.covers k (omega arith) (omega arith)
      ];
      small = rest.small;
      reached = elim rest.reached [
        | inr (k, l, r) ↦ inr (k, omega (arith, l), r)
        | inl r ↦ elim (Bool-cases (ltb low e)) [
          | inl b ↦ inr (i, omega arith, r ∙ ground (arith, b, f))
          | inr b ↦ inl (r ∙ ground (arith, b))
        ]
      ];
    }

page_up_lem : (a : ℕ) → a < 2 ^ 32 - 4096 → page_up a ≡ (a + 4095) / 2 ^ 12 * 2 ^ 12
page_up_lem a h =
    bit_and_high 12 32 (u32 (a + 0xFFF)) (omega arith) (omega arith)
    ∙ ap (λ (x : ℕ). x / 2 ^ 12 * 2 ^ 12) (omega arith)

-- The kernel's sections end at the first page boundary that neither the kernel nor a section reaches
-- beyond: the kernel or a section ends less than a page before it.
pub record SectionsEnd (m : Memory) (kernel_end sht n result : ℕ) : Type 0 where
  pub aligned : result % 4096 ≡ 0
  pub above_kernel : kernel_end ≤ result
  pub above_sections : (k : ℕ) → k < n → end_of (section_at m sht k) ≤ result
  pub fits : result < 2 ^ 32
  pub reached :
      (result < kernel_end + 4096)
      ⊎ ((k : ℕ) × (k < n) × (result < end_of (section_at m sht k) + 4096))

sections_end :
    (m : Memory) (kernel_end sht n : ℕ)
    → Fits m sht n
    → kernel_end < 2 ^ 32 - 4096
    → SectionsEnd m kernel_end sht n (page_up (max_section_end m sht n 0 kernel_end))
sections_end m kernel_end sht n fit h =
    let b = max_section_end-Bounds m sht n 0 kernel_end (λ k l g. fit k (omega arith)) h in
    let e = page_up_lem (max_section_end m sht n 0 kernel_end) b.small in
    let s = b.small in
    record {
      aligned = omega (arith, e);
      above_kernel = omega (arith, e, b.above);
      above_sections = λ k l. omega (arith, e, b.covers k (omega arith) (omega arith));
      fits = omega (arith, e, s);
      reached = elim b.reached [
        | inl r ↦ inl (omega (arith, e, r))
        | inr (k, l, r) ↦ inr (k, omega (arith, l), omega (arith, e, r))
      ];
    }

-- What `debug_initialize` leaves behind where it gets to the sections.
pub record Initialized (m : Memory) (kernel_end mbi : ℕ) (before after : Debug) : Type 0 where
  pub sections : SectionsEnd m kernel_end (mbi_addr m mbi) (mbi_num m mbi) after.elf_sections_end
  pub tables :
      before.debug_initialized ≡ false
      → after.debug_initialized ≡ not (after.symbol_table == 0) && not (after.string_table == 0)

with_symtab-keeps :
    (m : Memory) (hdr : ℕ) (d : Debug)
    → (with_symtab m hdr d).debug_initialized ≡ d.debug_initialized
unfolding with_symtab
with_symtab-keeps m hdr d = ground arith

with_strtab-keeps :
    (m : Memory) (hdr : ℕ) (d : Debug)
    → (with_strtab m hdr d).debug_initialized ≡ d.debug_initialized
unfolding with_strtab
with_strtab-keeps m hdr d = ground arith

set_initialized_lem :
    (d : Debug)
    → ((set_initialized d).elf_sections_end ≡ d.elf_sections_end)
      × (d.debug_initialized ≡ false
          → (set_initialized d).debug_initialized
            ≡ not ((set_initialized d).symbol_table == 0)
              && not ((set_initialized d).string_table == 0))
unfolding set_initialized
set_initialized_lem d = elim (Bool-cases (not (d.symbol_table == 0) && not (d.string_table == 0))) [
  | inl e ↦ rw e (refl, λ h. sym e)
  | inr e ↦ rw e (refl, λ h. h ∙ sym e)
]

abbrev pub names_address : Memory → ℕ → ℕ
names_address m mbi = (section_at m (mbi_addr m mbi) (mbi_shndx m mbi)).sh_addr

-- The state before its last test.
abbrev located : Memory → ℕ → ℕ → ℕ → ℕ → Debug → Debug
located m kernel_end mbi symtab_hdr strtab_hdr d =
    record (with_strtab m strtab_hdr (with_symtab m symtab_hdr d)) {
      elf_sections_end = page_up (max_section_end m (mbi_addr m mbi) (mbi_num m mbi) 0 kernel_end);
    }

-- Without ELF information, or with an index of the name table beyond the sections, `debug_initialize` prints
-- a line and leaves everything else as it was: no symbols, and the old end of the sections.
pub debug_initialize_fails :
    (fuel kernel_end symtab strtab mbi : ℕ) (m : Memory) (d : Debug)
    → (bit_and (mbi_flags m mbi) multiboot_info_elf_shdr ≡ 0) ⊎ (mbi_num m mbi ≤ mbi_shndx m mbi)
    → (line : Line) × (debug_initialize fuel kernel_end symtab strtab m mbi d ≡ some (say d line))
unfolding debug_initialize
debug_initialize_fails fuel kernel_end symtab strtab mbi m d h =
    elim (Bool-cases (bit_and (mbi_flags m mbi) multiboot_info_elf_shdr == 0)) [
      | inl e ↦ (no_elf, rw e refl)
      | inr e ↦
          let b : leb (mbi_num m mbi) (mbi_shndx m mbi) ≡ true = elim h [
            | inl z ↦
                absurd (cc (e, (==_iff (bit_and (mbi_flags m mbi) multiboot_info_elf_shdr) 0).1 z))
            | inr z ↦ ground arith
          ] in
          (bad_index, rw (e, b) refl)
    ]

-- With ELF information whose section names are terminated strings, and with no section in the last page of the address space,
-- `debug_initialize` comes to an end: the end of the sections is the first page boundary that neither the
-- kernel nor a section reaches beyond, and symbols are marked as available just when both tables have an address.
pub debug_initialize_lem :
    (fuel kernel_end symtab strtab mbi : ℕ) (m : Memory) (d : Debug) (names : ℕ → List ℕ)
    → bit_and (mbi_flags m mbi) multiboot_info_elf_shdr ≢ 0
    → mbi_shndx m mbi < mbi_num m mbi
    → Named fuel m (mbi_addr m mbi) (names_address m mbi) (mbi_num m mbi) names
    → IsString m symtab (codes ".symtab")
    → IsString m strtab (codes ".strtab")
    → Fits m (mbi_addr m mbi) (mbi_num m mbi)
    → kernel_end < 2 ^ 32 - 4096
    → (after : Debug) × (debug_initialize fuel kernel_end symtab strtab m mbi d ≡ some after)
      × Initialized m kernel_end mbi d after
unfolding debug_initialize
debug_initialize_lem fuel kernel_end symtab strtab mbi m d names elf index v s t fit h =
    let a : bit_and (mbi_flags m mbi) multiboot_info_elf_shdr == 0 ≡ false = ground arith in
    let b : leb (mbi_num m mbi) (mbi_shndx m mbi) ≡ false = ground arith in
    let (symbols, e) =
      find_returns fuel m (mbi_addr m mbi) (names_address m mbi) symtab (mbi_num m mbi) names
        (codes ".symtab") v s in
    let (strings, f) =
      find_returns fuel m (mbi_addr m mbi) (names_address m mbi) strtab (mbi_num m mbi) names
        (codes ".strtab") v t in
    let q = set_initialized_lem (located m kernel_end mbi symbols strings d) in
    (
      set_initialized (located m kernel_end mbi symbols strings d),
      rw (a, b, e, f) refl,
      record {
        sections =
            subst (SectionsEnd m kernel_end (mbi_addr m mbi) (mbi_num m mbi)) (sym q.0)
              (sections_end m kernel_end (mbi_addr m mbi) (mbi_num m mbi) fit h);
        tables = λ k. q.1 (
            with_strtab-keeps m strings (with_symtab m symbols d)
            ∙ with_symtab-keeps m symbols d
            ∙ k);
      },
    )
