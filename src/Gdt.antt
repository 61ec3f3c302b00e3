-- ===== src/Gdt.antt =====
-- kernel/arch/i386/gdt.c and include/gdt.h: the segment descriptors and the task state segment.
-- The addresses of the objects and of the stack are arguments.
pub mod Segments
use olympos.Prelude.{ℕ, ◌+◌, ◌-◌, ◌*◌, ◌/◌, ◌^◌, List, set, bit_and, bit_or, u8, u16, u32}

pub record GdtEntry : Type 0 where
  pub limit_lo : ℕ
  pub base_lo : ℕ
  pub base_mi : ℕ
  pub access : ℕ
  pub limit_hi_flags : ℕ
  pub base_hi : ℕ

pub record GdtRegister : Type 0 where
  pub boundary : ℕ
  pub base : ℕ

-- The fields that the kernel sets; `memset` leaves 0 in every other field, here `rest`.
pub record TssEntry : Type 0 where
  pub esp0 : ℕ
  pub ss0 : ℕ
  pub iomap_base : ℕ
  pub rest : ℕ

pub record Gdt : Type 0 where
  pub gdt : List GdtEntry
  pub gdtr : GdtRegister
  pub tss : TssEntry

abbrev pub num_segments : ℕ
num_segments = 6

abbrev pub sizeof_tss : ℕ
sizeof_tss = 104

abbrev pub kernel_cs : ℕ
kernel_cs = bit_or (1 * 2 ^ 3) 0

abbrev pub kernel_ds : ℕ
kernel_ds = bit_or (2 * 2 ^ 3) 0

unfoldable pub gdt_set_entry : ℕ → ℕ → ℕ → ℕ → ℕ → List GdtEntry → List GdtEntry
gdt_set_entry idx base limit access flags gdt = set gdt idx (record {
  limit_lo = u16 (bit_and limit 0xFFFF);
  base_lo = u16 (bit_and base 0xFFFF);
  base_mi = u8 (bit_and (base / 2 ^ 16) 0xFF);
  access = u8 access;
  limit_hi_flags = u8 (bit_or (u8 (bit_and (limit / 2 ^ 16) 0x0F)) (u8 (bit_and flags 0xF0)));
  base_hi = u8 (bit_and (base / 2 ^ 24) 0xFF);
})

unfoldable pub tss_init : ℕ → ℕ → Gdt → Gdt
tss_init tss_address stack_top st = record {
  gdt = gdt_set_entry 5 tss_address sizeof_tss 0x89 0x00 st.gdt;
  gdtr = st.gdtr;
  tss = record { esp0 = u32 stack_top; ss0 = kernel_ds; iomap_base = sizeof_tss; rest = 0 };
}

unfoldable pub gdt_init : ℕ → ℕ → ℕ → Gdt → Gdt
gdt_init gdt_address tss_address stack_top st =
    let gdt = gdt_set_entry 0 0 0 0 0 st.gdt in
    let gdt = gdt_set_entry 1 0 0xFFFFF 0x9A 0xC0 gdt in
    let gdt = gdt_set_entry 2 0 0xFFFFF 0x92 0xC0 gdt in
    let gdt = gdt_set_entry 3 0 0xFFFFF 0xFA 0xC0 gdt in
    let gdt = gdt_set_entry 4 0 0xFFFFF 0xF2 0xC0 gdt in
    let gdtr : GdtRegister = record { boundary = 8 * num_segments - 1; base = u32 gdt_address } in
    tss_init tss_address stack_top (record st { gdt = gdt; gdtr = gdtr })
