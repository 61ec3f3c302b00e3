-- ===== src/Interrupts/Idt.antt =====
-- kernel/arch/i386/idt.c: the interrupt descriptor table. The addresses of the assembly stubs and of
-- the table are arguments.
pub mod Gates
use olympos.Prelude.{
  ℕ, zero, suc, ◌+◌, ◌-◌, ◌*◌, ◌/◌, ◌^◌, Bool, true, List, replicate, set, bit_and, u16, u32,
}
use olympos.Io.{Accesses}
use olympos.Interrupts.Pic.{pic_remap}

abbrev pub idt_num_entries : ℕ
idt_num_entries = 256

pub record IdtEntry : Type 0 where
  pub base_lo : ℕ
  pub selector : ℕ
  pub zero_byte : ℕ
  pub type_attr : ℕ
  pub base_hi : ℕ

pub record IdtRegister : Type 0 where
  pub limit : ℕ
  pub base : ℕ

-- `idt`, `idtr`, the register that `lidt` loaded, the port accesses and the interrupt flag.
pub record Idt : Type 0 where
  pub idt : List IdtEntry
  pub idtr : IdtRegister
  pub log : Accesses
  pub enabled : Bool

abbrev pub zero_entry : IdtEntry
zero_entry = record { base_lo = 0; selector = 0; zero_byte = 0; type_attr = 0; base_hi = 0 }

unfoldable pub idt_set_gate : ℕ → ℕ → ℕ → ℕ → List IdtEntry → List IdtEntry
idt_set_gate num base sel flags idt = set idt num (record {
  base_lo = u16 (bit_and base 0xFFFF);
  selector = sel;
  zero_byte = 0;
  type_attr = flags;
  base_hi = u16 (bit_and (base / 2 ^ 16) 0xFFFF);
})

abbrev pub flags_int_gate : ℕ
flags_int_gate = 0x8E

abbrev pub kernel_code_selector : ℕ
kernel_code_selector = 1 * 2 ^ 3

-- The calls for `count` vectors from `first` on, in their order: the stub of the vector `first + i`
-- is `stub i`.
pub set_gates : ℕ → ℕ → (ℕ → ℕ) → List IdtEntry → List IdtEntry
set_gates zero first stub idt = idt
set_gates (suc count) first stub idt =
    idt_set_gate (first + count) (stub count) kernel_code_selector flags_int_gate
      (set_gates count first stub idt)

pub idt_init : (ℕ → ℕ) → (ℕ → ℕ) → ℕ → Idt → Idt
idt_init isr irq address st =
    let cleared : List IdtEntry = replicate idt_num_entries zero_entry in
    let exceptions = set_gates 32 0 isr cleared in
    record {
      log = pic_remap 0x20 0x28 st.log;
      idt = set_gates 16 32 irq exceptions;
      idtr = record { limit = u16 (8 * idt_num_entries - 1); base = u32 address };
      enabled = true;
    }
