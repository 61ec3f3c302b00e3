-- ===== src/Interrupts/Isr.antt =====
-- kernel/arch/i386/isr.c: the table of exception handlers and its dispatcher.
use Prim.Native.String.{String}
use olympos.Prelude.{
  ℕ, ◌&&◌, Option, none, some, List, [], ◌∷◌, length, get_or, set, leb, ◌==◌, if◌then◌else◌, ℤ, pos,
  negsuc, in_range, to_index, ◌≡◌, refl, arith, get_or-set_self, get_or-set_ne,
}
use olympos.Interrupts.Regs.{Regs, Handler}

abbrev pub exception_messages : List String
exception_messages =
    "Division By Zero" ∷ "Debug" ∷ "Non Maskable Interrupt" ∷ "Breakpoint"
    ∷ "Into Detected Overflow" ∷ "Out of Bounds" ∷ "Invalid Opcode" ∷ "No Coprocessor"
    ∷ "Double Fault" ∷ "Coprocessor Segment Overrun" ∷ "Bad TSS" ∷ "Segment Not Present"
    ∷ "Stack Fault" ∷ "General Protection Fault" ∷ "Page Fault" ∷ "Unknown Interrupt"
    ∷ "Coprocessor Fault" ∷ "Alignment Check" ∷ "Machine Check" ∷ "Reserved" ∷ "Reserved"
    ∷ "Reserved" ∷ "Reserved" ∷ "Reserved" ∷ "Reserved" ∷ "Reserved" ∷ "Reserved" ∷ "Reserved"
    ∷ "Reserved" ∷ "Reserved" ∷ "Reserved" ∷ "Reserved" ∷ []

-- `isr_handlers`: 32 slots, `none` being NULL.
abbrev pub IsrTable : Type 0
IsrTable = List (Option Handler)

-- What a dispatch comes to: a call of a registered handler, or a panic, which does not return.
pub data Dispatch : Type 0 where
  called : Handler → Regs → Dispatch
  panic_number : ℕ → Dispatch
  panic_exception : ℕ → String → Dispatch

-- The status 0 or -1, and the table.
unfoldable pub register_isr : ℤ → Option Handler → IsrTable → ℤ × IsrTable
register_isr isr handler isr_handlers =
    if in_range isr 32
    then (pos 0, set isr_handlers (to_index isr) handler)
    else (negsuc 0, isr_handlers)

pub isr_handler : Regs → IsrTable → Dispatch
isr_handler r isr_handlers =
    if leb 32 r.int_no then panic_number r.int_no else elim (get_or isr_handlers r.int_no none) [
      | some handler ↦ called handler r
      | none ↦ panic_exception r.int_no (get_or exception_messages r.int_no "Unknown")
    ]

-- Registering a handler for exception `i` makes that exception call it, and leaves the dispatch of
-- every other interrupt as it was. A number out of range gets -1 and leaves the table alone.
pub isr_handler-register_isr :
    (isr : ℤ) (h : Handler) (r : Regs) (isr_handlers : IsrTable)
    → length isr_handlers ≡ 32
    → let (status, after) = register_isr isr (some h) isr_handlers in
      isr_handler r after ≡ (
        if in_range isr 32 && (to_index isr == r.int_no)
        then called h r
        else isr_handler r isr_handlers)
unfolding register_isr isr_handler
isr_handler-register_isr (negsuc n) h r isr_handlers size = refl
isr_handler-register_isr (pos i) h r isr_handlers size = ground (
  arith,
  get_or-set_self isr_handlers i (some h) none,
  get_or-set_ne isr_handlers i r.int_no (some h) none,
)
