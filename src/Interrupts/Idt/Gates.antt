-- ===== src/Interrupts/Idt/Gates.antt =====
-- What the processor finds in the table that `idt_init` loads.
use olympos.Prelude.{
  ℕ, zero, suc, ◌+◌, ◌-◌, ◌*◌, ◌/◌, ◌^◌, ◌≤◌, ◌<◌, ◌&&◌, if◌then◌else◌, ltb, leb, List, length,
  replicate, set, get_or, bit_and, ◌≡◌, inl, inr, Bool-cases, subst, refl, sym, ap, ◌∙◌, arith, u16,
  length-set, length-replicate, get_or-set_self, get_or-set_ne, get_or-replicate,
}
use native.Mathlib.Decide.{ℕ_discrete}
use olympos.Bits.Fields.{bit_and_mask}
use olympos.Interrupts.Idt.{
  idt_num_entries, IdtEntry, Idt, zero_entry, idt_set_gate, set_gates, idt_init, flags_int_gate,
  kernel_code_selector,
}

-- The address that the processor takes out of an entry.
abbrev pub offset : IdtEntry → ℕ
offset e = e.base_hi * 2 ^ 16 + e.base_lo

-- An entry that calls the code at `base` through the kernel's code segment, as an interrupt gate.
abbrev pub IsGate : ℕ → IdtEntry → Type 0
IsGate base e =
    (offset e ≡ base)
    × (e.selector ≡ kernel_code_selector)
    × (e.zero_byte ≡ 0)
    × (e.type_attr ≡ flags_int_gate)

unfoldable gate : ℕ → IdtEntry
gate base = record {
  base_lo = u16 (bit_and base 0xFFFF);
  selector = kernel_code_selector;
  zero_byte = 0;
  type_attr = flags_int_gate;
  base_hi = u16 (bit_and (base / 2 ^ 16) 0xFFFF);
}

gate-IsGate : (base : ℕ) → base < 2 ^ 32 → IsGate base (gate base)
unfolding gate
gate-IsGate base fits =
    (omega (arith, bit_and_mask 16 base, bit_and_mask 16 (base / 2 ^ 16)), refl, refl, refl)

length-set_gates :
    (count first : ℕ) (stub : ℕ → ℕ) (idt : List IdtEntry)
    → length (set_gates count first stub idt) ≡ length idt
unfolding set_gates idt_set_gate
length-set_gates zero first stub idt = refl
length-set_gates (suc count) first stub idt =
    length-set (set_gates count first stub idt) (first + count) _
    ∙ length-set_gates count first stub idt

get_or-set_gates :
    (count first k : ℕ) (stub : ℕ → ℕ) (idt : List IdtEntry)
    → first + count ≤ length idt
    → get_or (set_gates count first stub idt) k zero_entry ≡ (
        if leb first k && ltb k (first + count)
        then gate (stub (k - first))
        else get_or idt k zero_entry)
unfolding set_gates idt_set_gate gate
get_or-set_gates zero first k stub idt h = ground arith
get_or-set_gates (suc count) first k stub idt h = elim (ℕ_discrete (first + count) k) [
  | yes e ↦
      let f : count ≡ k - first = omega arith in
      ap
        (λ (t : ℕ).
          get_or (set (set_gates count first stub idt) (first + count) (gate (stub count))) t
            zero_entry)
        (sym e)
      ∙ get_or-set_self (set_gates count first stub idt) (first + count) (gate (stub count))
          zero_entry (omega (arith, length-set_gates count first stub idt))
      ∙ ap (λ (t : ℕ). gate (stub t)) f
      ∙ ground arith
  | no ne ↦
      get_or-set_ne (set_gates count first stub idt) (first + count) k (gate (stub count))
        zero_entry ne
      ∙ get_or-set_gates count first k stub idt (omega arith)
      ∙ ground arith
]

choose :
    (k : ℕ) (a b c m z : IdtEntry)
    → m ≡ (if leb 0 k && ltb k 32 then a else c)
    → c ≡ z
    → (if leb 32 k && ltb k 48 then b else m) ≡ (if ltb k 32 then a else if ltb k 48 then b else z)
choose k a b c m z e f = ground arith

module _ (isr irq : ℕ → ℕ) (address : ℕ) (st : Idt) (k : ℕ) where
  abbrev cleared : List IdtEntry
  cleared = replicate idt_num_entries zero_entry

  after_init :
      get_or (idt_init isr irq address st).idt k zero_entry
      ≡ (if ltb k 32 then gate (isr k) else if ltb k 48 then gate (irq (k - 32)) else zero_entry)
  unfolding idt_init
  after_init =
      let size = length-replicate idt_num_entries zero_entry in
      get_or-set_gates 16 32 k irq (set_gates 32 0 isr cleared)
        (omega (arith, length-set_gates 32 0 isr cleared, size))
      ∙ choose k (gate (isr k)) (gate (irq (k - 32))) (get_or cleared k zero_entry) _ zero_entry
          (get_or-set_gates 32 0 k isr cleared (omega (arith, size))
            ∙ ap
                (λ (t : ℕ).
                  if leb 0 k && ltb k 32 then gate (isr t) else get_or cleared k zero_entry)
                (omega arith))
          (get_or-replicate idt_num_entries k zero_entry)

-- The entry of a vector in a table that `idt_init` filled.
abbrev pub Loaded : (ℕ → ℕ) → (ℕ → ℕ) → ℕ → IdtEntry → Type 0
Loaded isr irq k e =
    if ltb k 32
    then IsGate (isr k) e
    else if ltb k 48
    then IsGate (irq (k - 32)) e
    else (e ≡ zero_entry)

-- `idt_init` gives each vector up to 31 the stub of its exception, each of the 16 vectors behind
-- them the stub of its IRQ, and leaves every other entry empty. The stubs are code at addresses of
-- 32 bits.
pub idt_init-Loaded :
    (isr irq : ℕ → ℕ) (address : ℕ) (st : Idt) (k : ℕ)
    → isr k < 2 ^ 32
    → irq (k - 32) < 2 ^ 32
    → Loaded isr irq k (get_or (idt_init isr irq address st).idt k zero_entry)
idt_init-Loaded isr irq address st k fits fits_irq =
    subst (Loaded isr irq k) (sym (after_init isr irq address st k)) loaded
  where
    loaded :
        Loaded isr irq k
          (if ltb k 32 then gate (isr k) else if ltb k 48 then gate (irq (k - 32)) else zero_entry)
    loaded = elim (Bool-cases (ltb k 32)) [
      | inl e ↦ rw e (gate-IsGate (isr k) fits)
      | inr e ↦ elim (Bool-cases (ltb k 48)) [
        | inl f ↦ rw (e, f) (gate-IsGate (irq (k - 32)) fits_irq)
        | inr f ↦ rw (e, f) refl
      ]
    ]
