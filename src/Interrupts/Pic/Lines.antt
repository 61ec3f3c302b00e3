-- ===== src/Interrupts/Pic/Lines.antt =====
-- What the driver does to each line of the controllers.
use olympos.Prelude.{
  ℕ, ◌-◌, ◌^◌, ◌<◌, bit_and, bit_or, if◌then◌else◌, ◌==◌, ◌∷◌, ◌≡◌, ◌≢◌, sym, ap, ◌∙◌, arith, u8,
  not32,
}
use native.Mathlib.Decide.{ℕ_discrete}
use olympos.Bits.{bit, bit-lt, bit-bit_or, bit-bit_and, bit-pow_self, bit-pow_ne, bit-complement}
use olympos.Bits.Order.{bit-mod}
use olympos.Bitmap.{pow-lt-pow}
use olympos.Io.{input, output, Accesses, Device}
use olympos.Interrupts.Pic.{port_of, line_of, pic_unmask, pic_mask}

-- A mask register of the 8259A: reading it gives the byte that was last written to it, and a write to
-- one controller leaves the other's mask as it was. It is so once the controllers are initialised.
pub record KeepsMasks (device : Device) (log : Accesses) : Type 0 where
  pub own : (port v : ℕ) → v < 256 → device (output port v ∷ input port ∷ log) port ≡ v
  pub other :
      (irq k v : ℕ)
      → port_of irq ≢ port_of k
      → device (output (port_of irq) v ∷ input (port_of irq) ∷ log) (port_of k)
        ≡ device log (port_of k)

-- The digit of line `k` in the mask register: 1 for a line that is disabled.
abbrev pub masked : Device → Accesses → ℕ → ℕ
masked device log k = bit (line_of k) (device log (port_of k))

mask_value : (j l x : ℕ) → j < 8 → bit j (u8 (bit_or x (2 ^ l))) ≡ (if j == l then 1 else bit j x)
mask_value j l x h = elim (ℕ_discrete j l) [
  | yes e ↦
      let b : bit j (2 ^ l) ≡ 1 = ap (λ (t : ℕ). bit j (2 ^ t)) (sym e) ∙ bit-pow_self j in
      bit-mod j 8 _ h ∙ bit-bit_or j x (2 ^ l) ∙ ground (arith, b, bit-lt j x)
  | no ne ↦ bit-mod j 8 _ h ∙ bit-bit_or j x (2 ^ l) ∙ ground (arith, bit-pow_ne j l ne, bit-lt j x)
]

unmask_value :
    (j l x : ℕ)
    → j < 8
    → l < 8
    → bit j (u8 (bit_and x (not32 (2 ^ l)))) ≡ (if j == l then 0 else bit j x)
unmask_value j l x h g =
    let c : bit j (not32 (2 ^ l)) ≡ 1 - bit j (2 ^ l) =
      bit-complement j 32 (2 ^ l) (omega arith) (pow-lt-pow l 32 (omega arith)) in
    elim (ℕ_discrete j l) [
      | yes e ↦
          let b : bit j (2 ^ l) ≡ 1 = ap (λ (t : ℕ). bit j (2 ^ t)) (sym e) ∙ bit-pow_self j in
          bit-mod j 8 _ h ∙ bit-bit_and j x (not32 (2 ^ l)) ∙ ground (arith, b, c, bit-lt j x)
      | no ne ↦
          bit-mod j 8 _ h
          ∙ bit-bit_and j x (not32 (2 ^ l))
          ∙ ground (arith, c, bit-pow_ne j l ne, bit-lt j x)
    ]

module _ (device : Device) (log : Accesses) (irq k v : ℕ) (keeps : KeepsMasks device log)
    (fits : v < 256) where
  -- What a driver's write to the mask register of `irq` makes of line `k`.
  masked_after :
      masked device (output (port_of irq) v ∷ input (port_of irq) ∷ log) k
      ≡ (if port_of irq == port_of k then bit (line_of k) v else masked device log k)
  masked_after = elim (ℕ_discrete (port_of irq) (port_of k)) [
    | yes e ↦
        ap (bit (line_of k)) (
          ap (device (output (port_of irq) v ∷ input (port_of irq) ∷ log)) (sym e)
          ∙ keeps.own (port_of irq) v fits)
        ∙ ground (arith, e)
    | no ne ↦ ap (bit (line_of k)) (keeps.other irq k v ne) ∙ ground (arith, ne)
  ]

line_of-lt : (irq : ℕ) → irq < 16 → line_of irq < 8
line_of-lt irq h = ground arith

-- On controllers that keep their masks, masking a line of the 16 disables it and leaves every other
-- line as it was.
pub masked-pic_mask :
    (device : Device) (log : Accesses) (irq k : ℕ)
    → KeepsMasks device log
    → irq < 16
    → k < 16
    → masked device (pic_mask device irq log) k ≡ (if irq == k then 1 else masked device log k)
unfolding pic_mask
masked-pic_mask device log irq k keeps h g =
    masked_after device log irq k (u8 (bit_or (device log (port_of irq)) (2 ^ line_of irq))) keeps
      (omega arith)
    ∙ ground
        (arith, mask_value (line_of k) (line_of irq) (device log (port_of irq)) (line_of-lt k g))

-- On controllers that keep their masks, unmasking a line of the 16 enables it and leaves every other
-- line as it was.
pub masked-pic_unmask :
    (device : Device) (log : Accesses) (irq k : ℕ)
    → KeepsMasks device log
    → irq < 16
    → k < 16
    → masked device (pic_unmask device irq log) k ≡ (if irq == k then 0 else masked device log k)
unfolding pic_unmask
masked-pic_unmask device log irq k keeps h g =
    masked_after device log irq k
      (u8 (bit_and (device log (port_of irq)) (not32 (2 ^ line_of irq)))) keeps (omega arith)
    ∙ ground (
      arith,
      unmask_value (line_of k) (line_of irq) (device log (port_of irq)) (line_of-lt k g)
          (line_of-lt irq h),
    )
