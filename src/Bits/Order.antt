-- ===== src/Bits/Order.antt =====
-- Size bounds on the bit operations, and the digits of a truncated word.
use olympos.Prelude.{ℕ, zero, suc, ◌-◌, ◌/◌, ◌%◌, ◌^◌, ◌<◌, bit_or, ◌≡◌, sym, ap, ap₂, ◌∙◌, arith}
use olympos.Bits.{bit, bit-lt, bit-bit_and, bit-zero, bit-complement}
use olympos.Bits.Step.{bit_or_step}
use olympos.Bits.Fields.{bit_and_mask, pow-pos}
use native.Mathlib.Nat.{pow-suc}

pub bit_or-lt : (k a b : ℕ) → a < 2 ^ k → b < 2 ^ k → bit_or a b < 2 ^ k
bit_or-lt zero a b p q =
    let e : a ≡ 0 = omega arith in let f : b ≡ 0 = omega arith in omega (arith, ap₂ bit_or e f)
bit_or-lt (suc k) a b p q = omega (
  arith,
  pow-suc 2 k,
  bit_or_step a b,
  bit_or-lt k (a / 2) (b / 2) (omega (arith, pow-suc 2 k)) (omega (arith, pow-suc 2 k)),
)

bit-ones : (j w : ℕ) → j < w → bit j (2 ^ w - 1) ≡ 1
bit-ones j w h =
    let e : 2 ^ w - 1 ≡ 2 ^ w - 1 - 0 = omega arith in
    ap (bit j) e ∙ bit-complement j w 0 h (pow-pos w) ∙ omega (arith, bit-zero j)

pub bit-mod : (j w x : ℕ) → j < w → bit j (x % 2 ^ w) ≡ bit j x
bit-mod j w x h =
    ap (bit j) (sym (bit_and_mask w x))
    ∙ bit-bit_and j x (2 ^ w - 1)
    ∙ omega (arith, bit-ones j w h, bit-lt j x)
