-- ===== src/Bits/Fields.antt =====
-- Bit fields as arithmetic: masks are remainders, disjoint fields add up.
use olympos.Prelude.{
  ℕ, zero, suc, ◌+◌, ◌-◌, ◌*◌, ◌/◌, ◌%◌, ◌^◌, ◌≤◌, ◌<◌, bit_and, bit_or, ◌≡◌, ap, ap₂, ◌∙◌, arith,
}
use olympos.Bits.Step.{bit_or_step, bit_and_step}
use native.Mathlib.Nat.{pow-suc, one-le-pow, mod-eq_of_lt}

pub pow-pos : (k : ℕ) → 0 < 2 ^ k
pow-pos k = omega (arith, one-le-pow k 2)

scale : (q k : ℕ) → q * 2 ^ suc k ≡ q * 2 ^ k * 2
scale q k = omega (arith, ap (λ (t : ℕ). q * t) (pow-suc 2 k))

or_nothing : (n a : ℕ) → a ≤ n → bit_or a 0 ≡ a
or_nothing n zero h = omega (arith, bit_or_step 0 0)
or_nothing zero (suc a) h = absurd (omega arith)
or_nothing (suc n) (suc a) h =
    omega (arith, bit_or_step (suc a) 0, or_nothing n (suc a / 2) (omega arith))

nothing_or : (n a : ℕ) → a ≤ n → bit_or 0 a ≡ a
nothing_or n zero h = omega (arith, bit_or_step 0 0)
nothing_or zero (suc a) h = absurd (omega arith)
nothing_or (suc n) (suc a) h =
    omega (arith, bit_or_step 0 (suc a), nothing_or n (suc a / 2) (omega arith))

pub bit_or-zero : (a : ℕ) → bit_or a 0 ≡ a
bit_or-zero a = or_nothing a a (omega arith)

pub zero-bit_or : (a : ℕ) → bit_or 0 a ≡ a
zero-bit_or a = nothing_or a a (omega arith)

-- A high field and a low field do not meet.
pub bit_or_fields : (k q r : ℕ) → r < 2 ^ k → bit_or (q * 2 ^ k) r ≡ q * 2 ^ k + r
bit_or_fields zero q r fits =
    let e : r ≡ 0 = omega arith in
    ap (λ (t : ℕ). bit_or (q * 1) t) e ∙ omega (arith, or_nothing (q * 1) (q * 1) (omega arith))
bit_or_fields (suc k) q r fits =
    let h : q * 2 ^ suc k / 2 ≡ q * 2 ^ k = omega (arith, scale q k) in
    omega (
      arith,
      scale q k,
      bit_or_step (q * 2 ^ suc k) r,
      ap (λ (t : ℕ). bit_or t (r / 2)) h,
      bit_or_fields k q (r / 2) (omega (arith, pow-suc 2 k)),
    )

pub bit_or_fields_comm : (k q r : ℕ) → r < 2 ^ k → bit_or r (q * 2 ^ k) ≡ r + q * 2 ^ k
bit_or_fields_comm zero q r fits =
    let e : r ≡ 0 = omega arith in
    ap (λ (t : ℕ). bit_or t (q * 1)) e ∙ omega (arith, nothing_or (q * 1) (q * 1) (omega arith))
bit_or_fields_comm (suc k) q r fits =
    let h : q * 2 ^ suc k / 2 ≡ q * 2 ^ k = omega (arith, scale q k) in
    omega (
      arith,
      scale q k,
      bit_or_step r (q * 2 ^ suc k),
      ap (λ (t : ℕ). bit_or (r / 2) t) h,
      bit_or_fields_comm k q (r / 2) (omega (arith, pow-suc 2 k)),
    )

and_nothing : (n a : ℕ) → a ≤ n → bit_and a 0 ≡ 0
and_nothing n zero h = omega (arith, bit_and_step 0 0)
and_nothing zero (suc a) h = absurd (omega arith)
and_nothing (suc n) (suc a) h =
    omega (arith, bit_and_step (suc a) 0, and_nothing n (suc a / 2) (omega arith))

mask_fields : (k q r : ℕ) → r < 2 ^ k → bit_and (q * 2 ^ k + r) (2 ^ k - 1) ≡ r
mask_fields zero q r fits =
    let e : r ≡ 0 = omega arith in omega (arith, and_nothing (q * 1 + r) (q * 1 + r) (omega arith))
mask_fields (suc k) q r fits =
    let h : (2 ^ suc k - 1) / 2 ≡ 2 ^ k - 1 = omega (arith, pow-suc 2 k, pow-pos k) in
    let g : (q * 2 ^ suc k + r) / 2 ≡ q * 2 ^ k + r / 2 = omega (arith, scale q k) in
    omega (
      arith,
      pow-suc 2 k,
      pow-pos k,
      scale q k,
      bit_and_step (q * 2 ^ suc k + r) (2 ^ suc k - 1),
      ap₂ bit_and g h,
      mask_fields k q (r / 2) (omega (arith, pow-suc 2 k)),
    )

-- `a & (2^k - 1)`.
pub bit_and_mask : (k a : ℕ) → bit_and a (2 ^ k - 1) ≡ a % 2 ^ k
bit_and_mask k a =
    let e : a ≡ a / 2 ^ k * 2 ^ k + a % 2 ^ k = omega arith in
    let l : a % 2 ^ k < 2 ^ k = omega (arith, pow-pos k) in
    ap (λ (t : ℕ). bit_and t (2 ^ k - 1)) e ∙ mask_fields k (a / 2 ^ k) (a % 2 ^ k) l

high_fields :
    (k w q r : ℕ)
    → k ≤ w
    → r < 2 ^ k
    → q * 2 ^ k + r < 2 ^ w
    → bit_and (q * 2 ^ k + r) (2 ^ w - 2 ^ k) ≡ q * 2 ^ k
high_fields zero w q r h fits l =
    let e : q * 1 + r ≡ q = omega arith in
    let m : q % 2 ^ w ≡ q = mod-eq_of_lt (omega arith) in
    ap (λ (t : ℕ). bit_and t (2 ^ w - 1)) e ∙ bit_and_mask w q ∙ m ∙ omega arith
high_fields (suc k) zero q r h fits l = absurd (omega arith)
high_fields (suc k) (suc w) q r h fits l =
    let e : (2 ^ suc w - 2 ^ suc k) / 2 ≡ 2 ^ w - 2 ^ k = omega (arith, pow-suc 2 w, pow-suc 2 k) in
    let g : (q * 2 ^ suc k + r) / 2 ≡ q * 2 ^ k + r / 2 = omega (arith, scale q k) in
    let f : r / 2 < 2 ^ k = omega (arith, pow-suc 2 k) in
    let b : q * 2 ^ k + r / 2 < 2 ^ w = omega (arith, scale q k, pow-suc 2 w) in
    omega (
      arith,
      pow-suc 2 k,
      pow-suc 2 w,
      scale q k,
      bit_and_step (q * 2 ^ suc k + r) (2 ^ suc w - 2 ^ suc k),
      ap₂ bit_and g e,
      high_fields k w q (r / 2) (omega arith) f b,
    )

-- `x & ~(2^k - 1)` in a word of `w` bits.
pub bit_and_high : (k w x : ℕ) → k ≤ w → x < 2 ^ w → bit_and x (2 ^ w - 2 ^ k) ≡ x / 2 ^ k * 2 ^ k
bit_and_high k w x h l =
    let e : x ≡ x / 2 ^ k * 2 ^ k + x % 2 ^ k = omega arith in
    let m : x % 2 ^ k < 2 ^ k = omega (arith, pow-pos k) in
    ap (λ (t : ℕ). bit_and t (2 ^ w - 2 ^ k)) e
    ∙ high_fields k w (x / 2 ^ k) (x % 2 ^ k) h m (omega arith)
