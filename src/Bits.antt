-- ===== src/Bits.antt =====
-- The digits of a number, and what the bit operations of C do to each digit.
pub mod Step
pub mod Fields
pub mod Order
use olympos.Prelude.{
  ℕ, zero, suc, ◌+◌, ◌-◌, ◌*◌, ◌/◌, ◌%◌, ◌^◌, ◌≤◌, ◌<◌, min, max, bit_and, bit_or, ◌≡◌, ◌≢◌, refl,
  ap, ◌∙◌, arith,
}
use olympos.Bits.Step.{bit_or_step, bit_and_step}
use native.Mathlib.Nat.{pow-suc, one-le-pow}

-- Digit `k` of `x`, lowest first.
abbrev pub bit : ℕ → ℕ → ℕ
bit zero x = x % 2
bit (suc k) x = bit k (x / 2)

pub bit-lt : (k x : ℕ) → bit k x < 2
bit-lt zero x = omega arith
bit-lt (suc k) x = bit-lt k (x / 2)

pub bit-bit_or : (k a b : ℕ) → bit k (bit_or a b) ≡ max (bit k a) (bit k b)
bit-bit_or zero a b = omega (arith, bit_or_step a b)
bit-bit_or (suc k) a b =
    let e : bit_or a b / 2 ≡ bit_or (a / 2) (b / 2) = omega (arith, bit_or_step a b) in
    ap (bit k) e ∙ bit-bit_or k (a / 2) (b / 2)

pub bit-bit_and : (k a b : ℕ) → bit k (bit_and a b) ≡ min (bit k a) (bit k b)
bit-bit_and zero a b = omega (arith, bit_and_step a b)
bit-bit_and (suc k) a b =
    let e : bit_and a b / 2 ≡ bit_and (a / 2) (b / 2) = omega (arith, bit_and_step a b) in
    ap (bit k) e ∙ bit-bit_and k (a / 2) (b / 2)

half_pow : (k : ℕ) → 2 ^ suc k / 2 ≡ 2 ^ k
half_pow k = omega (arith, pow-suc 2 k)

pub bit-zero : (k : ℕ) → bit k 0 ≡ 0
bit-zero zero = refl
bit-zero (suc k) = bit-zero k

pub bit-pow_self : (k : ℕ) → bit k (2 ^ k) ≡ 1
bit-pow_self zero = refl
bit-pow_self (suc k) = ap (bit k) (half_pow k) ∙ bit-pow_self k

pub bit-pow_ne : (j k : ℕ) → j ≢ k → bit j (2 ^ k) ≡ 0
bit-pow_ne zero zero h = absurd (h refl)
bit-pow_ne zero (suc k) h = omega (arith, pow-suc 2 k)
bit-pow_ne (suc j) zero h = bit-zero j
bit-pow_ne (suc j) (suc k) h = ap (bit j) (half_pow k) ∙ bit-pow_ne j k (λ e. h (ap suc e))

-- The complement in a word of `w` digits.
pub bit-complement : (j w x : ℕ) → j < w → x < 2 ^ w → bit j (2 ^ w - 1 - x) ≡ 1 - bit j x
bit-complement zero zero x h l = absurd (omega arith)
bit-complement (suc j) zero x h l = absurd (omega arith)
bit-complement zero (suc w) x h l = omega (arith, pow-suc 2 w)
bit-complement (suc j) (suc w) x h l =
    let e : (2 ^ suc w - 1 - x) / 2 ≡ 2 ^ w - 1 - x / 2 = omega (arith, pow-suc 2 w) in
    ap (bit j) e ∙ bit-complement j w (x / 2) (omega arith) (omega (arith, pow-suc 2 w))

bit_and-zero : (n a : ℕ) → a ≤ n → bit_and a 0 ≡ 0
bit_and-zero n zero h = omega (arith, bit_and_step 0 0)
bit_and-zero zero (suc a) h = absurd (omega arith)
bit_and-zero (suc n) (suc a) h =
    omega (arith, bit_and_step (suc a) 0, bit_and-zero n (suc a / 2) (omega arith))

-- `x & (1 << k)` is the digit at its place.
pub bit_and-pow : (k x : ℕ) → bit_and x (2 ^ k) ≡ bit k x * 2 ^ k
bit_and-pow zero x = omega (arith, bit_and_step x 1, bit_and-zero (x / 2) (x / 2) (omega arith))
bit_and-pow (suc k) x = omega (
  arith,
  pow-suc 2 k,
  bit_and_step x (2 ^ suc k),
  ap (λ (t : ℕ). bit_and (x / 2) t) (half_pow k),
  bit_and-pow k (x / 2),
  ap (λ (t : ℕ). bit k (x / 2) * t) (pow-suc 2 k),
)
