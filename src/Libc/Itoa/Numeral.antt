-- ===== src/Libc/Itoa/Numeral.antt =====
-- The numeral of a number in a base, and what a numeral reads back as.
use olympos.Prelude.{
  ℕ, zero, suc, ◌+◌, ◌-◌, ◌*◌, ◌/◌, ◌%◌, ◌^◌, ◌≤◌, ◌<◌, List, [], ◌∷◌, ltb, ◌==◌, if◌then◌else◌,
  ◌≡◌, ap, length, ◌∙◌, arith, Bool-cases, inl, inr, ==_iff,
}
use mathlib.Core.List.{reverse, reverse-reverse}
use native.Mathlib.Nat.{pow-suc, div-add-mod, mul-le-mul_right}
use olympos.Libc.Itoa.Reverse.{length-reverse}

-- The character of a digit, `0` to `9` and then `a` to `z`, and the digit that a character stands for.
abbrev pub digit_char : ℕ → ℕ
digit_char k = if ltb k 10 then 48 + k else 87 + k

abbrev pub digit_value : ℕ → ℕ
digit_value c = if ltb c 58 then c - 48 else c - 87

digit_value-digit_char : (k : ℕ) → digit_value (digit_char k) ≡ k
digit_value-digit_char k = ground arith

-- The digits of a number as characters, the lowest one first.
unfoldable pub digits_up : ℕ → ℕ → ℕ → List ℕ
digits_up zero base n = []
digits_up (suc fuel) base n =
    let rest = digits_up fuel base (n / base) in
    digit_char (n % base) ∷ (if n / base == 0 then [] else rest)

-- The numeral of a number, the highest digit first and without leading zeros; 33 digits are enough below
-- 2^33.
unfoldable pub numeral : ℕ → ℕ → List ℕ
numeral base n = reverse (digits_up 33 base n)

digits_up-length : (fuel base n : ℕ) → length (digits_up fuel base n) ≤ fuel
unfolding digits_up
digits_up-length zero base n = omega arith
digits_up-length (suc fuel) base n = elim (Bool-cases (n / base == 0)) [
  | inl e ↦ rw e (omega arith)
  | inr e ↦ rw e (omega (arith, digits_up-length fuel base (n / base)))
]

pub length-numeral : (base n : ℕ) → length (numeral base n) ≤ 33
unfolding numeral
length-numeral base n =
    let h = digits_up-length 33 base n in
    let e = length-reverse (digits_up 33 base n) in omega (arith, h, e)

-- The number of a row of digits, the lowest one first.
abbrev pub weigh : ℕ → List ℕ → ℕ
weigh base [] = 0
weigh base (c ∷ cs) = digit_value c + base * weigh base cs

-- The number of a numeral as it is read, the highest digit first.
abbrev pub numeral_value : ℕ → List ℕ → ℕ
numeral_value base s = weigh base (reverse s)

pub positive : (fuel n : ℕ) → 0 < n → n < 2 ^ fuel → 0 < fuel
positive zero n h k = absurd (omega arith)
positive (suc fuel) n h k = omega arith

weigh-digits_up :
    (fuel base n : ℕ) → 2 ≤ base → 0 < fuel → n < 2 ^ fuel → weigh base (digits_up fuel base n) ≡ n
unfolding digits_up
weigh-digits_up zero base n low some_fuel small = absurd (omega arith)
weigh-digits_up (suc fuel) base n low some_fuel small =
    let v = digit_value-digit_char (n % base) in
    let m = div-add-mod n base in
    elim (Bool-cases (n / base == 0)) [
      | inl e ↦
          let z : n / base ≡ 0 = (==_iff _ 0).0 e in
          rw e (omega (arith, v, m, ap (λ (k : ℕ). base * k) z))
      | inr e ↦
          let h : 2 * (n / base) ≤ n = omega (arith, m, mul-le-mul_right (n / base) low) in
          let s : n / base < 2 ^ fuel = omega (arith, h, pow-suc 2 fuel, small) in
          let p : 0 < n / base = ground arith in
          let r = weigh-digits_up fuel base (n / base) low (positive fuel (n / base) p s) s in
          rw e (omega (arith, v, m, ap (λ (k : ℕ). base * k) r))
    ]

-- A numeral reads back as its number.
pub numeral_value-numeral :
    (base n : ℕ) → 2 ≤ base → n < 2 ^ 33 → numeral_value base (numeral base n) ≡ n
unfolding numeral
numeral_value-numeral base n low small =
    ap (weigh base) (reverse-reverse (digits_up 33 base n))
    ∙ weigh-digits_up 33 base n low (omega arith) small
