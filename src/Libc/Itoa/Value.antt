-- ===== src/Libc/Itoa/Value.antt =====
-- The numeral that `itoa` writes stands for its value.
use olympos.Prelude.{
  ℕ, zero, suc, ◌+◌, ◌-◌, ◌*◌, ◌/◌, ◌%◌, ◌^◌, ◌≤◌, ◌<◌, Bool, true, false, ◌&&◌, Option, some, List,
  [], ◌∷◌, ◌++◌, get_or, ◌==◌, if◌then◌else◌, ◌≡◌, refl, sym, ap, ap₂, length, ◌≢◌, ◌⊎◌, ◌∙◌, arith,
  ℤ, pos, negsuc, Bool-cases, inl, inr, ==_iff,
}
use mathlib.Core.List.{reverse, reverse-append}
use native.Mathlib.Decide.{ℕ_discrete}
use native.Mathlib.Nat.{pow-suc, div-add-mod, mul-le-mul_right, mod-lt}
use olympos.Libc.Itoa.{
  digit_table, quotient, table_index, is_zero, is_negative, digits_of, rounds, is_valid_base, itoa,
}
use olympos.Libc.Itoa.Numeral.{
  digit_char, digits_up, numeral, length-numeral, numeral_value, positive, numeral_value-numeral,
}
use olympos.Libc.Itoa.Reverse.{swap_ends-reverse}

abbrev pub magnitude : ℤ → ℕ
magnitude (pos n) = n
magnitude (negsuc n) = n + 1

pub magnitude-zero : (z : ℤ) → magnitude z ≡ 0 → z ≡ pos 0
magnitude-zero (pos n) e = ap pos e
magnitude-zero (negsuc n) e = absurd (omega arith)

-- A test that the digits below a bound pass.
passed : (ℕ → Bool) → ℕ → Bool
passed test zero = true
passed test (suc k) = passed test k && test k

passed_one : (test : ℕ → Bool) (k digit : ℕ) → digit < k → passed test k ≡ true → test digit ≡ true
unfolding passed
passed_one test zero digit low e = absurd (omega arith)
passed_one test (suc k) digit low e = elim (ℕ_discrete digit k) [
  | yes q ↦ let own : test k ≡ true = ground arith in ap test q ∙ own
  | no q ↦ passed_one test k digit (omega arith) (ground arith)
]

-- The upper and the lower half of the table.
positive_digits : passed (λ k. get_or digit_table (35 + k) 0 == digit_char k) 36 ≡ true
unfolding passed
positive_digits = refl

negative_digits : passed (λ k. get_or digit_table (35 - k) 0 == digit_char k) 36 ≡ true
unfolding passed
negative_digits = refl

module _ (base : ℕ) (low : 2 ≤ base) (high : base ≤ 36) where
  remainder : (n : ℕ) → n % base < 36
  remainder n =
      let h : 0 < base = omega arith in let l : n % base < base = mod-lt n h in omega arith

  digit_lem :
      (value : ℤ)
      → get_or digit_table (table_index value base) 0 ≡ digit_char (magnitude value % base)
  digit_lem (pos n) =
      (==_iff _ (digit_char (n % base))).0
        (passed_one _ 36 (n % base) (remainder n) positive_digits)
  digit_lem (negsuc n) =
      (==_iff _ (digit_char ((n + 1) % base))).0
        (passed_one _ 36 ((n + 1) % base) (remainder (n + 1)) negative_digits)

  magnitude-quotient : (value : ℤ) → magnitude (quotient value base) ≡ magnitude value / base
  magnitude-quotient (pos n) = refl
  magnitude-quotient (negsuc n) = elim (Bool-cases ((n + 1) / base == 0)) [
    | inl e ↦ rw e (sym ((==_iff _ 0).0 e))
    | inr e ↦ rw e (ground arith)
  ]

  halved : (n : ℕ) → 2 * (n / base) ≤ n
  halved n = omega (arith, div-add-mod n base, mul-le-mul_right (n / base) low)

  is_negative-quotient :
      (value : ℤ)
      → is_zero (quotient value base) ≡ false
      → is_negative (quotient value base) ≡ is_negative value
  is_negative-quotient (pos n) e = refl
  is_negative-quotient (negsuc n) e = elim (Bool-cases ((n + 1) / base == 0)) [
    | inl f ↦ absurd (cc (rw f at e))
    | inr f ↦ rw f refl
  ]

is_zero-magnitude : (value : ℤ) → is_zero value ≡ true → magnitude value ≡ 0
is_zero-magnitude (pos n) e = ground arith
is_zero-magnitude (negsuc n) e = cc

nonzero-magnitude : (value : ℤ) → is_zero value ≡ false → 0 < magnitude value
nonzero-magnitude (pos n) e = ground arith
nonzero-magnitude (negsuc n) e = omega arith

-- The loop ends, with the digits of the value from the lowest on, and its sign.
record Digits (fuel : ℕ) (value : ℤ) (base : ℕ) (result : Option (List ℕ × ℤ)) : Type 0 where
  digits : List ℕ
  last : ℤ
  returns : result ≡ some (digits, last)
  spelled : digits ≡ digits_up fuel base (magnitude value)
  sign : is_negative last ≡ is_negative value

digits_of_stops :
    (fuel : ℕ) (value : ℤ) (base : ℕ)
    → is_zero (quotient value base) ≡ true
    → digits_of (suc fuel) value base
      ≡ some (get_or digit_table (table_index value base) 0 ∷ [], value)
unfolding digits_of
digits_of_stops fuel value base e = rw e refl

digits_of_goes_on :
    (fuel : ℕ) (value : ℤ) (base : ℕ) (ds : List ℕ) (last : ℤ)
    → is_zero (quotient value base) ≡ false
    → digits_of fuel (quotient value base) base ≡ some (ds, last)
    → digits_of (suc fuel) value base
      ≡ some (get_or digit_table (table_index value base) 0 ∷ ds, last)
unfolding digits_of
digits_of_goes_on fuel value base ds last e f = rw (e, f) refl

digits_of-Digits :
    (fuel : ℕ) (value : ℤ) (base : ℕ)
    → 2 ≤ base
    → base ≤ 36
    → 0 < fuel
    → magnitude value < 2 ^ fuel
    → Digits fuel value base (digits_of fuel value base)
unfolding digits_up
digits_of-Digits zero value base low high some_fuel small = absurd (omega arith)
digits_of-Digits (suc fuel) value base low high some_fuel small =
    let q = magnitude-quotient base low high value in
    let d = digit_lem base low high value in
    elim (Bool-cases (is_zero (quotient value base))) [
      | inl e ↦
          let z : magnitude value / base ≡ 0 = sym q ∙ is_zero-magnitude (quotient value base) e in
          record {
            digits = _;
            last = value;
            returns = digits_of_stops fuel value base e;
            spelled =
                let t : (magnitude value / base == 0) ≡ true = ground (arith, z) in
                rw t (ap (λ (c : ℕ). c ∷ []) d);
            sign = refl;
          }
      | inr e ↦
          let n = nonzero-magnitude (quotient value base) e in
          let h = halved base low high (magnitude value) in
          let s : magnitude (quotient value base) < 2 ^ fuel =
            omega (arith, q, h, pow-suc 2 fuel, small) in
          let rest =
            digits_of-Digits fuel (quotient value base) base low high
              (positive fuel (magnitude (quotient value base)) n s) s in
          record {
            digits = _;
            last = rest.last;
            returns = digits_of_goes_on fuel value base rest.digits rest.last e rest.returns;
            spelled =
                let t : (magnitude value / base == 0) ≡ false = ground (arith, n, q) in
                rw t (
                  ap₂ (λ (c : ℕ) (cs : List ℕ). c ∷ cs) d
                    (rest.spelled ∙ ap (digits_up fuel base) q));
            sign = rest.sign ∙ is_negative-quotient base low high value e;
          }
    ]

-- The sign of a numeral: only base 10 has one.
abbrev pub sign_of : ℤ → ℕ → List ℕ
sign_of value base = if is_negative value && (base == 10) then b'-' ∷ [] else []

signed :
    (minus : Bool) (ds : List ℕ)
    → reverse (if minus then ds ++ b'-' ∷ [] else ds)
      ≡ (if minus then b'-' ∷ [] else []) ++ reverse ds
signed true ds = reverse-append ds (b'-' ∷ [])
signed false ds = refl

-- The code's numeral: that of the magnitude, behind a minus for a negative value in base 10.
abbrev pub int_text : ℕ → ℤ → List ℕ
int_text base value = sign_of value base ++ numeral base (magnitude value)

pub length-int_text : (base : ℕ) (value : ℤ) → length (int_text base value) ≤ 34
length-int_text base value = elim (Bool-cases (is_negative value && (base == 10))) [
  | inl e ↦ rw e (omega (arith, length-numeral base (magnitude value)))
  | inr e ↦ rw e (omega (arith, length-numeral base (magnitude value)))
]

pub itoa_lem :
    (value : ℤ) (base : ℕ)
    → 2 ≤ base
    → base ≤ 36
    → magnitude value ≤ 2 ^ 31
    → itoa value (pos base) ≡ some (int_text base value)
unfolding itoa numeral
itoa_lem value base low high small =
    let d = digits_of-Digits rounds value base low high (omega arith) (omega arith) in
    let valid : is_valid_base (pos base) ≡ true = ground arith in
    rw (valid, d.returns)
      (ap some (
        swap_ends-reverse _
        ∙ signed _ d.digits
        ∙ ap₂
            (λ (b : Bool) (ds : List ℕ).
              (if b && (base == 10) then b'-' ∷ [] else []) ++ reverse ds)
            d.sign d.spelled))

-- In base 10, and in each base from 2 to 36 for a value that is not negative, `itoa` of an `int` comes
-- to an end with just the numeral of its magnitude, behind a minus for a negative value; and this
-- numeral, read back digit by digit, is the magnitude.
pub itoa-Denotes :
    (value : ℤ) (base : ℕ)
    → 2 ≤ base
    → base ≤ 36
    → magnitude value ≤ 2 ^ 31
    → (base ≡ 10) ⊎ (is_negative value ≡ false)
    → (itoa value (pos base)
        ≡ some ((if is_negative value then b'-' ∷ [] else []) ++ numeral base (magnitude value)))
      × (numeral_value base (numeral base (magnitude value)) ≡ magnitude value)
itoa-Denotes value base low high small documented = (
  itoa_lem value base low high small
      ∙ ap (λ (b : Bool). some ((if b then b'-' ∷ [] else []) ++ numeral base (magnitude value)))
          (same documented),
  numeral_value-numeral base (magnitude value) low (omega arith),
)
  where
    same :
        (base ≡ 10) ⊎ (is_negative value ≡ false)
        → (is_negative value && (base == 10)) ≡ is_negative value
    same (inl e) = ground (arith, e)
    same (inr e) = ground (arith, e)

-- In any other base a negative `int` comes out as the numeral of its magnitude, and this is another one
-- than that of the value taken as unsigned, but for the least `int`.
pub itoa-unsigned :
    (n base : ℕ)
    → 2 ≤ base
    → base ≤ 36
    → base ≢ 10
    → n + 1 < 2 ^ 31
    → (itoa (negsuc n) (pos base) ≡ some (numeral base (n + 1)))
      × (numeral base (n + 1) ≢ numeral base (2 ^ 32 - (n + 1)))
itoa-unsigned n base low high other small =
    let z : (base == 10) ≡ false = ground arith in
    (
      itoa_lem (negsuc n) base low high (omega arith)
          ∙ ap (λ (b : Bool). some ((if b then b'-' ∷ [] else []) ++ numeral base (n + 1))) z,
      λ e.
          let r = numeral_value-numeral base (n + 1) low (omega arith) in
          let s = numeral_value-numeral base (2 ^ 32 - (n + 1)) low (omega arith) in
          let q = ap (numeral_value base) e in omega (arith, r, s, q),
    )
