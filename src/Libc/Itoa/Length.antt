-- ===== src/Libc/Itoa/Length.antt =====
-- An `int` has at most 33 digits and a sign.
use olympos.Prelude.{
  ℕ, zero, suc, ◌≤◌, ◌&&◌, Option, none, some, List, [], ◌∷◌, ◌++◌, length, ◌==◌, ℤ, ◌≡◌, refl,
  arith, Bool-cases, Option-cases, inl, inr, to_index, length-append,
}
use olympos.Libc.Itoa.{digits_of, rounds, is_valid_base, is_negative, is_zero, quotient, itoa}
use olympos.Libc.Itoa.Reverse.{length-swap_ends}

abbrev IsShort : ℕ → Option (List ℕ × ℤ) → Type 0
IsShort n none = n ≡ n
IsShort n (some (ds, last)) = length ds ≤ n

digits_of-IsShort : (fuel : ℕ) (value : ℤ) (base : ℕ) → IsShort fuel (digits_of fuel value base)
unfolding digits_of
digits_of-IsShort zero value base = refl
digits_of-IsShort (suc fuel) value base = elim (Bool-cases (is_zero (quotient value base))) [
  | inl e ↦ rw e (omega arith)
  | inr e ↦ elim (Option-cases (digits_of fuel (quotient value base) base)) [
    | inl f ↦ rw (e, f) refl
    | inr ((ds, last), f) ↦
        let rest : IsShort fuel (some (ds, last)) =
          rw f at (digits_of-IsShort fuel (quotient value base) base) in
        rw (e, f) (omega (arith, rest))
  ]
]

abbrev pub IsShortText : Option (List ℕ) → Type 0
IsShortText none = zero ≡ zero
IsShortText (some s) = length s ≤ 34

pub itoa-IsShortText : (value base : ℤ) → IsShortText (itoa value base)
unfolding itoa
itoa-IsShortText value base = elim (Bool-cases (is_valid_base base)) [
  | inr e ↦ rw e (omega arith)
  | inl e ↦ elim (Option-cases (digits_of rounds value (to_index base))) [
    | inl f ↦ rw (e, f) refl
    | inr ((ds, last), f) ↦
        let rest : IsShort rounds (some (ds, last)) =
          rw f at (digits_of-IsShort rounds value (to_index base)) in
        elim (Bool-cases (is_negative last && (to_index base == 10))) [
          | inl g ↦
              rw (e, f, g)
                (omega
                  (arith, length-swap_ends (ds ++ b'-' ∷ []), length-append ds (b'-' ∷ []), rest))
          | inr g ↦ rw (e, f, g) (omega (arith, length-swap_ends ds, rest))
        ]
  ]
]
