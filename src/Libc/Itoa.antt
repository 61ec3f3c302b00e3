-- ===== src/Libc/Itoa.antt =====
-- libc/stdlib/itoa.c. The string is the list of its characters before the terminator.
pub mod Length
pub mod Numeral
pub mod Reverse
pub mod Value
use olympos.Prelude.{
  ℕ, zero, suc, ◌+◌, ◌-◌, ◌*◌, ◌/◌, ◌%◌, Bool, true, false, ◌&&◌, ◌||◌, Option, none, some, List,
  [], ◌∷◌, ◌++◌, get_or, set, length, ltb, leb, to_index, ◌==◌, if◌then◌else◌, ℤ, pos, negsuc,
}
use mathlib.Core.List.{reverse}
use Prim.Native.String.{String}
use Prim.Native.Char.{code}

-- The bytes of a text.
abbrev pub codes : String → List ℕ
codes String.[] = []
codes (String.◌∷◌ c s) = code c ∷ codes s

-- The table of the source, indexed from -35 to 35: a digit and its negative have one character.
abbrev pub digit_table : List ℕ
digit_table = codes "zyxwvutsrqponmlkjihgfedcba9876543210123456789abcdefghijklmnopqrstuvwxyz"

-- C's division and remainder of an `int` by a positive base: towards zero.
abbrev pub quotient : ℤ → ℕ → ℤ
quotient (pos n) base = pos (n / base)
quotient (negsuc n) base = if (n + 1) / base == 0 then pos 0 else negsuc ((n + 1) / base - 1)

-- `35 + (value - value / base * base)`.
abbrev pub table_index : ℤ → ℕ → ℕ
table_index (pos n) base = 35 + n % base
table_index (negsuc n) base = 35 - (n + 1) % base

abbrev pub is_zero : ℤ → Bool
is_zero (pos n) = n == 0
is_zero (negsuc n) = false

abbrev pub is_negative : ℤ → Bool
is_negative (pos n) = false
is_negative (negsuc n) = true

-- The `do` loop: what it writes, in the order that it writes it, and the last `tmp_value`. Each
-- round divides `value` by at least 2; `none` means that the fuel ran out.
pub digits_of : ℕ → ℤ → ℕ → Option (List ℕ × ℤ)
digits_of zero value base = none
digits_of (suc fuel) value base =
    let digit = get_or digit_table (table_index value base) 0 in
    let rest = digits_of fuel (quotient value base) base in
    if is_zero (quotient value base)
    then some (digit ∷ [], value)
    else elim rest [ none ↦ none | some (ds, last) ↦ some (digit ∷ ds, last) ]

-- The `while` loop that swaps the ends, between the positions `lo` and `hi`. They come one step
-- nearer in each round, so `hi - lo` rounds end it by its test.
pub swap_ends : ℕ → ℕ → ℕ → List ℕ → List ℕ
swap_ends zero lo hi str = str
swap_ends (suc fuel) lo hi str =
    let rest =
      swap_ends fuel (lo + 1) (hi - 1) (set (set str hi (get_or str lo 0)) lo (get_or str hi 0)) in
    if ltb lo hi then rest else str

-- An `int` has at most 32 digits in any base.
abbrev pub rounds : ℕ
rounds = 33

abbrev pub is_valid_base : ℤ → Bool
is_valid_base (pos base) = leb 2 base && leb base 36
is_valid_base (negsuc base) = false

pub itoa : ℤ → ℤ → Option (List ℕ)
itoa value base =
    if is_valid_base base
    then elim (digits_of rounds value (to_index base)) [
      | none ↦ none
      | some (ds, tmp_value) ↦
          let str =
            if is_negative tmp_value && (to_index base == 10) then ds ++ b'-' ∷ [] else ds in
          some (swap_ends (length str) 0 (length str - 1) str)
    ]
    else some []
