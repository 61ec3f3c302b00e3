-- ===== src/Prelude/Words.antt =====
-- The casts of C's unsigned types, and a total memory.
use Prim.Native.Nat.{ℕ, ◌-◌, ◌%◌, ◌^◌}
use olympos.Prelude.Tests.{◌==◌, if◌then◌else◌}

abbrev pub u8 : ℕ → ℕ
u8 n = n % 2 ^ 8

abbrev pub u16 : ℕ → ℕ
u16 n = n % 2 ^ 16

abbrev pub u32 : ℕ → ℕ
u32 n = n % 2 ^ 32

-- `~x` of a 32-bit word.
abbrev pub not32 : ℕ → ℕ
not32 x = 2 ^ 32 - 1 - x

-- What stands at each address: a byte, a character cell or a word, as the part that uses it says.
abbrev pub Memory : Type 0
Memory = ℕ → ℕ

abbrev pub store : Memory → ℕ → ℕ → Memory
store m p v q = if p == q then v else m q
