-- ===== src/Prelude/Int.antt =====
-- C's `int` and `long`, as integers.
use Prim.Native.Nat.{ℕ}
use mathlib.Core.Bool.{Bool, false}
use olympos.Prelude.Tests.{ltb}

-- `negsuc n` is -(n + 1).
pub data ℤ : Type 0 where
  pos : ℕ → ℤ
  negsuc : ℕ → ℤ

-- `0 <= i && i < n`, the usual check of an index.
abbrev pub in_range : ℤ → ℕ → Bool
in_range (pos i) n = ltb i n
in_range (negsuc i) n = false

-- The value of an index that passed the check.
abbrev pub to_index : ℤ → ℕ
to_index (pos i) = i
to_index (negsuc i) = 0
