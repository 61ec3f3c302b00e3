-- ===== src/Io.antt =====
-- kernel/arch/i386/include/io.h: the two port instructions. A device is what a read of a port gives
-- after the accesses so far, the newest first; the hardware itself is an argument of the model.
use olympos.Prelude.{ℕ, List, ◌∷◌}

pub data Access : Type 0 where
  input : ℕ → Access
  output : ℕ → ℕ → Access

abbrev pub Accesses : Type 0
Accesses = List Access

abbrev pub Device : Type 0
Device = Accesses → ℕ → ℕ

abbrev pub outb : ℕ → ℕ → Accesses → Accesses
outb port value log = output port value ∷ log

-- The value, and the log behind the access.
abbrev pub inb : Device → ℕ → Accesses → ℕ × Accesses
inb device port log = (device log port, input port ∷ log)
