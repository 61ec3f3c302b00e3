-- ===== src/Keyboard.antt =====
-- kernel/arch/i386/drivers/keyboard.c: from scancodes to the character that `getchar` waits for.
pub mod Input
use olympos.Prelude.{
  ℕ, ◌+◌, Bool, true, false, Option, none, some, List, [], ◌∷◌, ◌++◌, replicate, get_or, ltb, ◌==◌,
  if◌then◌else◌, not, bit_and, u8, pos,
}
use olympos.Interrupts.Regs.{Handler}
use olympos.Interrupts.Irq.{Irq, reqister_irq}
use olympos.Io.{Accesses, Device, inb}
use olympos.Libc.Itoa.{codes}

abbrev pub kbd_data_port : ℕ
kbd_data_port = 0x60

abbrev pub kbd_status_port : ℕ
kbd_status_port = 0x64

pub record Keyboard : Type 0 where
  pub keyboard_char : ℕ
  pub has_char : Bool
  pub log : Accesses

-- The entries up to the space bar; every later one of the 128 is 0, the value beyond this list.
abbrev pub scancode_to_ascii : List ℕ
scancode_to_ascii =
    0 ∷ 27 ∷ codes "1234567890-="
    ++ 8 ∷ 9 ∷ codes "qwertyuiop[]"
    ++ 10 ∷ 0 ∷ codes "asdfghjkl;'`"
    ++ 0 ∷ 92 ∷ codes "zxcvbnm,./"
    ++ 0 ∷ 42 ∷ 0 ∷ 32 ∷ 0 ∷ []

unfoldable pub keyboard_on_irq : Device → Keyboard → Keyboard
keyboard_on_irq device kb =
    let (status, log) = inb device kbd_status_port kb.log in
    if bit_and status 0x01 == 0
    then record kb { log = log }
    else (let (sc, log) = inb device kbd_data_port log in
        if not (bit_and sc 0x80 == 0)
        then record kb { log = log }
        else (let c = if ltb sc 128 then get_or scancode_to_ascii sc 0 else 0 in
            if not (c == 0)
            then record { keyboard_char = c; has_char = true; log = log }
            else record kb { log = log }))

unfoldable pub kb_irq_trampoline : Device → Keyboard → Keyboard
kb_irq_trampoline device kb =
    keyboard_on_irq device (record kb { keyboard_char = 0; has_char = false })

-- One look of the waiting loop: `none` is another `hlt`.
unfoldable pub keyboard_callback_getchar : Keyboard → Option ℕ × Keyboard
keyboard_callback_getchar kb =
    if kb.has_char then (some kb.keyboard_char, record kb { has_char = false }) else (none, kb)

-- The result of the registration is not looked at.
unfoldable pub keyboard_initialize : Device → Irq → Irq
keyboard_initialize device st = (reqister_irq device (pos 1) (some Handler.kb_irq_trampoline) st).1
