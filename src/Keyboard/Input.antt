-- ===== src/Keyboard/Input.antt =====
-- What a key press gives to `getchar`.
use olympos.Prelude.{
  none, some, ◌∷◌, get_or, ltb, ◌==◌, if◌then◌else◌, not, ◌&&◌, bit_and, ◌≡◌, refl, Bool-cases, inl,
  inr,
}
use olympos.Io.{input, Device}
use olympos.Keyboard.{
  kbd_data_port, kbd_status_port, Keyboard, scancode_to_ascii, keyboard_on_irq, kb_irq_trampoline,
  keyboard_callback_getchar,
}

-- A keyboard interrupt leaves at most the character of its own key for `getchar`: the character of
-- the make code that the data port gives when the status says that one is there. Without data, on a
-- release, and on a key without a character, `getchar` goes on waiting, also when an earlier
-- character had not been taken.
pub keyboard_callback_getchar-kb_irq_trampoline :
    (device : Device) (kb : Keyboard)
    → let status = device kb.log kbd_status_port in
      let sc = device (input kbd_status_port ∷ kb.log) kbd_data_port in
      let c = get_or scancode_to_ascii sc 0 in
      (keyboard_callback_getchar (kb_irq_trampoline device kb)).0 ≡ (
        if not (bit_and status 0x01 == 0) && (bit_and sc 0x80 == 0) && ltb sc 128 && not (c == 0)
        then some c
        else none)
unfolding keyboard_callback_getchar kb_irq_trampoline keyboard_on_irq
keyboard_callback_getchar-kb_irq_trampoline device kb =
    let status = device kb.log kbd_status_port in
    let sc = device (input kbd_status_port ∷ kb.log) kbd_data_port in
    elim (Bool-cases (bit_and status 0x01 == 0)) [
      | inl a ↦ rw a refl
      | inr a ↦ elim (Bool-cases (bit_and sc 0x80 == 0)) [
        | inr b ↦ rw (a, b) refl
        | inl b ↦ elim (Bool-cases (ltb sc 128)) [
          | inr c ↦ rw (a, b, c) refl
          | inl c ↦ elim (Bool-cases (get_or scancode_to_ascii sc 0 == 0)) [
            | inl d ↦ rw (a, b, c, d) refl
            | inr d ↦ rw (a, b, c, d) refl
          ]
        ]
      ]
    ]
