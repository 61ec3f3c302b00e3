-- ===== src/Serial/Uart.antt =====
-- What the chip at a port gets from the driver.
use olympos.Prelude.{
  takes, ℕ, zero, suc, ◌+◌, ◌-◌, ◌*◌, ◌/◌, ◌^◌, ◌≤◌, ◌<◌, Bool, false, not, Option, some, List, [],
  ◌∷◌, ◌++◌, bit_and, ◌==◌, ltb, if◌then◌else◌, ◌≡◌, ◌≢◌, refl, sym, ap, ◌∙◌, arith,
}
use mathlib.Core.List.{append-nil, append_assoc}
use olympos.Bits.Fields.{bit_and_mask}
use olympos.Io.{input, output, Accesses, Device}
use olympos.Libc.Strings.{◌>>=◌}
use olympos.Serial.{
  serial_line_status_reg, serial_line_status_thre, register, program_chip, serial_setup,
  serial_write_char, serial_write_string, successful, failed, serial_initialize, greeting,
}

-- The registers of the chip. While the latch bit is set, the first two ports are those of the divisor.
pub record Chip : Type 0 where
  pub latch : Bool
  pub divisor_low : ℕ
  pub divisor_high : ℕ
  pub interrupts : ℕ
  pub line_control : ℕ
  pub fifo : ℕ
  pub modem : ℕ
  pub sent : List ℕ

-- A write of a register, by its offset.
abbrev pub chip_write : ℕ → ℕ → Chip → Chip
chip_write zero v c =
    if c.latch then record c { divisor_low = v } else record c { sent = c.sent ++ v ∷ [] }
chip_write (suc zero) v c =
    if c.latch then record c { divisor_high = v } else record c { interrupts = v }
chip_write (suc (suc zero)) v c = record c { fifo = v }
chip_write (suc (suc (suc zero))) v c = record c {
  line_control = v;
  latch = not (bit_and v 0x80 == 0);
}
chip_write (suc (suc (suc (suc zero)))) v c = record c { modem = v }
chip_write (suc (suc (suc (suc (suc offset))))) v c = c

-- The chip behind the accesses so far, from its state `c` on.
abbrev pub chip_after : ℕ → Chip → Accesses → Chip
chip_after port c [] = c
chip_after port c (input p ∷ log) = chip_after port c log
chip_after port c (output p v ∷ log) =
    let before = chip_after port c log in
    if ltb p port then before else chip_write (p - port) v before

-- The ports of the chip are below 2^16.
abbrev pub HasPorts : ℕ → Type 0
HasPorts port = port + 8 ≤ 2 ^ 16

module _ (port : ℕ) (ports : HasPorts port) (c : Chip) where
  registers :
      (reg v : ℕ) (log : Accesses)
      → reg < 8
      → chip_after port c (output (register port reg) v ∷ log)
        ≡ chip_write reg v (chip_after port c log)
  registers reg v log small =
      let z : ltb (register port reg) port ≡ false = ground arith in
      let o : register port reg - port ≡ reg = omega arith in rw (z, o) refl

  writes :
      (reg v : ℕ) (log : Accesses) (c' : Chip)
      → reg < 8
      → chip_after port c log ≡ c'
      → chip_after port c (output (register port reg) v ∷ log) ≡ chip_write reg v c'
  writes reg v log c' small e = registers reg v log small ∙ ap (chip_write reg v) e

  unlatched :
      (b : Chip) → b.latch ≡ false → chip_write 1 0 b ≡ record b { interrupts = 0; latch = false }
  unlatched b e = rw e refl

  -- The chip with its divisor, 8 bits with no parity and one stop bit, its queues on, and its interrupts off.
  abbrev pub configured : ℕ → Accesses → Chip
  configured baud_divisor log =
      let before = chip_after port c log in
      record {
        latch = false;
        divisor_low = bit_and baud_divisor 0xFF;
        divisor_high = bit_and (baud_divisor / 2 ^ 8) 0xFF;
        interrupts = 0;
        line_control = 0x03;
        fifo = 0xC7;
        modem = 0x0B;
        sent = before.sent;
      }

  program_chip_lem :
      (baud_divisor : ℕ) (log : Accesses)
      → (chip_after port c log).latch ≡ false
      → chip_after port c (program_chip port baud_divisor log) ≡ configured baud_divisor log
  program_chip_lem baud_divisor log latch =
      let l1 = output (register port 1) 0 ∷ log in
      let l2 = output (register port 3) 0x80 ∷ l1 in
      let l3 = output (register port 0) (bit_and baud_divisor 0xFF) ∷ l2 in
      let l4 = output (register port 1) (bit_and (baud_divisor / 2 ^ 8) 0xFF) ∷ l3 in
      let l5 = output (register port 3) 0x03 ∷ l4 in
      let l6 = output (register port 2) 0xC7 ∷ l5 in
      let s1 =
        writes 1 0 log (chip_after port c log) (omega arith) refl
        ∙ unlatched (chip_after port c log) latch in
      let s2 = writes 3 0x80 l1 _ (omega arith) s1 in
      let s3 = writes 0 (bit_and baud_divisor 0xFF) l2 _ (omega arith) s2 in
      let s4 = writes 1 (bit_and (baud_divisor / 2 ^ 8) 0xFF) l3 _ (omega arith) s3 in
      let s5 = writes 3 0x03 l4 _ (omega arith) s4 in
      let s6 = writes 2 0xC7 l5 _ (omega arith) s5 in writes 4 0x0B l6 _ (omega arith) s6

  -- Where the latch bit is off before, `serial_setup` leaves the chip with the divisor latched in, the latch bit off again, 8 bits with no parity, the
  -- queues on and the interrupts off. It sends the test byte, and returns 0 just when the chip answers with the same byte, and then also
  -- sets the modem lines.
  pub serial_setup-Chip :
      (device : Device) (baud_divisor : ℕ) (log : Accesses)
      → (chip_after port c log).latch ≡ false
      → baud_divisor < 2 ^ 16
      → let tested = output (register port 0) 0xAE ∷ program_chip port baud_divisor log in
        let after = serial_setup device port baud_divisor log in
        let chip = configured baud_divisor log in
        (chip.divisor_low + chip.divisor_high * 2 ^ 8 ≡ baud_divisor)
        × ((device tested (register port 0) ≡ 0xAE)
            → (after.0 ≡ 0)
              × (chip_after port c after.1
                  ≡ record chip { modem = 0x0F; sent = chip.sent ++ 0xAE ∷ [] }))
        × ((device tested (register port 0) ≢ 0xAE)
            → (after.0 ≡ 1)
              × (chip_after port c after.1 ≡ record chip { sent = chip.sent ++ 0xAE ∷ [] }))
  unfolding serial_setup
  serial_setup-Chip device baud_divisor log latch small =
      let programmed = program_chip port baud_divisor log in
      let tested = output (register port 0) 0xAE ∷ programmed in
      let p = program_chip_lem baud_divisor log latch in
      let s = writes 0 0xAE programmed _ (omega arith) p in
      (
        omega (arith, bit_and_mask 8 baud_divisor, bit_and_mask 8 (baud_divisor / 2 ^ 8)),
        λ e. rw e (refl, writes 4 0x0F (input (register port 0) ∷ tested) _ (omega arith) s),
        λ ne.
            let z : (device tested (register port 0) == 0xAE) ≡ false = ground (arith, ne) in
            rw z (refl, s),
      )

-- The chip is ready for a byte whatever it got before.
abbrev pub IsReady : Device → ℕ → Type 0
IsReady device port =
    (log : Accesses)
    → bit_and (device log (register port serial_line_status_reg)) serial_line_status_thre ≢ 0

abbrev sent_byte : ℕ → ℕ → Accesses → Accesses
sent_byte port b log = output (register port 0) b ∷ input (register port 5) ∷ log

byte_goes :
    (fuel : ℕ) (device : Device) (port b : ℕ) (log : Accesses)
    → IsReady device port
    → serial_write_char (suc fuel) device port b log ≡ some (sent_byte port b log)
unfolding serial_write_char
byte_goes fuel device port b log ready =
    takes (not (bit_and (device log (register port 5)) 0x20 == 0)) _
      (serial_write_char fuel device port b (input (register port 5) ∷ log))
      (ground (arith, ready log))

sends_byte :
    (port : ℕ) (ports : HasPorts port) (c : Chip) (b : ℕ) (log : Accesses)
    → (chip_after port c log).latch ≡ false
    → chip_after port c (sent_byte port b log)
      ≡ record (chip_after port c log) { sent = (chip_after port c log).sent ++ b ∷ [] }
sends_byte port ports c b log latch =
    writes port ports c 0 b (input (register port 5) ∷ log) (chip_after port c log) (omega arith)
      refl
    ∙ rw latch refl

-- A chip that is always ready and has the latch bit off gets just the bytes of a string that is written, in their order, and no other
-- register of it changes; each byte takes one look at the status.
pub serial_write_string-sends :
    (fuel : ℕ) (device : Device) (port : ℕ) (ports : HasPorts port) (c : Chip) (str : List ℕ)
    (log : Accesses)
    → IsReady device port
    → (chip_after port c log).latch ≡ false
    → (after : Accesses) × (serial_write_string (suc fuel) device port str log ≡ some after)
      × (chip_after port c after
          ≡ record (chip_after port c log) { sent = (chip_after port c log).sent ++ str })
unfolding serial_write_string serial_write_char
serial_write_string-sends fuel device port ports c [] log ready latch = (
  log,
  refl,
  ap (λ (t : List ℕ). record (chip_after port c log) { sent = t })
      (sym (append-nil (chip_after port c log).sent)),
)
serial_write_string-sends fuel device port ports c (b ∷ str) log ready latch =
    let before = chip_after port c log in
    let s = sends_byte port ports c b log latch in
    let (after, e, q) =
      serial_write_string-sends fuel device port ports c str (sent_byte port b log) ready
        (ap (λ (k : Chip). k.latch) s ∙ latch) in
    (
      after,
      ap (λ (o : Option Accesses). o >>= (λ l. serial_write_string (suc fuel) device port str l))
            (byte_goes fuel device port b log ready)
          ∙ e,
      q
          ∙ ap (λ (k : Chip). record k { sent = k.sent ++ str }) s
          ∙ ap (λ (t : List ℕ). record before { sent = t }) (append_assoc before.sent (b ∷ []) str),
    )

-- On a chip that is always ready, with the latch bit off before and a divisor above 0:
-- `serial_initialize` ends. If the chip answers the test byte, as a working one does, it prints the
-- warning and sends nothing more; if it does not, it prints the success, with the baud rate, and sends
-- the greeting.
pub serial_initialize-inverts :
    (fuel : ℕ) (device : Device) (port : ℕ) (ports : HasPorts port) (c : Chip) (baud_divisor : ℕ)
    (log : Accesses)
    → IsReady device port
    → (chip_after port c log).latch ≡ false
    → 0 < baud_divisor
    → baud_divisor < 2 ^ 16
    → let tested = output (register port 0) 0xAE ∷ program_chip port baud_divisor log in
      let result = serial_initialize (suc fuel) device port baud_divisor log in
      let chip = configured port ports c baud_divisor log in
      ((device tested (register port 0) ≡ 0xAE)
        → (after : Accesses) × (result ≡ (failed, some after))
          × (chip_after port c after ≡ record chip { modem = 0x0F; sent = chip.sent ++ 0xAE ∷ [] }))
      × ((device tested (register port 0) ≢ 0xAE)
          → (after : Accesses) × (result ≡ (successful port (115200 / baud_divisor), some after))
            × (chip_after port c after ≡ record chip { sent = chip.sent ++ 0xAE ∷ greeting }))
unfolding serial_initialize
serial_initialize-inverts fuel device port ports c baud_divisor log ready latch divides small =
    let s = serial_setup-Chip port ports c device baud_divisor log latch small in
    let set_up = serial_setup device port baud_divisor log in
    let chip = configured port ports c baud_divisor log in
    (
      λ e. let z = (s.1 e).0 in (set_up.1, rw z refl, (s.1 e).1),
      λ ne.
          let z : set_up.0 ≡ 1 = (s.2 ne).0 in
          let q = (s.2 ne).1 in
          let (after, w, k) =
            serial_write_string-sends fuel device port ports c greeting set_up.1 ready
              (ap (λ (b : Chip). b.latch) q) in
          (
            after,
            rw z (ap (λ (o : Option Accesses). (successful port (115200 / baud_divisor), o)) w),
            k
                ∙ ap (λ (b : Chip). record b { sent = b.sent ++ greeting }) q
                ∙ ap (λ (t : List ℕ). record chip { sent = t })
                    (append_assoc chip.sent (0xAE ∷ []) greeting),
          ),
    )
