-- ===== src/Tests/Commands.antt =====
-- Lines of the shell on a fresh heap, and a serial port.
use olympos.Prelude.{
  ℕ, ◌+◌, ◌-◌, ◌*◌, ◌<◌, ◌++◌, false, some, [], ◌∷◌, get_or, ltb, leb, ◌&&◌, if◌then◌else◌, ◌==◌,
  ◌≡◌, ◌≢◌, ◌⊎◌, inl, inr, refl, arith, Memory,
}
use mathlib.Core.List.{reverse}
use olympos.Io.{Accesses, Device, output}
use olympos.Kheap.{kmalloc}
use olympos.Kheap.Alloc.{user_address, Allocated, blocks_needed_bounds, kmalloc_lem}
use olympos.Libc.Itoa.{codes}
use olympos.Serial.{
  program_chip, register, serial_setup, serial_write_string, successful, failed, greeting,
  serial_initialize,
}
use olympos.Serial.Uart.{
  Chip, chip_after, configured, serial_setup-Chip, serial_initialize-inverts,
  serial_write_string-sends,
}
use olympos.Shell.{Shell, Literals, input_line, shell_execute}
use olympos.Shell.Editor.{typed_line, Entered, input_line-Entered}
use olympos.Shell.Execute.{Runs, shell_execute_lem}
use olympos.Terminal.{Terminal}
use olympos.Tests.Heap.{booted, booted-Holds}

-- The delimiters at 100, the names of the commands at 110 and 120, and a line at 200.
abbrev memory : Memory
memory a =
    if leb 100 a && ltb a 102
    then get_or (codes " \n") (a - 100) 0
    else if leb 110 a && ltb a 115
    then get_or (codes "clear") (a - 110) 0
    else if leb 120 a && ltb a 124
    then get_or (codes "help") (a - 120) 0
    else if leb 200 a && ltb a 208
    then get_or (codes " help me") (a - 200) 0
    else 0

abbrev screen : Terminal
screen = record {
  terminal_row = 3;
  terminal_column = 2;
  terminal_color = 7;
  terminal_buffer = λ a. 0;
  log = [];
}

abbrev shell : Shell
shell = record {
  kheap = booted;
  tokens = record { last = 0; memory = memory };
  keys = codes "helo" ++ 8 ∷ codes "p" ++ 10 ∷ codes "clear";
  terminal = screen;
}

fits_one : (size : ℕ) → 0 < size → size < 4000 → Allocated [] booted size (kmalloc size booted)
fits_one size pos small = elim (kmalloc_lem [] booted size booted-Holds pos (omega arith)) [
  | inl a ↦ a
  | inr r ↦ absurd (
      r.0 0 (record {
        fits = omega (arith, blocks_needed_bounds size pos (omega arith));
        free = λ k p q. booted-Holds.used k;
      }))
]

buffer : Allocated [] booted 1024 (kmalloc 1024 booted)
buffer = fits_one 1024 (omega arith) (omega arith)

input_line-Entered_example :
    Entered memory buffer.after
      (user_address booted buffer.start)
      (codes "clear")
      (reverse (typed_line [] (codes "helo" ++ 8 ∷ codes "p")))
      (input_line shell)
input_line-Entered_example =
    input_line-Entered shell (user_address booted buffer.start) buffer.after
      (codes "helo" ++ 8 ∷ codes "p") (codes "clear") buffer.returns (omega arith)
      (
        omega arith,
        omega arith,
        omega arith,
        (
          omega arith,
          omega arith,
          omega arith,
          (
            omega arith,
            omega arith,
            omega arith,
            (
              omega arith,
              omega arith,
              omega arith,
              (
                omega arith,
                omega arith,
                omega arith,
                (omega arith, omega arith, omega arith, refl),
              ),
            ),
          ),
        ),
      )
      refl

abbrev literals : Literals
literals = record { delim = 100; clear = 110; help = 120 }

-- The first argument is `help`.
abbrev asked : Shell
asked = record shell { kheap = record booted { memory = λ a. 120 } }

shell_execute_lem_example :
    ((asked.kheap.memory 500 ≡ 0) × (shell_execute 10 literals 500 asked ≡ some (1, asked)))
    ⊎ Runs 10 asked (codes "help") (shell_execute 10 literals 500 asked)
shell_execute_lem_example =
    shell_execute_lem 10 500 literals asked (codes "help")
      (record {
        clear = (
          refl,
          omega arith,
          omega arith,
          (
            refl,
            omega arith,
            omega arith,
            (
              refl,
              omega arith,
              omega arith,
              (refl, omega arith, omega arith, (refl, omega arith, omega arith, refl)),
            ),
          ),
        );
        help = (
          refl,
          omega arith,
          omega arith,
          (
            refl,
            omega arith,
            omega arith,
            (refl, omega arith, omega arith, (refl, omega arith, omega arith, refl)),
          ),
        );
      })
      (λ h. (
        refl,
        omega arith,
        omega arith,
        (
          refl,
          omega arith,
          omega arith,
          (refl, omega arith, omega arith, (refl, omega arith, omega arith, refl)),
        ),
      ))
      (omega arith) (omega arith)

-- A chip that is ready and answers 0xAE, and one that answers nothing.
abbrev working : Device
working log port = if port == 0x3F8 then 0xAE else 0x60

abbrev missing : Device
missing log port = 0xFF

abbrev chip : Chip
chip = record {
  latch = false;
  divisor_low = 12;
  divisor_high = 0;
  interrupts = 1;
  line_control = 3;
  fifo = 0;
  modem = 0;
  sent = [];
}

serial_write_string-sends_example :
    (after : Accesses) × (serial_write_string 1 working 0x3F8 (codes "ok\n") [] ≡ some after)
    × (chip_after 0x3F8 chip after ≡ record chip { sent = codes "ok\n" })
serial_write_string-sends_example =
    serial_write_string-sends 0 working 0x3F8 (omega arith) chip (codes "ok\n") []
      (λ log. omega arith) refl

serial_setup-Chip_example :
    let tested = output (register 0x3F8 0) 0xAE ∷ program_chip 0x3F8 12 [] in
    let after = serial_setup working 0x3F8 12 [] in
    let set_up : Chip = record {
      latch = false;
      divisor_low = 12;
      divisor_high = 0;
      interrupts = 0;
      line_control = 3;
      fifo = 0xC7;
      modem = 0x0B;
      sent = [];
    } in
    (set_up.divisor_low + set_up.divisor_high * 256 ≡ 12)
    × ((working tested (register 0x3F8 0) ≡ 0xAE)
        → (after.0 ≡ 0)
          × (chip_after 0x3F8 chip after.1 ≡ record set_up { modem = 0x0F; sent = 0xAE ∷ [] }))
    × ((working tested (register 0x3F8 0) ≢ 0xAE)
        → (after.0 ≡ 1) × (chip_after 0x3F8 chip after.1 ≡ record set_up { sent = 0xAE ∷ [] }))
serial_setup-Chip_example =
    serial_setup-Chip 0x3F8 (omega arith) chip working 12 [] refl (omega arith)

serial_initialize-inverts_example :
    let tested = output (register 0x3F8 0) 0xAE ∷ program_chip 0x3F8 12 [] in
    let result = serial_initialize 1 working 0x3F8 12 [] in
    let set_up = configured 0x3F8 (omega arith) chip 12 [] in
    ((working tested (register 0x3F8 0) ≡ 0xAE)
      → (after : Accesses) × (result ≡ (failed, some after))
        × (chip_after 0x3F8 chip after
            ≡ record set_up { modem = 0x0F; sent = set_up.sent ++ 0xAE ∷ [] }))
    × ((working tested (register 0x3F8 0) ≢ 0xAE)
        → (after : Accesses) × (result ≡ (successful 0x3F8 9600, some after))
          × (chip_after 0x3F8 chip after ≡ record set_up { sent = set_up.sent ++ 0xAE ∷ greeting }))
serial_initialize-inverts_example =
    serial_initialize-inverts 0 working 0x3F8 (omega arith) chip 12 [] (λ log. omega arith) refl
      (omega arith) (omega arith)
