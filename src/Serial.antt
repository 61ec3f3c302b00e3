-- ===== src/Serial.antt =====
-- kernel/arch/i386/drivers/serial.c and kernel/include/kernel/serial.h: the serial ports. A busy wait has
-- fuel, and `none` means that the device was not ready in so many looks.
pub mod Uart
use olympos.Prelude.{
  ℕ, zero, suc, ◌+◌, ◌/◌, ◌^◌, Bool, true, false, not, Option, none, some, List, [], ◌∷◌, ◌++◌,
  bit_and, bit_or, ◌==◌, if◌then◌else◌, u8, u16,
}
use olympos.Io.{Accesses, Device, outb, inb}
use olympos.Libc.Itoa.{codes}
use olympos.Libc.Strings.{◌>>=◌}

abbrev pub serial_com1_base : ℕ
serial_com1_base = 0x3F8

abbrev pub serial_data_reg : ℕ
serial_data_reg = 0x0

abbrev pub serial_interrupt_enable_reg : ℕ
serial_interrupt_enable_reg = 0x1

abbrev pub serial_divisor_lsb_reg : ℕ
serial_divisor_lsb_reg = 0x0

abbrev pub serial_divisor_msb_reg : ℕ
serial_divisor_msb_reg = 0x1

abbrev pub serial_fifo_control_reg : ℕ
serial_fifo_control_reg = 0x2

abbrev pub serial_line_control_reg : ℕ
serial_line_control_reg = 0x3

abbrev pub serial_modem_control_reg : ℕ
serial_modem_control_reg = 0x4

abbrev pub serial_line_status_reg : ℕ
serial_line_status_reg = 0x5

abbrev pub serial_line_dlab : ℕ
serial_line_dlab = 0x80

abbrev pub serial_line_8n1 : ℕ
serial_line_8n1 = 0x03

abbrev pub serial_line_status_dr : ℕ
serial_line_status_dr = 0x01

abbrev pub serial_line_status_thre : ℕ
serial_line_status_thre = 0x20

-- SERIAL_FIFO_ENABLE, SERIAL_FIFO_CLEAR_RECEIVE, SERIAL_FIFO_CLEAR_TRANSMIT and
-- SERIAL_FIFO_14_BYTE_THRESHOLD together.
abbrev pub fifo_control : ℕ
fifo_control = bit_or (bit_or (bit_or 0x01 0x02) 0x04) 0xC0

abbrev pub serial_modem_dtr : ℕ
serial_modem_dtr = 0x01

abbrev pub serial_modem_rts : ℕ
serial_modem_rts = 0x02

abbrev pub serial_modem_out1 : ℕ
serial_modem_out1 = 0x04

abbrev pub serial_modem_out2 : ℕ
serial_modem_out2 = 0x08

abbrev pub serial_int_enable_rda : ℕ
serial_int_enable_rda = 0x01

abbrev pub serial_int_disable_all : ℕ
serial_int_disable_all = 0x00

-- The port of a register, which `outb` and `inb` take in 16 bits.
abbrev pub register : ℕ → ℕ → ℕ
register port reg = u16 (port + reg)

-- The writes of `serial_setup` before its test of the chip.
abbrev pub program_chip : ℕ → ℕ → Accesses → Accesses
program_chip port baud_divisor log =
    let log = outb (register port serial_interrupt_enable_reg) 0x00 log in
    let log = outb (register port serial_line_control_reg) serial_line_dlab log in
    let log = outb (register port serial_divisor_lsb_reg) (bit_and baud_divisor 0xFF) log in
    let log =
      outb (register port serial_divisor_msb_reg) (bit_and (baud_divisor / 2 ^ 8) 0xFF) log in
    let log = outb (register port serial_line_control_reg) serial_line_8n1 log in
    let log = outb (register port serial_fifo_control_reg) fifo_control log in
    outb (register port serial_modem_control_reg)
      (bit_or (bit_or serial_modem_dtr serial_modem_rts) serial_modem_out2) log

unfoldable pub serial_setup : Device → ℕ → ℕ → Accesses → ℕ × Accesses
serial_setup device port baud_divisor log =
    let log = outb (register port serial_data_reg) 0xAE (program_chip port baud_divisor log) in
    let (answer, log) = inb device (register port serial_data_reg) log in
    if not (answer == 0xAE) then (1, log) else (
      0,
      outb (register port serial_modem_control_reg)
          (bit_or (bit_or (bit_or serial_modem_dtr serial_modem_rts) serial_modem_out1)
            serial_modem_out2)
          log,
    )

abbrev pub serial_is_transmit_empty : Device → ℕ → Accesses → Bool × Accesses
serial_is_transmit_empty device port log =
    let (status, log) = inb device (register port serial_line_status_reg) log in
    (not (bit_and status serial_line_status_thre == 0), log)

-- The busy wait and the write.
pub serial_write_char : ℕ → Device → ℕ → ℕ → Accesses → Option Accesses
serial_write_char zero device port c log = none
serial_write_char (suc fuel) device port c log =
    let (ready, log) = serial_is_transmit_empty device port log in
    elim ready [
      | true ↦ some (outb (register port serial_data_reg) c log)
      | false ↦ serial_write_char fuel device port c log
    ]

-- The string is the list of its characters.
pub serial_write_string : ℕ → Device → ℕ → List ℕ → Accesses → Option Accesses
serial_write_string fuel device port [] log = some log
serial_write_string fuel device port (c ∷ str) log =
    serial_write_char fuel device port c log
    >>= (λ log. serial_write_string fuel device port str log)

abbrev pub serial_has_received : Device → ℕ → Accesses → Bool × Accesses
serial_has_received device port log =
    let (status, log) = inb device (register port serial_line_status_reg) log in
    (not (bit_and status serial_line_status_dr == 0), log)

pub serial_read_char : ℕ → Device → ℕ → Accesses → Option (ℕ × Accesses)
serial_read_char zero device port log = none
serial_read_char (suc fuel) device port log =
    let (ready, log) = serial_has_received device port log in
    elim ready [
      | true ↦ some (inb device (register port serial_data_reg) log)
      | false ↦ serial_read_char fuel device port log
    ]

abbrev pub serial_enable_interrupts : ℕ → Accesses → Accesses
serial_enable_interrupts port log =
    outb (register port serial_interrupt_enable_reg) serial_int_enable_rda log

abbrev pub serial_disable_interrupts : ℕ → Accesses → Accesses
serial_disable_interrupts port log =
    outb (register port serial_interrupt_enable_reg) serial_int_disable_all log

-- The lines that `serial_initialize` prints: success, with the port and the baud rate, or a warning.
pub data Message : Type 0 where
  successful : ℕ → ℕ → Message
  failed : Message

abbrev pub greeting : List ℕ
greeting =
    codes "=======================================\n"
    ++ codes "Olympos Serial Debug Output\n"
    ++ codes "=======================================\n\n"

-- The three strings of the greeting, in turn.
abbrev pub welcome : ℕ → Device → ℕ → Accesses → Option Accesses
welcome fuel device port log = serial_write_string fuel device port greeting log

-- What is printed, before the greeting is sent, and the accesses up to the return. A divisor of 0, by
-- which C does not divide, is left out.
unfoldable pub serial_initialize : ℕ → Device → ℕ → ℕ → Accesses → Message × Option Accesses
serial_initialize fuel device port baud_divisor log =
    let (result, log) = serial_setup device port baud_divisor log in
    if not (result == 0)
    then (successful port (115200 / baud_divisor), welcome fuel device port log)
    else (failed, some log)
