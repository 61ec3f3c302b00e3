-- ===== src/Interrupts/Pic.antt =====
-- kernel/arch/i386/pic.c: the driver of the two 8259A interrupt controllers.
pub mod Lines
use olympos.Prelude.{
  ℕ, ◌+◌, ◌-◌, ◌*◌, ◌^◌, Bool, ltb, leb, if◌then◌else◌, bit_and, bit_or, u8, u16, not32,
}
use olympos.Io.{Accesses, Device, outb, inb}

abbrev pub pic1_command : ℕ
pic1_command = 0x20

abbrev pub pic1_data : ℕ
pic1_data = 0x21

abbrev pub pic2_command : ℕ
pic2_command = 0xA0

abbrev pub pic2_data : ℕ
pic2_data = 0xA1

abbrev pub pic_eoi : ℕ
pic_eoi = 0x20

abbrev pub pic_send_eoi : ℕ → Accesses → Accesses
pic_send_eoi irq log =
    outb pic1_command pic_eoi (if leb 8 irq then outb pic2_command pic_eoi log else log)

unfoldable pub pic_remap : ℕ → ℕ → Accesses → Accesses
pic_remap master_offset slave_offset log =
    let log = outb pic1_command (bit_or 0x10 0x01) log in
    let log = outb pic2_command (bit_or 0x10 0x01) log in
    let log = outb pic1_data master_offset log in
    let log = outb pic2_data slave_offset log in
    let log = outb pic1_data 0x04 log in
    let log = outb pic2_data 0x02 log in
    let log = outb pic1_data 0x01 log in
    let log = outb pic2_data 0x01 log in
    let log = outb pic1_data 0xFF log in outb pic2_data 0xFF log

-- The controller of a line, and the line's number there.
abbrev pub port_of : ℕ → ℕ
port_of irq = if ltb irq 8 then pic1_data else pic2_data

abbrev pub line_of : ℕ → ℕ
line_of irq = if ltb irq 8 then irq else irq - 8

unfoldable pub pic_unmask : Device → ℕ → Accesses → Accesses
pic_unmask device irq log =
    let port = port_of irq in
    let (mask, log) = inb device port log in
    outb port (u8 (bit_and mask (not32 (2 ^ line_of irq)))) log

unfoldable pub pic_mask : Device → ℕ → Accesses → Accesses
pic_mask device irq log =
    let port = port_of irq in
    let (mask, log) = inb device port log in outb port (u8 (bit_or mask (2 ^ line_of irq))) log

-- The order in which C reads the two registers of the sum is not fixed; here the slave comes first.
unfoldable pub pic_get_irq_reg : Device → ℕ → Accesses → ℕ × Accesses
pic_get_irq_reg device ocw3 log =
    let log = outb pic1_command ocw3 log in
    let log = outb pic2_command ocw3 log in
    let (slave, log) = inb device pic2_command log in
    let (master, log) = inb device pic1_command log in (u16 (bit_or (slave * 2 ^ 8) master), log)

abbrev pub pic_get_irr : Device → Accesses → ℕ × Accesses
pic_get_irr device log = pic_get_irq_reg device 0x0A log

abbrev pub pic_get_isr : Device → Accesses → ℕ × Accesses
pic_get_isr device log = pic_get_irq_reg device 0x0B log
