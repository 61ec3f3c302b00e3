-- ===== src/Terminal.antt =====
-- kernel/arch/i386/tty.c, drivers/vga.c and include/vga.h: the text terminal on the VGA buffer.
pub mod Screen
use olympos.Prelude.{
  ℕ, zero, suc, ◌+◌, ◌-◌, ◌*◌, ◌/◌, ◌^◌, List, [], ◌∷◌, bit_and, bit_or, ◌==◌, if◌then◌else◌, u8,
  u16, u32, Memory, store,
}
use olympos.Io.{Accesses, outb}

abbrev pub vga_width : ℕ
vga_width = 80

abbrev pub vga_height : ℕ
vga_height = 25

-- The cells behind `terminal_buffer`, by index. An index that is out of the screen is written like
-- any other.
pub record Terminal : Type 0 where
  pub terminal_row : ℕ
  pub terminal_column : ℕ
  pub terminal_color : ℕ
  pub terminal_buffer : Memory
  pub log : Accesses

abbrev pub vga_entry_color : ℕ → ℕ → ℕ
vga_entry_color fg bg = u8 (bit_or fg (bg * 2 ^ 4))

abbrev pub vga_entry : ℕ → ℕ → ℕ
vga_entry uc color = u16 (bit_or uc (color * 2 ^ 8))

abbrev pub vga_update_cursor : ℕ → Accesses → Accesses
vga_update_cursor pos log =
    let log = outb 0x3D4 0x0E log in
    let log = outb 0x3D5 (bit_and (u8 (pos / 2 ^ 8)) 0xFF) log in
    let log = outb 0x3D4 0x0F log in outb 0x3D5 (u8 (bit_and pos 0xFF)) log

-- The clearing loop, for the `n` cells from `i` on.
pub clear_cells : ℕ → ℕ → ℕ → Memory → Memory
clear_cells zero i color buffer = buffer
clear_cells (suc n) i color buffer =
    clear_cells n (i + 1) color (store buffer i (vga_entry b' ' color))

unfoldable pub vga_initialize : Terminal → Terminal
vga_initialize t = record t {
  terminal_buffer = clear_cells (vga_width * vga_height) 0 t.terminal_color t.terminal_buffer;
  log = vga_update_cursor 0 t.log;
}

unfoldable pub vga_write_char_at : ℕ → ℕ → ℕ → ℕ → Memory → Memory
vga_write_char_at c color x y buffer = store buffer (u32 (y * vga_width + x)) (vga_entry c color)

-- The copying loop, for the `n` cells from `dst` on: the two loops of the source visit the
-- destinations 0, 1, ... in this order.
pub copy_lines : ℕ → ℕ → Memory → Memory
copy_lines zero dst buffer = buffer
copy_lines (suc n) dst buffer = copy_lines n (dst + 1) (store buffer dst (buffer (dst + vga_width)))

unfoldable pub vga_scroll : ℕ → Memory → Memory
vga_scroll color buffer =
    let moved = copy_lines ((vga_height - 1) * vga_width) 0 buffer in
    clear_cells vga_width ((vga_height - 1) * vga_width) color moved

unfoldable pub terminal_initialize : Terminal → Terminal
terminal_initialize t =
    vga_initialize
      (record t { terminal_row = 0; terminal_column = 0; terminal_color = vga_entry_color 7 0 })

abbrev pub terminal_setcolor : ℕ → Terminal → Terminal
terminal_setcolor color t = record t { terminal_color = color }

unfoldable pub terminal_check_scroll : Terminal → Terminal
terminal_check_scroll t =
    if t.terminal_row == vga_height
    then record t {
      terminal_buffer = vga_scroll t.terminal_color t.terminal_buffer;
      terminal_row = vga_height - 1;
    }
    else t

unfoldable pub terminal_handle_newline : Terminal → Terminal
terminal_handle_newline t =
    terminal_check_scroll
      (record t { terminal_column = 0; terminal_row = u32 (t.terminal_row + 1) })

-- `terminal_column--` on a `size_t` of 32 bits.
abbrev pub decremented : ℕ → ℕ
decremented n = u32 (n + (2 ^ 32 - 1))

-- The branches on the character, before the cursor is updated.
unfoldable pub put_cell : ℕ → Terminal → Terminal
put_cell uc t =
    if uc == b'\n'
    then terminal_handle_newline t
    else if uc == 0x08
    then (let column = decremented t.terminal_column in
        record t {
          terminal_column = column;
          terminal_buffer =
              vga_write_char_at b' ' t.terminal_color column t.terminal_row t.terminal_buffer;
        })
    else (let written : Terminal = record t {
      terminal_buffer =
          vga_write_char_at uc t.terminal_color t.terminal_column t.terminal_row t.terminal_buffer;
      terminal_column = u32 (t.terminal_column + 1);
    } in
        if written.terminal_column == vga_width then terminal_handle_newline written else written)

unfoldable pub terminal_putchar : ℕ → Terminal → Terminal
terminal_putchar c t =
    let after = put_cell (u8 c) t in
    let cursor_pos = u16 (after.terminal_row * vga_width + after.terminal_column) in
    record after { log = vga_update_cursor cursor_pos after.log }

-- The bytes that stand at `data`.
pub terminal_write : List ℕ → Terminal → Terminal
terminal_write [] t = t
terminal_write (c ∷ cs) t = terminal_write cs (terminal_putchar c t)
