-- ===== src/Terminal/Screen.antt =====
-- The cursor stays on the screen, and what each character does to the cells.
use olympos.Prelude.{
  ℕ, zero, suc, ◌+◌, ◌-◌, ◌*◌, ◌^◌, ◌≤◌, ◌<◌, false, ◌&&◌, if◌then◌else◌, ◌==◌, ltb, leb, List, [],
  ◌∷◌, ◌≡◌, ◌≢◌, ◌⊎◌, inl, inr, refl, ap, ◌∙◌, arith, u8, u32, Memory, store, Bool-cases,
}
use native.Mathlib.Decide.{ℕ_discrete}
use olympos.Terminal.{
  vga_width, vga_height, Terminal, vga_entry, clear_cells, copy_lines, vga_write_char_at,
  vga_scroll, terminal_check_scroll, terminal_handle_newline, put_cell, terminal_putchar,
  terminal_write,
}

clear_cells_lem :
    (n i color : ℕ) (buffer : Memory) (k : ℕ)
    → clear_cells n i color buffer k
      ≡ (if leb i k && ltb k (i + n) then vga_entry b' ' color else buffer k)
unfolding clear_cells
clear_cells_lem zero i color buffer k = ground arith
clear_cells_lem (suc n) i color buffer k =
    clear_cells_lem n (i + 1) color (store buffer i (vga_entry b' ' color)) k ∙ ground arith

copy_lines_lem :
    (n dst : ℕ) (buffer : Memory) (k : ℕ)
    → copy_lines n dst buffer k
      ≡ (if leb dst k && ltb k (dst + n) then buffer (k + vga_width) else buffer k)
unfolding copy_lines
copy_lines_lem zero dst buffer k = ground arith
copy_lines_lem (suc n) dst buffer k =
    copy_lines_lem n (dst + 1) (store buffer dst (buffer (dst + vga_width))) k
    ∙ elim (ℕ_discrete dst k) [
      | yes e ↦ ground (arith, ap (λ (t : ℕ). buffer (t + vga_width)) e)
      | no ne ↦ ground arith
    ]

-- Scrolling moves each line of the screen up by one, clears the last line, and writes nothing else.
pub vga_scroll_lem :
    (color : ℕ) (buffer : Memory) (k : ℕ)
    → vga_scroll color buffer k ≡ (
        if ltb k 1920
        then buffer (k + 80)
        else if ltb k 2000
        then vga_entry b' ' color
        else buffer k)
unfolding vga_scroll
vga_scroll_lem color buffer k =
    clear_cells_lem 80 1920 color (copy_lines 1920 0 buffer) k
    ∙ ground (arith, copy_lines_lem 1920 0 buffer k)

-- The cursor is on the screen.
abbrev pub OnScreen : Terminal → Type 0
OnScreen t = (t.terminal_row < vga_height) × (t.terminal_column < vga_width)

-- What a character may be at the cursor: a backspace needs a cell before it in the line.
abbrev pub Fits : ℕ → Terminal → Type 0
Fits c t = (u8 c ≢ 0x08) ⊎ (0 < t.terminal_column)

scrolls :
    (t : Terminal)
    → t.terminal_row ≤ vga_height
    → ((terminal_check_scroll t).terminal_row < vga_height)
      × ((terminal_check_scroll t).terminal_column ≡ t.terminal_column)
unfolding terminal_check_scroll
scrolls t h = elim (Bool-cases (t.terminal_row == vga_height)) [
  | inl e ↦ rw e (omega arith, refl)
  | inr e ↦ rw e (ground arith, refl)
]

handle_newline-OnScreen :
    (t : Terminal) → t.terminal_row < vga_height → OnScreen (terminal_handle_newline t)
unfolding terminal_handle_newline
handle_newline-OnScreen t h =
    let s =
      scrolls (record t { terminal_column = 0; terminal_row = u32 (t.terminal_row + 1) })
        (omega arith) in
    (s.0, omega (arith, s.1))

put_cell-OnScreen : (c : ℕ) (t : Terminal) → OnScreen t → Fits c t → OnScreen (put_cell (u8 c) t)
unfolding put_cell
put_cell-OnScreen c t h f = elim (Bool-cases (u8 c == b'\n')) [
  | inl e ↦ rw e (handle_newline-OnScreen t h.0)
  | inr e ↦ elim (Bool-cases (u8 c == 0x08)) [
    | inl b ↦
        let pos : 0 < t.terminal_column = elim f [
          | inl n ↦ absurd (n (ground arith))
          | inr p ↦ p
        ] in
        rw (e, b) (h.0, omega (arith, h.1))
    | inr b ↦
        rw (e, b)
          (elim (Bool-cases (u32 (t.terminal_column + 1) == vga_width)) [
            | inl w ↦ rw w (
                handle_newline-OnScreen
                  (record t {
                    terminal_buffer =
                        vga_write_char_at (u8 c) t.terminal_color t.terminal_column t.terminal_row
                          t.terminal_buffer;
                    terminal_column = u32 (t.terminal_column + 1);
                  })
                  h.0)
            | inr w ↦ rw w (h.0, ground (arith, h.1))
          ])
  ]
]

-- The cursor stays on the screen, where a backspace has a cell before it in its line.
pub terminal_putchar-OnScreen :
    (c : ℕ) (t : Terminal) → OnScreen t → Fits c t → OnScreen (terminal_putchar c t)
unfolding terminal_putchar
terminal_putchar-OnScreen c t h f = put_cell-OnScreen c t h f

-- No byte of a text is a backspace.
abbrev pub NoBackspace : List ℕ → Type 0
NoBackspace [] = ℕ
NoBackspace (c ∷ cs) = (u8 c ≢ 0x08) × NoBackspace cs

-- Writing a text without backspaces leaves the cursor on the screen.
pub terminal_write-OnScreen :
    (text : List ℕ) (t : Terminal)
    → OnScreen t
    → NoBackspace text
    → OnScreen (terminal_write text t)
unfolding terminal_write
terminal_write-OnScreen [] t h n = h
terminal_write-OnScreen (c ∷ cs) t h n =
    terminal_write-OnScreen cs (terminal_putchar c t) (terminal_putchar-OnScreen c t h (inl n.0))
      n.1

-- A printed character, on any cell of the screen but the last: its entry stands in the cell of the
-- cursor, every other cell keeps its entry, and the cursor goes to the next cell.
pub terminal_putchar_lem :
    (c : ℕ) (t : Terminal) (k : ℕ)
    → OnScreen t
    → u8 c ≢ 0x08
    → u8 c ≢ 0x0A
    → t.terminal_row * 80 + t.terminal_column < 1999
    → ((terminal_putchar c t).terminal_buffer k ≡ (
        if t.terminal_row * 80 + t.terminal_column == k
        then vga_entry (u8 c) t.terminal_color
        else t.terminal_buffer k))
      × ((terminal_putchar c t).terminal_row * 80 + (terminal_putchar c t).terminal_column
          ≡ t.terminal_row * 80 + t.terminal_column + 1)
unfolding terminal_putchar put_cell vga_write_char_at terminal_handle_newline terminal_check_scroll
terminal_putchar_lem c t k h nb nn room =
    let e : (u8 c == b'\n') ≡ false = ground arith in
    let b : (u8 c == 0x08) ≡ false = ground arith in
    elim (Bool-cases (u32 (t.terminal_column + 1) == vga_width)) [
      | inl w ↦
          let s : (u32 (t.terminal_row + 1) == vga_height) ≡ false = ground (arith, h.0, h.1) in
          rw (e, b, w, s) (ground (arith, h.0, h.1), ground (arith, h.0, h.1))
      | inr w ↦ rw (e, b, w) (ground (arith, h.0, h.1), ground (arith, h.0, h.1))
    ]

-- A backspace at the left edge leaves the screen: the column becomes 2^32 - 1, and the blank goes to
-- the index before the line, which in the first line is no cell at all.
pub terminal_putchar-backspace :
    (t : Terminal)
    → t.terminal_column ≡ 0
    → t.terminal_row < vga_height
    → ((terminal_putchar 0x08 t).terminal_column ≡ 2 ^ 32 - 1)
      × ((terminal_putchar 0x08 t).terminal_buffer (u32 (t.terminal_row * 80 + (2 ^ 32 - 1)))
          ≡ vga_entry b' ' t.terminal_color)
unfolding terminal_putchar put_cell vga_write_char_at
terminal_putchar-backspace t z h = (omega arith, ground arith)
