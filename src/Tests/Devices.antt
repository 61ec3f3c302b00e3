-- ===== src/Tests/Devices.antt =====
-- The devices: interrupt tables, segments, the terminal and the keyboard.
use olympos.Prelude.{
  ◌≢◌, ℕ, ◌+◌, ◌-◌, ◌*◌, ◌/◌, ◌%◌, ◌^◌, false, not, if◌then◌else◌, none, some, [], ◌∷◌, replicate,
  get_or, ltb, ◌&&◌, ◌==◌, bit_and, ◌≡◌, refl, arith, pos, in_range, to_index,
}
use olympos.Io.{input, output, Accesses, Device}
use olympos.Interrupts.Regs.{Regs, Handler, page_fault_handler, kb_irq_trampoline}
use olympos.Interrupts.Isr.{IsrTable, called, register_isr, isr_handler, isr_handler-register_isr}
use olympos.Interrupts.Pic.{pic_mask, pic_unmask}
use olympos.Interrupts.Pic.Lines.{KeepsMasks, masked, masked-pic_mask, masked-pic_unmask}
use olympos.Interrupts.Irq.{Irq, irq_handler, reqister_irq, unregister_irq}
use olympos.Interrupts.Irq.Dispatch.{
  acknowledged, irq_handler-reqister_irq, unregister_irq-reqister_irq,
}
use olympos.Interrupts.Idt.{Idt, zero_entry, idt_init}
use olympos.Interrupts.Idt.Gates.{Loaded, idt_init-Loaded}
use olympos.Gdt.{Gdt, gdt_set_entry, gdt_init}
use olympos.Gdt.Segments.{decode, null_entry, decode-gdt_set_entry, flat, segments, gdt_init_lem}
use olympos.Terminal.{Terminal, vga_entry, vga_scroll, terminal_putchar, terminal_write}
use olympos.Terminal.Screen.{
  OnScreen, vga_scroll_lem, terminal_write-OnScreen, terminal_putchar_lem,
  terminal_putchar-backspace,
}
use olympos.Libc.Itoa.{codes}
use olympos.Keyboard.{
  Keyboard, kbd_data_port, kbd_status_port, scancode_to_ascii, keyboard_callback_getchar,
}
use olympos.Keyboard.Input.{keyboard_callback_getchar-kb_irq_trampoline}

-- A device that gives back what was last written to a port, 0xFF before any write.
abbrev latch : Device
latch [] port = 0xFF
latch (input p ∷ log) port = latch log port
latch (output p v ∷ log) port = if p == port then v else latch log port

latch-KeepsMasks : (log : Accesses) → KeepsMasks latch log
latch-KeepsMasks log = record { own = λ port v l. ground arith; other = λ irq k v ne. ground arith }

masked-pic_mask_example :
    masked latch (pic_mask latch 11 []) 3 ≡ (if 11 == 3 then 1 else masked latch [] 3)
masked-pic_mask_example =
    masked-pic_mask latch [] 11 3 (latch-KeepsMasks []) (omega arith) (omega arith)

masked-pic_unmask_example :
    masked latch (pic_unmask latch 11 []) 11 ≡ (if 11 == 11 then 0 else masked latch [] 11)
masked-pic_unmask_example =
    masked-pic_unmask latch [] 11 11 (latch-KeepsMasks []) (omega arith) (omega arith)

abbrev no_handlers : Irq
no_handlers = record { irq_handlers = replicate 16 none; log = [] }

abbrev interrupted : ℕ → Regs
interrupted n = record {
  ds = 0x10;
  edi = 0;
  esi = 0;
  ebp = 0;
  esp_dummy = 0;
  ebx = 0;
  edx = 0;
  ecx = 0;
  eax = 0;
  int_no = n;
  err_code = 0;
  eip = 0x100000;
  cs = 0x08;
  eflags = 0x200;
  useresp = 0;
  ss = 0;
}

-- A handler that changes nothing but the log.
abbrev reads_data : Handler → Regs → Irq → Irq
reads_data h r st = record st { log = input 0x60 ∷ st.log }

irq_handler-reqister_irq_example :
    let after = (reqister_irq latch (pos 1) (some kb_irq_trampoline) no_handlers).1 in
    (◌≡◌ {A = ℕ} 1 1
      → irq_handler reads_data (interrupted 33) after
        ≡ acknowledged 1 (reads_data kb_irq_trampoline (interrupted 33) after))
    × (◌≢◌ {A = ℕ} 1 1
        → get_or no_handlers.irq_handlers 1 none ≡ none
        → irq_handler reads_data (interrupted 33) after ≡ acknowledged 1 after)
    × ((g : Handler)
        → ◌≢◌ {A = ℕ} 1 1
        → get_or no_handlers.irq_handlers 1 none ≡ some g
        → irq_handler reads_data (interrupted 33) after
          ≡ acknowledged 1 (reads_data g (interrupted 33) after))
irq_handler-reqister_irq_example =
    irq_handler-reqister_irq latch reads_data 1 1 kb_irq_trampoline (interrupted 33) no_handlers
      refl (omega arith) (omega arith) refl

unregister_irq-reqister_irq_example :
    let (status, after) =
      unregister_irq latch
        (pos 1)
        (reqister_irq latch (pos 1) (some kb_irq_trampoline) no_handlers).1 in
    (status ≡ pos 0)
    × (masked latch after.log 9 ≡ (if 1 == 9 then 1 else masked latch [] 9))
    × (get_or after.irq_handlers 9 none
        ≡ (if 1 == 9 then none else get_or no_handlers.irq_handlers 9 none))
unregister_irq-reqister_irq_example =
    unregister_irq-reqister_irq latch 1 9 kb_irq_trampoline no_handlers refl (omega arith)
      (omega arith) (latch-KeepsMasks []) (latch-KeepsMasks (pic_unmask latch 1 []))

abbrev no_isrs : IsrTable
no_isrs = replicate 32 none

isr_handler-register_isr_example :
    let (status, after) = register_isr (pos 14) (some page_fault_handler) no_isrs in
    isr_handler (interrupted 14) after ≡ (
      if in_range (pos 14) 32 && (to_index (pos 14) == 14)
      then called page_fault_handler (interrupted 14)
      else isr_handler (interrupted 14) no_isrs)
isr_handler-register_isr_example =
    isr_handler-register_isr (pos 14) page_fault_handler (interrupted 14) no_isrs refl

abbrev empty_idt : Idt
empty_idt = record { idt = []; idtr = record { limit = 0; base = 0 }; log = []; enabled = false }

idt_init-Loaded_example :
    Loaded
      (λ n. 0x101000 + 16 * n)
      (λ n. 0x102000 + 16 * n)
      33
      (get_or
        (idt_init (λ n. 0x101000 + 16 * n) (λ n. 0x102000 + 16 * n) 0x104000 empty_idt).idt
        33
        zero_entry)
idt_init-Loaded_example =
    idt_init-Loaded (λ n. 0x101000 + 16 * n) (λ n. 0x102000 + 16 * n) 0x104000 empty_idt 33
      (omega arith) (omega arith)

abbrev empty_gdt : Gdt
empty_gdt = record {
  gdt = replicate 6 null_entry;
  gdtr = record { boundary = 0; base = 0 };
  tss = record { esp0 = 0; ss0 = 0; iomap_base = 0; rest = 0 };
}

decode-gdt_set_entry_example :
    decode (get_or (gdt_set_entry 2 0x12345678 0xABCDE 0x92 0xC0 empty_gdt.gdt) 2 null_entry) ≡ (
      if 2 == 2
      then record { start = 0x12345678; limit = 0xABCDE; access = 0x92; flags = 0xC0 / 2 ^ 4 }
      else decode (get_or empty_gdt.gdt 2 null_entry))
decode-gdt_set_entry_example =
    decode-gdt_set_entry 2 0x12345678 0xABCDE 0x92 0xC0 2 empty_gdt.gdt (omega arith) (omega arith)
      (omega arith) (omega arith) (omega arith)

gdt_init_lem_example :
    (decode (get_or (gdt_init 0x103000 0x103100 0x108000 empty_gdt).gdt 5 null_entry)
      ≡ get_or (segments 0x103100) 5 (flat 0))
    × ((gdt_init 0x103000 0x103100 0x108000 empty_gdt).tss.esp0 ≡ 0x108000)
    × ((gdt_init 0x103000 0x103100 0x108000 empty_gdt).tss.ss0 ≡ 2 * 2 ^ 3)
gdt_init_lem_example =
    gdt_init_lem 0x103000 0x103100 0x108000 5 empty_gdt refl (omega arith) (omega arith)
      (omega arith)

-- The screen with the cursor at the end of its last line.
abbrev full_screen : Terminal
full_screen = record {
  terminal_row = 24;
  terminal_column = 79;
  terminal_color = 7;
  terminal_buffer = λ k. k;
  log = [];
}

vga_scroll_lem_example :
    vga_scroll 7 full_screen.terminal_buffer 81
    ≡ (if ltb 81 1920 then 161 else if ltb 81 2000 then vga_entry b' ' 7 else 81)
vga_scroll_lem_example = vga_scroll_lem 7 full_screen.terminal_buffer 81

terminal_write-OnScreen_example : OnScreen (terminal_write (codes "ok\n") full_screen)
terminal_write-OnScreen_example =
    terminal_write-OnScreen (codes "ok\n") full_screen (omega arith, omega arith)
      (omega arith, (omega arith, (omega arith, 0)))

abbrev top_left : Terminal
top_left = record full_screen { terminal_row = 0; terminal_column = 0 }

terminal_putchar_lem_example :
    ((terminal_putchar 65 top_left).terminal_buffer 0
      ≡ (if 0 * 80 + 0 == 0 then vga_entry (65 % 2 ^ 8) 7 else 0))
    × ((terminal_putchar 65 top_left).terminal_row * 80
          + (terminal_putchar 65 top_left).terminal_column
        ≡ 0 * 80 + 0 + 1)
terminal_putchar_lem_example =
    terminal_putchar_lem 65 top_left 0 (omega arith, omega arith) (omega arith) (omega arith)
      (omega arith)

terminal_putchar-backspace_example :
    ((terminal_putchar 0x08 top_left).terminal_column ≡ 2 ^ 32 - 1)
    × ((terminal_putchar 0x08 top_left).terminal_buffer ((0 * 80 + (2 ^ 32 - 1)) % 2 ^ 32)
        ≡ vga_entry b' ' 7)
terminal_putchar-backspace_example = terminal_putchar-backspace top_left refl (omega arith)

-- A keyboard that reports data, the make code of the key `a`.
abbrev pressed : Device
pressed log port = if port == 0x64 then 1 else 0x1E

abbrev waiting : Keyboard
waiting = record { keyboard_char = 0; has_char = false; log = [] }

keyboard_callback_getchar-kb_irq_trampoline_example :
    (keyboard_callback_getchar (olympos.Keyboard.kb_irq_trampoline pressed waiting)).0 ≡ (
      if not (bit_and (pressed [] kbd_status_port) 0x01 == 0)
        && (bit_and (pressed (input kbd_status_port ∷ []) kbd_data_port) 0x80 == 0)
        && ltb (pressed (input kbd_status_port ∷ []) kbd_data_port) 128
        && not
            (get_or scancode_to_ascii (pressed (input kbd_status_port ∷ []) kbd_data_port) 0 == 0)
      then some (get_or scancode_to_ascii (pressed (input kbd_status_port ∷ []) kbd_data_port) 0)
      else none)
keyboard_callback_getchar-kb_irq_trampoline_example =
    keyboard_callback_getchar-kb_irq_trampoline pressed waiting
