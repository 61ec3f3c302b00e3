-- ===== src/Boot.antt =====
-- kernel/init/kernel.c: the order in which `kernel_main` starts the parts of the kernel, up to the
-- banner that it prints before the shell. What the parts print is in their own states.
pub mod Order
use olympos.Prelude.{ℕ, not, ◌==◌, if◌then◌else◌, Option, none, some, Memory}
use olympos.Io.{Device}
use olympos.Debug.{Debug, debug_initialize}
use olympos.Gdt.{Gdt, gdt_init}
use olympos.Interrupts.Idt.{Idt, idt_init}
use olympos.Interrupts.Irq.{Irq}
use olympos.Keyboard.{keyboard_initialize}
use olympos.Kheap.{Kheap, kheap_init}
use olympos.Paging.{Paging, paging_init}
use olympos.Terminal.{Terminal, terminal_initialize}

abbrev pub multiboot_bootloader_magic : ℕ
multiboot_bootloader_magic = 0x2BADB002

-- The addresses that the linker gives, the assembly stubs by their vectors and lines, and the hardware.
-- `fuel` is that of the comparisons of section names.
pub record Layout : Type 0 where
  pub kernel_end : ℕ
  pub symtab : ℕ
  pub strtab : ℕ
  pub fuel : ℕ
  pub gdt : ℕ
  pub tss : ℕ
  pub stack_top : ℕ
  pub isr : ℕ → ℕ
  pub irq : ℕ → ℕ
  pub idt : ℕ
  pub kernel_page_directory : ℕ
  pub kernel_page_tables : ℕ
  pub device : Device

-- The static state of each part.
pub record Kernel : Type 0 where
  pub terminal : Terminal
  pub debug : Debug
  pub gdt : Gdt
  pub idt : Idt
  pub paging : Paging
  pub kheap : Kheap
  pub irq : Irq

-- The kernel stops at its assertion, or has started, or has no value in the model.
pub data Start : Type 0 where
  aborted undefined : Start
  started : Kernel → Start

-- The calls behind `debug_initialize`, in their order. The parts share the ports: each finds the accesses
-- of those before it.
abbrev pub initialize_rest : Layout → Kernel → Debug → Kernel
initialize_rest l k debug =
    let gdt = gdt_init l.gdt l.tss l.stack_top k.gdt in
    let idt = idt_init l.isr l.irq l.idt (record k.idt { log = k.terminal.log }) in
    let paging =
      paging_init debug.elf_sections_end l.kernel_page_directory l.kernel_page_tables k.paging in
    let kheap = kheap_init debug.elf_sections_end k.kheap in
    let irq = keyboard_initialize l.device (record k.irq { log = idt.log }) in
    record {
      terminal = k.terminal;
      debug = debug;
      gdt = gdt;
      idt = idt;
      paging = paging;
      kheap = kheap;
      irq = irq;
    }

abbrev pub after_debug : Layout → Kernel → Option Debug → Start
after_debug l k none = undefined
after_debug l k (some debug) = started (initialize_rest l k debug)

unfoldable pub kernel_main : Layout → ℕ → ℕ → Memory → Kernel → Start
kernel_main l magic addr m k =
    let cleared : Kernel = record k { terminal = terminal_initialize k.terminal } in
    if not (magic == multiboot_bootloader_magic)
    then aborted
    else after_debug l cleared
        (debug_initialize l.fuel l.kernel_end l.symtab l.strtab m addr k.debug)
