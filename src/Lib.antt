-- ===== src/Lib.antt =====
-- Olympos: a 32-bit x86 kernel with its C library.
--
-- The kernel boots through kernel/init/kernel.c, which starts the terminal, the symbol tables, the
-- descriptor tables, the interrupt table, the heap, the paging, the drivers and the shell. The heap
-- hands out memory to the shell; the frame allocator and the page tables stand beside it; exceptions
-- and IRQs go through the interrupt descriptor table to two tables of handlers; the keyboard is a
-- handler of IRQ 1 and gives its characters to getchar; all output ends in the terminal.
--
-- Prelude, Bits and Bitmap hold what the parts share: lists and tests over the native numbers, the
-- casts of C, the digits of a word, and the bitmaps of the two allocators. Io is the log of port
-- accesses, with the hardware as an argument.
--
-- Kheap is kernel/arch/i386/kheap.c. The record `Kheap` holds its static variables, the words of
-- memory and the lines printed; is_block_used, mark_block_used, mark_block_free, find_free_blocks,
-- kheap_init, kmalloc, kfree and kheap_stats are functions on it. `none` means a write outside
-- heap_bitmap. Kheap/Find is about the search, Kheap/Inv the order of the heap, Kheap/Alloc and
-- Kheap/Free the two operations, Kheap/Client several calls, Kheap/Limits requests and pointers at
-- the edges.
--
-- Paging is kernel/arch/i386/paging.c with the constants of kernel/include/kernel/paging.h: the
-- frame bitmap, map_page, setup_identity_mapping, paging_init and the report of page_fault_handler.
-- Memory is a function from the address of a 32-bit word. Paging/Frames is about the allocator,
-- Paging/Mapping about the translation that the tables describe, Paging/Startup about both together.
--
-- Interrupts/Isr, Interrupts/Irq, Interrupts/Idt and Interrupts/Pic are isr.c, irq.c, idt.c and pic.c
-- of kernel/arch/i386. The addresses of the assembly stubs, and what a registered function does, are
-- arguments. A panic is a value, as it does not return. Gdt is gdt.c and include/gdt.h.
--
-- Terminal is kernel/arch/i386/tty.c with drivers/vga.c and include/vga.h, over a buffer of cells by
-- index. Keyboard is drivers/keyboard.c: the interrupt handler, its registration, and the wait of
-- getchar, whose loop is seen one look at a time. Serial is drivers/serial.c with
-- kernel/include/kernel/serial.h; Serial/Uart has the registers of the chip that the accesses reach.
--
-- Debug is kernel/arch/i386/debug.c with include/elf32.h and the fields of
-- kernel/include/kernel/multiboot.h that it reads, over a memory of bytes. Debug/Find is about the
-- sections' names, Debug/Sections about debug_initialize, Debug/Lookup about the two lookups of an
-- address, and Debug/Trace about the walk of the frames.
--
-- Syscall is kernel/arch/i386/syscall.c with libc/sys/syscall.c and the putchar.c and getchar.c of
-- libc/stdio as a program links them: the handler's four branches as functions on the saved registers,
-- memory, the keys to come and the output. What `int 0x80` does is an argument of the wrappers, and
-- Syscall/Streams puts the handler there.
--
-- Shell is kernel/init/shell.c, over Kheap, Libc/Strings and Terminal. The lines are bytes and the arrays
-- of pointers words, in two memories, since no two blocks of the heap overlap. Shell/Editor is about
-- input_line, Shell/Split and Shell/Parse about parse_line, Shell/Execute about the commands; one turn of
-- the loop of init_shell is `shell_turn`, and Shell/Loop is about a turn from one prompt to the next.
-- Boot is kernel/init/kernel.c: kernel_main up to its banner.
--
-- Libc/Memory and Libc/Strings are the functions of libc/string, over a memory of bytes; Libc/Itoa is
-- libc/stdlib/itoa.c, over the list of the characters written. Libc/Stdio is libc/stdio: printf and
-- puts over the output so far, and in Libc/Stdio/Buffer vsnprintf and snprintf over memory. Both share
-- the directives; whether putchar takes a byte is an argument. Libc/Stdio/Render reads a format one
-- character at a time and says what text it stands for, with the numbers as the documentation of printf
-- reads them or all of them as an int, as the code does; Render/Directive and Render/Plain are about what
-- each piece of the code adds to that text, Render/Typed about the arguments it takes, and Render/Agrees
-- about where the two readings agree. Prints and Complete hold printf against these texts, and Buffer/Returns and
-- Buffer/Loop vsnprintf. Itoa/Numeral has the numeral of a number,
-- and Itoa/Value holds itoa against it.
--
-- Bounds and fuel. Sums of 32-bit words wrap where C's do. The two counting loops over the heap run
-- on their 2048 rounds, `find_from` on fuel 2048, which is enough because each round goes on by at
-- least one block. The loops of the string functions take fuel, and fuel above the length of the
-- string is enough. itoa has 33 rounds, one more than an int has binary digits. The
-- format loops have one round more than the format has characters, and each takes at least one.
--
-- The search for a section and the commands of the shell take the fuel of their string functions. A
-- busy wait of the serial port has fuel, and `none` is a chip that is not ready. The backtrace needs
-- none: it counts its 32 frames. parse_line has the fuel of strtok for its tokens as well, as each of
-- them has a byte of the line.
--
-- Not modelled: the assembly files and the linker script, the banner of kernel_main, and what the parts
-- print at their start beyond the messages in their states. abort.c and assert.c print and halt.
-- A write past frame_bitmap, by a kernel of more than 128 MiB, has no effect in the model.
-- What waits for an interrupt, getchar, is the list of the keys that are still to come.
pub mod Prelude
pub mod Bits
pub mod Bitmap
pub mod Io
pub mod Kheap
pub mod Interrupts
pub mod Paging
pub mod Libc
pub mod Debug
pub mod Gdt
pub mod Terminal
pub mod Keyboard
pub mod Serial
pub mod Syscall
pub mod Shell
pub mod Boot
pub mod Tests
