-- ===== src/Interrupts.antt =====
-- Interrupts and exceptions: the saved registers, and the components that dispatch on them.
pub mod Idt
pub mod Irq
pub mod Isr
pub mod Pic
pub mod Regs
