-- ===== src/Interrupts/Regs.antt =====
-- The saved CPU state of kernel/arch/i386/include/interrupts.h, and the handlers that the kernel
-- registers.
use olympos.Prelude.{ℕ}

pub record Regs : Type 0 where
  pub ds : ℕ
  pub edi : ℕ
  pub esi : ℕ
  pub ebp : ℕ
  pub esp_dummy : ℕ
  pub ebx : ℕ
  pub edx : ℕ
  pub ecx : ℕ
  pub eax : ℕ
  pub int_no : ℕ
  pub err_code : ℕ
  pub eip : ℕ
  pub cs : ℕ
  pub eflags : ℕ
  pub useresp : ℕ
  pub ss : ℕ

-- A function pointer: one of the kernel's own handlers, or another function by its address.
pub data Handler : Type 0 where
  page_fault_handler : Handler
  kb_irq_trampoline : Handler
  function : ℕ → Handler
