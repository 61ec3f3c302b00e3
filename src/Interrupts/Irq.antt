-- ===== src/Interrupts/Irq.antt =====
-- kernel/arch/i386/irq.c: the table of IRQ handlers and its dispatcher.
pub mod Dispatch
use olympos.Prelude.{
  ℕ, ◌+◌, ◌-◌, ◌<◌, Bool, true, false, ◌&&◌, Option, none, some, List, length, get_or, set, ltb,
  leb, ◌==◌, if◌then◌else◌, ℤ, pos, negsuc, in_range, to_index, ◌≡◌, refl, ap, arith, length-set,
  get_or-set_self, get_or-set_ne,
}
use olympos.Io.{Accesses, Device}
use olympos.Interrupts.Regs.{Regs, Handler}
use olympos.Interrupts.Pic.{pic_send_eoi, pic_unmask, pic_mask}

-- `irq_handlers`, 16 slots with `none` for NULL, and the port accesses so far.
pub record Irq : Type 0 where
  pub irq_handlers : List (Option Handler)
  pub log : Accesses

-- The call through the table's slot. `run` is what the function behind a pointer does: any change
-- of this state.
unfoldable pub call_handler : (Handler → Regs → Irq → Irq) → Option Handler → Regs → Irq → Irq
call_handler run none r st = st
call_handler run (some handler) r st = run handler r st

unfoldable pub irq_handler : (Handler → Regs → Irq → Irq) → Regs → Irq → Irq
irq_handler run r st =
    if leb 32 r.int_no && ltb r.int_no 48
    then (let irq = r.int_no - 32 in
        let after = call_handler run (get_or st.irq_handlers irq none) r st in
        record after { log = pic_send_eoi irq after.log })
    else st

unfoldable pub reqister_irq : Device → ℤ → Option Handler → Irq → ℤ × Irq
reqister_irq device irq handler st =
    if in_range irq 16
    then (
      pos 0,
      record {
        irq_handlers = set st.irq_handlers (to_index irq) handler;
        log = pic_unmask device (to_index irq) st.log;
      },
    )
    else (negsuc 0, st)

unfoldable pub unregister_irq : Device → ℤ → Irq → ℤ × Irq
unregister_irq device irq st =
    if in_range irq 16
    then (
      pos 0,
      record {
        irq_handlers = set st.irq_handlers (to_index irq) none;
        log = pic_mask device (to_index irq) st.log;
      },
    )
    else (negsuc 0, st)
