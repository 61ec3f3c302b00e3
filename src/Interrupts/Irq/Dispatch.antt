-- ===== src/Interrupts/Irq/Dispatch.antt =====
-- Registering, dispatching and unregistering, together.
use olympos.Prelude.{
  ℕ, ◌+◌, ◌-◌, ◌<◌, true, ◌&&◌, Option, none, some, length, get_or, set, ltb, leb, ◌==◌,
  if◌then◌else◌, pos, ◌∷◌, Bool-cases, inl, inr, false, ◌≢◌, ◌≡◌, refl, ◌∙◌, arith, length-set,
  get_or-set_self, get_or-set_ne,
}
use olympos.Io.{output, Device}
use olympos.Interrupts.Regs.{Regs, Handler}
use olympos.Interrupts.Pic.{pic_send_eoi, pic_unmask, pic_mask}
use olympos.Interrupts.Pic.Lines.{KeepsMasks, masked, masked-pic_mask, masked-pic_unmask}
use olympos.Interrupts.Irq.{Irq, call_handler, irq_handler, reqister_irq, unregister_irq}

-- The end of an interrupt of line `irq`: the command to the slave controller for the lines from 8 on,
-- and then the one to the master.
abbrev pub acknowledged : ℕ → Irq → Irq
acknowledged irq st = record st {
  log = output 0x20 0x20 ∷ (if ltb irq 8 then st.log else output 0xA0 0x20 ∷ st.log);
}

ends : (irq : ℕ) (st : Irq) → record st { log = pic_send_eoi irq st.log } ≡ acknowledged irq st
ends irq st = elim (Bool-cases (ltb irq 8)) [
  | inl e ↦ let f : leb 8 irq ≡ false = ground arith in rw (e, f) refl
  | inr e ↦ let f : leb 8 irq ≡ true = ground arith in rw (e, f) refl
]

registered : Device → ℕ → Option Handler → Irq → Irq
registered device irq handler st = record {
  irq_handlers = set st.irq_handlers irq handler;
  log = pic_unmask device irq st.log;
}

registers :
    (device : Device) (irq : ℕ) (handler : Option Handler) (st : Irq)
    → irq < 16
    → reqister_irq device (pos irq) handler st ≡ (pos 0, registered device irq handler st)
unfolding reqister_irq registered
registers device irq handler st l = ground arith

-- An interrupt of line `irq` runs what its slot holds, and then ends the interrupt.
handles :
    (run : Handler → Regs → Irq → Irq) (irq : ℕ) (slot : Option Handler) (r : Regs) (st : Irq)
    → irq < 16
    → r.int_no ≡ 32 + irq
    → get_or st.irq_handlers irq none ≡ slot
    → irq_handler run r st ≡ acknowledged irq (call_handler run slot r st)
unfolding irq_handler
handles run irq slot r st l e f =
    let g : r.int_no - 32 ≡ irq = omega arith in
    let b : (leb 32 r.int_no && ltb r.int_no 48) ≡ true = ground arith in
    rw (b, g, f) (ends irq (call_handler run slot r st))

-- On a table of 16 slots, after a handler is registered for a line of the 16: an interrupt of that line
-- runs it once and then sends the end of interrupt, to the slave controller too for a line from 8 on.
-- An interrupt of another line does the same with the handler that its slot held before, and for an
-- empty slot it just sends the end of interrupt.
pub irq_handler-reqister_irq :
    (device : Device) (run : Handler → Regs → Irq → Irq) (irq line : ℕ) (h : Handler) (r : Regs)
    (st : Irq)
    → length st.irq_handlers ≡ 16
    → irq < 16
    → line < 16
    → r.int_no ≡ 32 + line
    → let after = (reqister_irq device (pos irq) (some h) st).1 in
      (irq ≡ line → irq_handler run r after ≡ acknowledged line (run h r after))
      × (irq ≢ line
          → get_or st.irq_handlers line none ≡ none
          → irq_handler run r after ≡ acknowledged line after)
      × ((g : Handler)
          → irq ≢ line
          → get_or st.irq_handlers line none ≡ some g
          → irq_handler run r after ≡ acknowledged line (run g r after))
unfolding registered call_handler
irq_handler-reqister_irq device run irq line h r st size l m e =
    rw (registers device irq (some h) st l) (
      λ q. handles run line (some h) r after m e (ground (arith, q, own)),
      λ q n. handles run line none r after m e (ground (arith, q, n, other)),
      λ g q n. handles run line (some g) r after m e (ground (arith, q, n, other)),
    )
  where
    after : Irq
    after = registered device irq (some h) st

    own : irq ≡ line → get_or after.irq_handlers line none ≡ some h
    own q = ground (arith, q, get_or-set_self st.irq_handlers irq (some h) none)

    other : irq ≢ line → get_or after.irq_handlers line none ≡ get_or st.irq_handlers line none
    other q = ground (arith, q, get_or-set_ne st.irq_handlers irq line (some h) none)

unregisters :
    (device : Device) (irq : ℕ) (st : Irq)
    → irq < 16
    → unregister_irq device (pos irq) st ≡ (
      pos 0,
      record { irq_handlers = set st.irq_handlers irq none; log = pic_mask device irq st.log },
    )
unfolding unregister_irq
unregisters device irq st l = ground arith

-- Registering and unregistering a line of the 16 leaves it disabled at the controllers, with every
-- other line as it was, and without a handler. It holds where the controllers keep their masks, also
-- after the first change.
pub unregister_irq-reqister_irq :
    (device : Device) (irq k : ℕ) (h : Handler) (st : Irq)
    → length st.irq_handlers ≡ 16
    → irq < 16
    → k < 16
    → KeepsMasks device st.log
    → KeepsMasks device (pic_unmask device irq st.log)
    → let (status, after) =
        unregister_irq device (pos irq) (reqister_irq device (pos irq) (some h) st).1 in
      (status ≡ pos 0)
      × (masked device after.log k ≡ (if irq == k then 1 else masked device st.log k))
      × (get_or after.irq_handlers k none
          ≡ (if irq == k then none else get_or st.irq_handlers k none))
unfolding registered
unregister_irq-reqister_irq device irq k h st size l g keeps keeps_after =
    rw
      (
        registers device irq (some h) st l,
        unregisters device irq (registered device irq (some h) st) l,
      )
      (
        refl,
        masked-pic_mask device (pic_unmask device irq st.log) irq k keeps_after l g
            ∙ ground (arith, masked-pic_unmask device st.log irq k keeps l g),
        ground (
          arith,
          length-set st.irq_handlers irq (some h),
          get_or-set_self (set st.irq_handlers irq (some h)) irq none none,
          get_or-set_ne (set st.irq_handlers irq (some h)) irq k none none,
          get_or-set_ne st.irq_handlers irq k (some h) none,
        ),
      )
