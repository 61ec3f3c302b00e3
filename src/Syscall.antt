-- ===== src/Syscall.antt =====
-- kernel/arch/i386/syscall.c and libc/sys/syscall.c: the handler of `int 0x80`, the wrappers that a
-- program calls, and `putchar` and `getchar` as a program links them.
pub mod Calls
pub mod Streams
use olympos.Prelude.{
  ℕ, zero, suc, ◌+◌, ◌-◌, ◌^◌, Bool, true, false, not, ◌&&◌, Option, none, some, List, [], ◌∷◌, ltb,
  ◌==◌, if◌then◌else◌, u8, u32, Memory, store, ℤ, pos, negsuc,
}
use olympos.Interrupts.Regs.{Regs}
use olympos.Interrupts.Idt.{IdtEntry, idt_set_gate}
use olympos.Gdt.{kernel_cs}
use olympos.Libc.Itoa.{codes}
use olympos.Libc.Stdio.{Argument, word, as_int, printf}
use olympos.Libc.Strings.{◌>>=◌}

-- Memory by bytes, the characters that the keyboard still gives, and the kernel's output.
pub record Machine : Type 0 where
  pub memory : Memory
  pub keys : List ℕ
  pub output : List ℕ

-- The handler comes back to the program with the registers; or the program has ended, and the kernel
-- halts; or `getchar` waits for a key that does not come. `undefined` is a `printf` without a value.
pub data Outcome : Type 0 where
  returned : Regs → Machine → Outcome
  halted : Machine → Outcome
  waiting : Machine → Outcome
  undefined : Outcome

abbrev pub syscall_exit : ℕ
syscall_exit = 1

abbrev pub syscall_read : ℕ
syscall_read = 3

abbrev pub syscall_write : ℕ
syscall_write = 4

-- The kernel's `putchar` takes every byte.
abbrev pub takes_all : List ℕ → ℕ → Bool
takes_all out c = true

abbrev pub printed : Machine → Option (ℤ × List ℕ) → Option Machine
printed s none = none
printed s (some (written, out)) = some (record s { output = out })

-- `printf` in the kernel, its result not looked at.
abbrev pub print_to : Machine → List ℕ → List Argument → Option Machine
print_to s format parameters = printed s (printf takes_all format parameters s.output)

-- What a handler does behind its `printf`.
abbrev pub behind : Option Machine → (Machine → Outcome) → Outcome
behind none f = undefined
behind (some s) f = f s

-- A byte as a `char`, promoted to the 32 bits of an `int`.
abbrev pub promote : ℕ → ℕ
promote b = if ltb b 128 then b else 2 ^ 32 - 256 + b

-- What the reading loop comes to: `i` characters, or a wait.
pub data Reading : Type 0 where
  got : ℕ → Machine → Reading
  waits : Machine → Reading

-- The reading loop from character `i` on, with `n` rounds left before `i < count` fails. The end of
-- file, -1, is what a key of the code 0xFF would give.
pub read_from : ℕ → ℕ → ℕ → Machine → Reading
read_from zero i buf s = got i s
read_from (suc n) i buf s = elim s.keys [
  | [] ↦ waits s
  | c ∷ keys ↦ elim (promote c == 2 ^ 32 - 1) [
    | true ↦ got i (record s { keys = keys })
    | false ↦
        read_from n (i + 1) buf (record {
          memory = store s.memory (u32 (buf + i)) (u8 c);
          keys = keys;
          output = s.output;
        })
  ]
]

-- The writing loop from character `i` on, with `n` rounds left.
pub write_from : ℕ → ℕ → ℕ → Machine → Option Machine
write_from zero i buf s = some s
write_from (suc n) i buf s =
    print_to s (codes "%c") (word (promote (s.memory (u32 (buf + i)))) ∷ [])
    >>= (λ s'. write_from n (i + 1) buf s')

-- `-1` in `eax`.
abbrev pub failed : Regs → Machine → Outcome
failed r s = returned (record r { eax = 2 ^ 32 - 1 }) s

unfoldable pub handle_exit : Regs → Machine → Outcome
handle_exit r s =
    behind (print_to s (codes "\n[SYSCALL] User program exited with code %d\n") (word r.ebx ∷ []))
      halted

abbrev pub after_reading : Regs → Reading → Outcome
after_reading r (got i s) = returned (record r { eax = u32 i }) s
after_reading r (waits s) = waiting s

unfoldable pub handle_read : Regs → Machine → Outcome
handle_read r s =
    if not (r.ebx == 0) then failed r s else after_reading r (read_from r.edx 0 r.ecx s)

unfoldable pub handle_write : Regs → Machine → Outcome
handle_write r s =
    if not (r.ebx == 1) && not (r.ebx == 2)
    then failed r s
    else behind (write_from r.edx 0 r.ecx s) (returned (record r { eax = r.edx }))

unfoldable pub handle_unknown : Regs → Machine → Outcome
handle_unknown r s =
    behind (print_to s (codes "[SYSCALL] Unknown system call: %u\n") (word r.eax ∷ [])) (failed r)

unfoldable pub syscall_handler : Regs → Machine → Outcome
syscall_handler r s =
    if r.eax == syscall_exit
    then handle_exit r s
    else if r.eax == syscall_read
    then handle_read r s
    else if r.eax == syscall_write
    then handle_write r s
    else handle_unknown r s

abbrev pub flags_syscall_gate : ℕ
flags_syscall_gate = 0xEF

-- Its line of output is left out.
unfoldable pub syscall_init : ℕ → List IdtEntry → List IdtEntry
syscall_init isr128 idt = idt_set_gate 0x80 isr128 kernel_cs flags_syscall_gate idt

-- What `int 0x80` does, from the registers of the program: the gate, its stub and the handler.
abbrev pub Trap : Type 0
Trap = Regs → Machine → Outcome

-- The wrappers of the library. The result is in `eax` of the outcome.
unfoldable pub write : Trap → ℕ → ℕ → ℕ → Regs → Machine → Outcome
write trap fd buf count r s = trap (record r { eax = 4; ebx = fd; ecx = buf; edx = count }) s

unfoldable pub read : Trap → ℕ → ℕ → ℕ → Regs → Machine → Outcome
read trap fd buf count r s = trap (record r { eax = 3; ebx = fd; ecx = buf; edx = count }) s

unfoldable pub exit : Trap → ℕ → Regs → Machine → Outcome
exit trap status r s = trap (record r { eax = 1; ebx = status }) s

-- The generic call, with its five arguments.
unfoldable pub syscall : Trap → ℕ → ℕ → ℕ → ℕ → ℕ → ℕ → Regs → Machine → Outcome
syscall trap number arg1 arg2 arg3 arg4 arg5 r s =
    trap (record r { eax = number; ebx = arg1; ecx = arg2; edx = arg3; esi = arg4; edi = arg5 }) s

-- A function of the library that makes one call and looks at its result: the value and the machine,
-- or the outcome that did not return.
pub data Result : Type 0 where
  value : ℤ → Machine → Result
  stuck : Outcome → Result

-- A result of 1 is one byte; any other is a failure.
abbrev pub looked_at : Outcome → (Machine → ℤ) → Result
looked_at (returned r s) f = if r.eax == 1 then value (f s) s else value (negsuc 0) s
looked_at (halted s) f = stuck (halted s)
looked_at (waiting s) f = stuck (waiting s)
looked_at undefined f = stuck undefined

-- `c` is the address of the local variable.
unfoldable pub putchar : Trap → ℕ → ℕ → Regs → Machine → Result
putchar trap c ic r s =
    looked_at (write trap 1 c 1 r (record s { memory = store s.memory c (u8 ic) }))
      (λ s'. as_int ic)

unfoldable pub getchar : Trap → ℕ → Regs → Machine → Result
getchar trap c r s = looked_at (read trap 0 c 1 r s) (λ s'. pos (s'.memory c))
