-- ===== src/Syscall/Calls.antt =====
-- What each system call does to the registers and the machine.
use olympos.Prelude.{
  skips, ◌≤◌, length-append, ℕ, zero, suc, ◌+◌, ◌-◌, ◌^◌, ◌<◌, true, false, not, ◌&&◌, some, List,
  [], ◌∷◌, ◌++◌, length, ◌==◌, u8, u32, Memory, store, ◌≡◌, ◌≢◌, ◌⊎◌, inl, inr, refl, sym, ap, ap₂,
  ◌∙◌, arith,
}
use mathlib.Core.List.{append-nil, append_assoc}
use olympos.Interrupts.Regs.{Regs}
use olympos.Libc.Itoa.{codes}
use olympos.Libc.Itoa.Value.{int_text, length-int_text}
use olympos.Libc.Stdio.{word, as_int, int_max}
use olympos.Libc.Stdio.Render.{render_at, signed_text}
use olympos.Libc.Stdio.Complete.{printf-char, printf_prints, printf_returns}
use olympos.Libc.Stdio.Render.Typed.{fits_at, fits}
use olympos.Libc.Strings.{◌>>=◌}
use olympos.Syscall.{
  Machine, returned, halted, waiting, takes_all, printed, print_to, behind, after_reading, promote,
  got, waits, read_from, write_from, failed, handle_exit, handle_read, handle_write, handle_unknown,
  syscall_handler,
}

all : (out : List ℕ) (c : ℕ) → takes_all out c ≡ true
all out c = refl

u8-promote : (b : ℕ) → u8 (promote b) ≡ u8 b
u8-promote b = ground arith

print_to-char :
    (s : Machine) (w : ℕ)
    → print_to s (codes "%c") (word w ∷ []) ≡ some (record s { output = s.output ++ u8 w ∷ [] })
print_to-char s w = ap (printed s) (printf-char takes_all all w s.output)

-- The bytes from an address on.
abbrev pub bytes_at : Memory → ℕ → ℕ → List ℕ
bytes_at memory buf zero = []
bytes_at memory buf (suc n) = u8 (memory (u32 buf)) ∷ bytes_at memory (buf + 1) n

write_from_lem :
    (n i buf : ℕ) (s : Machine)
    → write_from n i buf s ≡ some (record s { output = s.output ++ bytes_at s.memory (buf + i) n })
unfolding write_from
write_from_lem zero i buf s =
    ap (λ (t : List ℕ). some (record s { output = t })) (sym (append-nil s.output))
write_from_lem (suc n) i buf s =
    let w = promote (s.memory (u32 (buf + i))) in
    ap (λ o. o >>= (λ s'. write_from n (i + 1) buf s')) (print_to-char s w)
    ∙ write_from_lem n (i + 1) buf _
    ∙ ap (λ (u : List ℕ). some (record s { output = u }))
        (append_assoc s.output (u8 w ∷ []) (bytes_at s.memory (buf + (i + 1)) n)
          ∙ ap₂ (λ (a b : ℕ). s.output ++ a ∷ bytes_at s.memory b n)
              (u8-promote (s.memory (u32 (buf + i)))) (omega arith))

-- The bytes of keys, written from an address on.
abbrev pub typed_bytes : Memory → ℕ → List ℕ → Memory
typed_bytes memory buf [] = memory
typed_bytes memory buf (c ∷ keys) = typed_bytes (store memory (u32 buf) (u8 c)) (buf + 1) keys

-- No key has the code 0xFF, which a `char` turns into the end of file.
abbrev pub AreKeys : List ℕ → Type 0
AreKeys [] = zero ≡ zero
AreKeys (c ∷ keys) = (c ≢ 255) × AreKeys keys

reads_key :
    (n i buf c : ℕ) (memory : Memory) (keys output : List ℕ)
    → c ≢ 255
    → read_from (suc n) i buf (record { memory = memory; keys = c ∷ keys; output = output })
      ≡ read_from n
          (i + 1)
          buf
          (record { memory = store memory (u32 (buf + i)) (u8 c); keys = keys; output = output })
unfolding read_from
reads_key n i buf c memory keys output h = skips (promote c == 2 ^ 32 - 1) _ _ (ground arith)

read_from-got :
    (keys rest : List ℕ) (i buf : ℕ) (memory : Memory) (output : List ℕ)
    → AreKeys keys
    → read_from
        (length keys)
        i
        buf
        (record { memory = memory; keys = keys ++ rest; output = output })
      ≡ got
          (i + length keys)
          (record { memory = typed_bytes memory (buf + i) keys; keys = rest; output = output })
unfolding read_from
read_from-got [] rest i buf memory output h =
    ap (λ (k : ℕ). got k (record { memory = memory; keys = rest; output = output })) (omega arith)
read_from-got (c ∷ keys) rest i buf memory output h =
    reads_key (length keys) i buf c memory (keys ++ rest) output h.0
    ∙ read_from-got keys rest (i + 1) buf (store memory (u32 (buf + i)) (u8 c)) output h.1
    ∙ ap₂
        (λ (k b : ℕ). got k (record {
          memory = typed_bytes (store memory (u32 (buf + i)) (u8 c)) b keys;
          keys = rest;
          output = output;
        }))
        (omega arith) (omega arith)

read_from-waits :
    (n : ℕ) (keys : List ℕ) (i buf : ℕ) (memory : Memory) (output : List ℕ)
    → AreKeys keys
    → length keys < n
    → read_from n i buf (record { memory = memory; keys = keys; output = output })
      ≡ waits (record { memory = typed_bytes memory (buf + i) keys; keys = []; output = output })
unfolding read_from
read_from-waits zero keys i buf memory output h lt = absurd (omega arith)
read_from-waits (suc n) [] i buf memory output h lt = refl
read_from-waits (suc n) (c ∷ keys) i buf memory output h lt =
    reads_key n i buf c memory keys output h.0
    ∙ read_from-waits n keys (i + 1) buf (store memory (u32 (buf + i)) (u8 c)) output h.1
        (omega arith)
    ∙ ap
        (λ (b : ℕ). waits (record {
          memory = typed_bytes (store memory (u32 (buf + i)) (u8 c)) b keys;
          keys = [];
          output = output;
        }))
        (omega arith)

-- A write call to the standard output or error of any number of bytes puts out just the bytes from the
-- buffer on, each once and in order, leaves memory and keys alone, and returns the number.
pub write_call :
    (r : Regs) (s : Machine)
    → r.eax ≡ 4
    → (r.ebx ≡ 1) ⊎ (r.ebx ≡ 2)
    → syscall_handler r s
      ≡ returned
          (record r { eax = r.edx })
          (record s { output = s.output ++ bytes_at s.memory r.ecx r.edx })
unfolding syscall_handler handle_write
write_call r s e f =
    let q : not (r.ebx == 1) && not (r.ebx == 2) ≡ false = ground arith in
    rw (e, q)
      (ap (λ o. behind o (returned (record r { eax = r.edx }))) (write_from_lem r.edx 0 r.ecx s)
        ∙ ap
            (λ (b : ℕ).
              returned (record r { eax = r.edx })
                (record s { output = s.output ++ bytes_at s.memory b r.edx }))
            (omega arith))

-- A read call from the standard input takes the keys in order into the buffer, one byte each, and
-- returns their number once the buffer is full; with fewer keys than the buffer has room for it takes all of them
-- and waits. Keys of the code 0xFF excepted.
pub read_call :
    (r : Regs) (keys rest : List ℕ) (memory : Memory) (output : List ℕ)
    → r.eax ≡ 3
    → r.ebx ≡ 0
    → r.edx < 2 ^ 32
    → AreKeys keys
    → ((length keys ≡ r.edx)
        → syscall_handler r (record { memory = memory; keys = keys ++ rest; output = output })
          ≡ returned
              (record r { eax = r.edx })
              (record { memory = typed_bytes memory r.ecx keys; keys = rest; output = output }))
      × ((length keys < r.edx)
          → syscall_handler r (record { memory = memory; keys = keys; output = output })
            ≡ waiting
                (record { memory = typed_bytes memory r.ecx keys; keys = []; output = output }))
unfolding syscall_handler handle_read
read_call r keys rest memory output e f w k = (
  (λ n.
      rw (e, f, sym n)
        (ap (after_reading (record r { eax = 3; ebx = 0; edx = length keys }))
            (read_from-got keys rest 0 r.ecx memory output k)
          ∙ ap₂
              (λ (a b : ℕ).
                returned (record r { eax = a; ebx = 0; edx = length keys })
                  (record { memory = typed_bytes memory b keys; keys = rest; output = output }))
              (omega (arith, n, w)) (omega arith))),
  (λ n.
      rw (e, f)
        (ap (after_reading (record r { eax = 3; ebx = 0 }))
            (read_from-waits r.edx keys 0 r.ecx memory output k n)
          ∙ ap
              (λ (b : ℕ).
                waiting (record { memory = typed_bytes memory b keys; keys = []; output = output }))
              (omega arith))),
)

abbrev unknown_format : List ℕ
unknown_format = codes "[SYSCALL] Unknown system call: %u\n"

unknown_number :
    (r : Regs) (s : Machine)
    → (r.eax ≢ 1) × (r.eax ≢ 3) × (r.eax ≢ 4)
    → syscall_handler r s ≡ handle_unknown r s
unfolding syscall_handler
unknown_number r s h = ground (arith, h.0, h.1)

-- What the handler prints for an unknown number.
abbrev pub unknown_text : ℕ → List ℕ
unknown_text number =
    codes "[SYSCALL] Unknown system call: " ++ int_text 10 (as_int number) ++ codes "\n"

unknown-stands : (n : ℕ) → signed_text unknown_format (word n ∷ []) ≡ some (unknown_text n)
unfolding render_at
unknown-stands n = refl

unknown-short : (n : ℕ) → length (unknown_text n) ≤ int_max
unknown-short n =
    let h = length-int_text 10 (as_int n) in
    let e = length-append (int_text 10 (as_int n)) (codes "\n") in omega (arith, h, e)

-- A read or a write of any other file descriptor, and a call of any other number, returns -1 with
-- memory and keys as they were. The read and the write print nothing; the call of an unknown number
-- prints the line with the number, taken as an `int`.
pub syscall_fails :
    (r : Regs) (s : Machine)
    → ((r.eax ≡ 3) × (r.ebx ≢ 0))
      ⊎ ((r.eax ≡ 4) × (r.ebx ≢ 1) × (r.ebx ≢ 2))
      ⊎ ((r.eax ≢ 1) × (r.eax ≢ 3) × (r.eax ≢ 4))
    → (out : List ℕ) × (syscall_handler r s
        ≡ returned (record r { eax = 2 ^ 32 - 1 }) (record s { output = out }))
      × ((r.eax ≡ 3) ⊎ (r.eax ≡ 4) → out ≡ s.output)
      × ((r.eax ≢ 1) × (r.eax ≢ 3) × (r.eax ≢ 4) → out ≡ s.output ++ unknown_text r.eax)
unfolding syscall_handler handle_read handle_write handle_unknown
syscall_fails r s (inl h) =
    (s.output, rw h.0 (ground (arith, h.1)), λ k. refl, λ k. absurd (k.1 h.0))
syscall_fails r s (inr (inl h)) =
    (s.output, rw h.0 (ground (arith, h.1)), λ k. refl, λ k. absurd (k.2 h.0))
syscall_fails r s (inr (inr h)) =
    let p =
      printf_prints takes_all all unknown_format (word r.eax ∷ []) s.output (unknown_text r.eax)
        (unknown-stands r.eax) (unknown-short r.eax) in
    (
      s.output ++ unknown_text r.eax,
      unknown_number r s h ∙ ap (λ o. behind (printed s o) (failed r)) p,
      λ k. absurd (elim k [ inl e ↦ h.1 e | inr e ↦ h.2 e ]),
      λ k. refl,
    )

abbrev exit_format : List ℕ
exit_format = codes "\n[SYSCALL] User program exited with code %d\n"

exit-fits : (n : ℕ) → fits exit_format (word n ∷ []) ≡ true
unfolding fits_at
exit-fits n = refl

-- The exit call, whatever the status, prints a line and halts the kernel: the program does not get control back.
pub exit_call :
    (r : Regs) (s : Machine)
    → r.eax ≡ 1
    → (out : List ℕ) × (syscall_handler r s ≡ halted (record s { output = out }))
unfolding syscall_handler handle_exit
exit_call r s e =
    let (q, p) =
      printf_returns takes_all all exit_format (word r.ebx ∷ []) s.output (exit-fits r.ebx) in
    (q.1, rw e (ap (λ o. behind (printed s o) halted) p))
