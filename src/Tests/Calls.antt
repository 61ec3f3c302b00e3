-- ===== src/Tests/Calls.antt =====
-- Formatted output and system calls at concrete inputs.
use olympos.Prelude.{
  ◌≢◌, length, ◌+◌, ℕ, Bool, true, some, List, [], ◌∷◌, ◌++◌, length, ◌≡◌, ◌⊎◌, ◌<◌, inl, inr, refl,
  arith, Memory, pos, negsuc, store, u8,
}
use olympos.Interrupts.Regs.{Regs}
use olympos.Libc.Itoa.{codes, itoa}
use olympos.Libc.Itoa.Numeral.{numeral, numeral_value}
use olympos.Libc.Itoa.Value.{itoa-Denotes, itoa-unsigned}
use olympos.Libc.Stdio.{Argument, word, text, as_int, printf}
use olympos.Libc.Stdio.Complete.{Completes, printf-Completes, printf-unsigned}
use olympos.Libc.Stdio.Prints.{Prints, printf-Prints}
use olympos.Libc.Stdio.Render.{render_at, render}
use olympos.Libc.Stdio.Render.Typed.{fits_at, fits, in_range}
use olympos.Syscall.{Machine, returned, waiting, syscall_handler, value, putchar, getchar}
use olympos.Syscall.Calls.{
  bytes_at, typed_bytes, write_call, read_call, unknown_text, syscall_fails,
}
use olympos.Syscall.Streams.{putchar_lem, getchar_lem}

abbrev takes_all : List ℕ → ℕ → Bool
takes_all out c = true

abbrev key_format : List ℕ
key_format = codes "%s: %c%%\n"

abbrev key_arguments : List Argument
key_arguments = text (codes "key") ∷ word 0x141 ∷ []

key_text : render key_format key_arguments ≡ some (codes "key: A%\n")
unfolding render_at
key_text = refl

key_range : in_range key_format key_arguments ≡ true
unfolding fits_at
key_range = refl

printf-Prints_example :
    Prints 0
      (codes "$ ")
      (codes "key: A%\n")
      (printf takes_all key_format key_arguments (codes "$ "))
printf-Prints_example =
    printf-Prints takes_all (λ out c. refl) key_format key_arguments (codes "$ ")
      (codes "key: A%\n") key_range key_text

printf-unsigned_example :
    (render (codes "%u") (word 4294967295 ∷ []) ≡ some (numeral 10 4294967295))
    × (printf takes_all (codes "%u") (word 4294967295 ∷ []) []
        ≡ some (pos (1 + length (numeral 10 1)), b'-' ∷ numeral 10 1))
    × (render (codes "%x") (word 4294967295 ∷ []) ≡ some (numeral 16 4294967295))
    × (printf takes_all (codes "%x") (word 4294967295 ∷ []) []
        ≡ some (pos (length (numeral 16 1)), numeral 16 1))
printf-unsigned_example =
    printf-unsigned takes_all (λ out c. refl) 4294967295 [] (omega arith) (omega arith)

abbrev frame_arguments : List Argument
frame_arguments = word 3 ∷ text (codes "main") ∷ word 0x1f ∷ word 0x101000 ∷ []

frame-fits : fits (codes "  [%d] %s+0x%x (%p)\n") frame_arguments ≡ true
unfolding fits_at
frame-fits = refl

printf-Completes_example :
    Completes
      (codes "  [%d] %s+0x%x (%p)\n")
      frame_arguments
      []
      (printf takes_all (codes "  [%d] %s+0x%x (%p)\n") frame_arguments [])
printf-Completes_example =
    printf-Completes takes_all (λ out c. refl) (codes "  [%d] %s+0x%x (%p)\n") frame_arguments []
      frame-fits

itoa-Denotes_example :
    (itoa (negsuc 41) (pos 10) ≡ some (b'-' ∷ numeral 10 42))
    × (numeral_value 10 (numeral 10 42) ≡ 42)
itoa-Denotes_example =
    itoa-Denotes (negsuc 41) 10 (omega arith) (omega arith) (omega arith) (inl refl)

itoa-unsigned_example :
    (itoa (negsuc 41) (pos 16) ≡ some (numeral 16 42)) × (numeral 16 42 ≢ numeral 16 4294967254)
itoa-unsigned_example = itoa-unsigned 41 16 (omega arith) (omega arith) (omega arith) (omega arith)

abbrev call : ℕ → ℕ → ℕ → ℕ → Regs
call eax ebx ecx edx = record {
  ds = 0x23;
  edi = 0;
  esi = 0;
  ebp = 0;
  esp_dummy = 0;
  ebx = ebx;
  edx = edx;
  ecx = ecx;
  eax = eax;
  int_no = 0x80;
  err_code = 0;
  eip = 0x400000;
  cs = 0x1B;
  eflags = 0x202;
  useresp = 0;
  ss = 0x23;
}

abbrev memory : Memory
memory a = a

abbrev machine : Machine
machine = record { memory = memory; keys = codes "ok\n"; output = codes "$ " }

write_call_example :
    syscall_handler (call 4 2 65 3) machine
    ≡ returned
        (record (call 4 2 65 3) { eax = 3 })
        (record machine { output = codes "$ " ++ bytes_at memory 65 3 })
write_call_example = write_call (call 4 2 65 3) machine refl (inr refl)

read_call_example :
    ((length (codes "ok") ≡ (call 3 0 500 2).edx)
      → syscall_handler (call 3 0 500 2) machine
        ≡ returned
            (record (call 3 0 500 2) { eax = 2 })
            (record {
              memory = typed_bytes memory 500 (codes "ok");
              keys = codes "\n";
              output = codes "$ ";
            }))
    × ((length (codes "ok") < (call 3 0 500 2).edx)
        → syscall_handler (call 3 0 500 2) (record machine { keys = codes "ok" })
          ≡ waiting (record {
            memory = typed_bytes memory 500 (codes "ok");
            keys = [];
            output = codes "$ ";
          }))
read_call_example =
    read_call (call 3 0 500 2) (codes "ok") (codes "\n") memory (codes "$ ") refl refl (omega arith)
      (omega arith, (omega arith, refl))

syscall_fails_example :
    let r = call 99 0 0 0 in
    (out : List ℕ) × (syscall_handler r machine
      ≡ returned (record r { eax = 4294967295 }) (record machine { output = out }))
    × ((r.eax ≡ 3) ⊎ (r.eax ≡ 4) → out ≡ codes "$ ")
    × ((r.eax ≢ 1) × (r.eax ≢ 3) × (r.eax ≢ 4) → out ≡ codes "$ " ++ unknown_text 99)
syscall_fails_example =
    syscall_fails (call 99 0 0 0) machine (inr (inr (omega arith, omega arith, omega arith)))

putchar_lem_example :
    putchar syscall_handler 700 65 (call 0 0 0 0) machine
    ≡ value (as_int 65) (record {
      memory = store memory 700 (u8 65);
      keys = codes "ok\n";
      output = codes "$ " ++ u8 65 ∷ [];
    })
putchar_lem_example = putchar_lem 700 65 (call 0 0 0 0) machine (omega arith)

getchar_lem_example :
    getchar syscall_handler 700 (call 0 0 0 0) machine
    ≡ value
        (pos (u8 b'o'))
        (record { memory = store memory 700 (u8 b'o'); keys = codes "k\n"; output = codes "$ " })
getchar_lem_example =
    getchar_lem 700 b'o' (codes "k\n") (call 0 0 0 0) memory (codes "$ ") (omega arith)
      (omega arith)
