-- ===== src/Syscall/Streams.antt =====
-- `putchar` and `getchar` of a program, through the calls that the kernel serves.
use olympos.Prelude.{
  ℕ, ◌^◌, ◌<◌, List, [], ◌∷◌, ◌++◌, u8, Memory, store, ◌≡◌, ◌≢◌, inl, refl, ap, ◌∙◌, arith, pos,
}
use native.Mathlib.Nat.{mod-eq_of_lt}
use olympos.Interrupts.Regs.{Regs}
use olympos.Libc.Stdio.{as_int}
use olympos.Syscall.{Machine, syscall_handler, write, read, looked_at, value, putchar, getchar}
use olympos.Syscall.Calls.{bytes_at, write_call, read_call}

stored :
    (memory : Memory) (c ic : ℕ) → c < 2 ^ 32 → bytes_at (store memory c (u8 ic)) c 1 ≡ u8 ic ∷ []
stored memory c ic h = ground arith

own : (memory : Memory) (c v : ℕ) → store memory c v c ≡ v
own memory c v = ground arith

-- A program's `putchar` puts out its character as one byte and returns the character.
pub putchar_lem :
    (c ic : ℕ) (r : Regs) (s : Machine)
    → c < 2 ^ 32
    → putchar syscall_handler c ic r s
      ≡ value (as_int ic) (record {
        memory = store s.memory c (u8 ic);
        keys = s.keys;
        output = s.output ++ u8 ic ∷ [];
      })
unfolding putchar write
putchar_lem c ic r s h =
    ap (λ o. looked_at o (λ s'. as_int ic))
      (write_call (record r { eax = 4; ebx = 1; ecx = c; edx = 1 })
        (record s { memory = store s.memory c (u8 ic) }) refl (inl refl))
    ∙ ap
        (λ (t : List ℕ).
          value (as_int ic)
            (record { memory = store s.memory c (u8 ic); keys = s.keys; output = s.output ++ t }))
        (stored s.memory c ic h)

-- A program's `getchar` takes one key and returns its byte, never -1. Keys of the code 0xFF excepted.
pub getchar_lem :
    (c key : ℕ) (keys : List ℕ) (r : Regs) (memory : Memory) (output : List ℕ)
    → c < 2 ^ 32
    → key ≢ 255
    → getchar syscall_handler c r (record { memory = memory; keys = key ∷ keys; output = output })
      ≡ value
          (pos (u8 key))
          (record { memory = store memory c (u8 key); keys = keys; output = output })
unfolding getchar read
getchar_lem c key keys r memory output h k =
    ap (λ o. looked_at o (λ s'. pos (s'.memory c)))
      ((read_call (record r { eax = 3; ebx = 0; ecx = c; edx = 1 }) (key ∷ []) keys memory output
          refl refl (omega arith) (k, refl)).0
        refl)
    ∙ ap
        (λ (a : ℕ).
          value (pos (store memory a (u8 key) c))
            (record { memory = store memory a (u8 key); keys = keys; output = output }))
        (mod-eq_of_lt h)
    ∙ ap
        (λ (v : ℕ).
          value (pos v) (record { memory = store memory c (u8 key); keys = keys; output = output }))
        (own memory c (u8 key))
