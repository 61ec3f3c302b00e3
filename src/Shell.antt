-- ===== src/Shell.antt =====
-- kernel/init/shell.c: the line editor, the split into arguments, the commands and the loop. The bytes
-- of lines are in the memory of `strtok`, and the arrays of pointers are words of the heap's memory: no two
-- blocks of the heap overlap. A pointer is its address, 0 being NULL. `none` and `undefined` stand for a
-- C call that is not defined, or fuel of the string functions that ran out.
pub mod Editor
pub mod Execute
pub mod Split
pub mod Loop
pub mod Parse
use olympos.Prelude.{
  ℕ, zero, suc, ◌+◌, ◌-◌, ◌*◌, Bool, true, false, Option, none, some, List, [], ◌∷◌, leb, ltb, ◌==◌,
  if◌then◌else◌, u8, Memory, store, ℤ,
}
use olympos.Kheap.{Kheap, kmalloc, kfree}
use olympos.Libc.Itoa.{codes}
use olympos.Libc.Itoa.Value.{magnitude}
use olympos.Libc.Stdio.{Argument, text, printf}
use olympos.Libc.Strings.{Strtok, strtok, strcmp, ◌>>=◌}
use olympos.Terminal.{Terminal, terminal_initialize, terminal_putchar, terminal_write}

abbrev pub shell_tok_bufsize : ℕ
shell_tok_bufsize = 64

abbrev pub shell_rl_bufsize : ℕ
shell_rl_bufsize = 1024

abbrev pub sizeof_pointer : ℕ
sizeof_pointer = 4

-- The heap, the memory of the strings with the position of `strtok`, the keys that are still to come, and the
-- screen.
pub record Shell : Type 0 where
  pub kheap : Kheap
  pub tokens : Strtok
  pub keys : List ℕ
  pub terminal : Terminal

-- The addresses of the literals of the file.
pub record Literals : Type 0 where
  pub delim : ℕ
  pub clear : ℕ
  pub help : ℕ

abbrev takes_all : List ℕ → ℕ → Bool
takes_all out c = true

-- `printf` on the screen, its result not looked at.
abbrev pub shown : Shell → Option (ℤ × List ℕ) → Option Shell
shown s none = none
shown s (some (written, out)) = some (record s { terminal = terminal_write out s.terminal })

abbrev pub show : List ℕ → List Argument → Shell → Option Shell
show format parameters s = shown s (printf takes_all format parameters [])

-- The characters of a string, at most `n`.
pub string_at : ℕ → Memory → ℕ → List ℕ
string_at zero m p = []
string_at (suc n) m p = let rest = string_at n m (p + 1) in if m p == 0 then [] else m p ∷ rest

-- The line being edited: the cursor in it, and the memory and the screen.
pub record Editing : Type 0 where
  pub position : ℕ
  pub memory : Memory
  pub terminal : Terminal

-- One round of the loop of `input_line` for a key other than Enter.
pub edit_key : ℕ → ℕ → Editing → Editing
edit_key buffer c e =
    if c == b'\x08'
    then (if ltb 0 e.position
        then record {
          position = e.position - 1;
          memory = store e.memory (buffer + (e.position - 1)) 0;
          terminal = terminal_putchar 8 e.terminal;
        }
        else e)
    else if leb (shell_rl_bufsize - 1) e.position
    then e
    else record {
      position = e.position + 1;
      memory = store e.memory (buffer + e.position) (u8 c);
      terminal = terminal_putchar c e.terminal;
    }

-- What `input_line` comes to: a line, NULL, or a wait for the next key.
pub data Line : Type 0 where
  entered : ℕ → Shell → Line
  no_buffer : Shell → Line
  waits : Line
  undefined : Line

-- The loop over the keys.
pub edit_keys : ℕ → Kheap → ℕ → Editing → List ℕ → Line
edit_keys buffer kheap last e [] = waits
edit_keys buffer kheap last e (c ∷ keys) = elim (c == b'\n') [
  | true ↦ entered buffer (record {
    kheap = kheap;
    tokens = record { last = last; memory = store e.memory (buffer + e.position) 0 };
    keys = keys;
    terminal = terminal_putchar c e.terminal;
  })
  | false ↦ edit_keys buffer kheap last (edit_key buffer c e) keys
]

abbrev null_line : Option Shell → Line
null_line none = undefined
null_line (some s) = no_buffer s

abbrev pub with_buffer : Shell → Option (ℕ × Kheap) → Line
with_buffer s none = undefined
with_buffer s (some (buffer, kheap)) =
    if buffer == 0
    then null_line (
        show (codes "[FAILED] input_line: buffer allocation error\n") []
          (record s { kheap = kheap }))
    else edit_keys buffer kheap s.tokens.last
        (record { position = 0; memory = s.tokens.memory; terminal = s.terminal }) s.keys

unfoldable pub input_line : Shell → Line
input_line s = with_buffer s (kmalloc shell_rl_bufsize s.kheap)

-- The loop of `parse_line` at a token, with the words of memory. `f` is the fuel of each `strtok`; there are fewer
-- tokens than bytes in the line, so fuel above its length is enough.
pub parse_from : ℕ → ℕ → ℕ → ℕ → ℕ → ℕ → Memory → Strtok → Option (Memory × Strtok)
parse_from zero f delim tokens position token words st = none
parse_from (suc n) f delim tokens position token words st = elim (token == 0) [
  | true ↦ some (store words (tokens + sizeof_pointer * position) 0, st)
  | false ↦ strtok f 0 delim st >>= (λ next.
      parse_from n f delim tokens (position + 1) next.0
        (store words (tokens + sizeof_pointer * position) token) next.1)
]

abbrev pub with_tokens : ℕ → ℕ → ℕ → Shell → Option (ℕ × Kheap) → Option (ℕ × Shell)
with_tokens f delim line s none = none
with_tokens f delim line s (some (tokens, kheap)) =
    if tokens == 0
    then (show (codes "[FAILED] parse_line: tokens allocation error\n") []
          (record s { kheap = kheap })
        >>= (λ s. some (0, s)))
    else (strtok f line delim s.tokens >>= (λ first.
        parse_from f f delim tokens 0 first.0 kheap.memory first.1 >>= (λ after.
          some (tokens, record s { kheap = record kheap { memory = after.0 }; tokens = after.1 }))))

unfoldable pub parse_line : ℕ → ℕ → ℕ → Shell → Option (ℕ × Shell)
parse_line f delim line s =
    with_tokens f delim line s (kmalloc (shell_tok_bufsize * sizeof_pointer) s.kheap)

-- The commands, with their status 1.
unfoldable pub shell_clear : Shell → Option (ℕ × Shell)
shell_clear s = some (1, record s { terminal = terminal_initialize s.terminal })

unfoldable pub shell_help : Shell → Option (ℕ × Shell)
shell_help s = show (codes "Available commands:\n") [] s >>= (λ s.
    show (codes "  %s\n") (text (codes "clear") ∷ []) s
    >>= (λ s. show (codes "  %s\n") (text (codes "help") ∷ []) s >>= (λ s. some (1, s))))

-- `builtin_str` with `builtin_func`.
abbrev pub builtins : Literals → List (ℕ × (Shell → Option (ℕ × Shell)))
builtins l = (l.clear, shell_clear) ∷ (l.help, shell_help) ∷ []

pub execute_from : ℕ → ℕ → List (ℕ × (Shell → Option (ℕ × Shell))) → Shell → Option (ℕ × Shell)
execute_from f name [] s =
    show (codes "%s: command not found\n") (text (string_at f s.tokens.memory name) ∷ []) s
    >>= (λ s. some (1, s))
execute_from f name (entry ∷ rest) s =
    strcmp f s.tokens.memory name entry.0
    >>= (λ d. if magnitude d == 0 then entry.1 s else execute_from f name rest s)

unfoldable pub shell_execute : ℕ → Literals → ℕ → Shell → Option (ℕ × Shell)
shell_execute f l args s =
    if s.kheap.memory args == 0
    then some (1, s)
    else execute_from f (s.kheap.memory args) (builtins l) s

-- A turn of the loop of `init_shell`: the status of its command, or a wait.
pub data Turn : Type 0 where
  status : ℕ → Shell → Turn
  blocked : Turn
  undefined : Turn

abbrev pub freed : ℕ → Shell → Option Kheap → Turn
freed code s none = undefined
freed code s (some kheap) = status code (record s { kheap = kheap })

abbrev pub free_both : ℕ → ℕ → Option (ℕ × Shell) → Turn
free_both line args none = undefined
free_both line args (some (code, s)) = freed code s (kfree line s.kheap >>= kfree args)

abbrev pub run_line : ℕ → Literals → ℕ → Option (ℕ × Shell) → Turn
run_line f l line none = undefined
run_line f l line (some (args, s)) = free_both line args (shell_execute f l args s)

abbrev pub take_line : ℕ → Literals → Line → Turn
take_line f l (entered line s) = run_line f l line (parse_line f l.delim line s)
take_line f l (no_buffer s) = run_line f l 0 (parse_line f l.delim 0 s)
take_line f l waits = blocked
take_line f l undefined = undefined

abbrev pub prompted : ℕ → Literals → Option Shell → Turn
prompted f l none = undefined
prompted f l (some s) = take_line f l (input_line s)

unfoldable pub shell_turn : ℕ → Literals → Shell → Turn
shell_turn f l s = prompted f l (show (codes "$ ") [] s)
