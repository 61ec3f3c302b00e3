-- ===== src/Tests/Turns.antt =====
-- A turn of the shell on a fresh heap.
use olympos.Prelude.{◌-◌, ◌++◌, [], ◌∷◌, get_or, ltb, leb, ◌&&◌, if◌then◌else◌, refl, arith, Memory}
use olympos.Libc.Itoa.{codes}
use olympos.Shell.{Shell, Literals, shell_turn}
use olympos.Shell.Loop.{AtPrompt, delimiters}
use olympos.Shell.Loop.Turns.{BackAtPrompt, shell_turn-BackAtPrompt}
use olympos.Terminal.{Terminal}
use olympos.Tests.Heap.{booted, booted-Holds, booted-starts}

-- The delimiters at 100, and the names of the commands at 110 and 120.
abbrev memory : Memory
memory a =
    if leb 100 a && ltb a 105
    then get_or delimiters (a - 100) 0
    else if leb 110 a && ltb a 115
    then get_or (codes "clear") (a - 110) 0
    else if leb 120 a && ltb a 124
    then get_or (codes "help") (a - 120) 0
    else 0

abbrev literals : Literals
literals = record { delim = 100; clear = 110; help = 120 }

abbrev screen : Terminal
screen = record {
  terminal_row = 3;
  terminal_column = 2;
  terminal_color = 7;
  terminal_buffer = λ a. 0;
  log = [];
}

-- Somebody typed `hx`, took the `x` back, typed `i`, and has begun another line.
abbrev shell : Shell
shell = record {
  kheap = booted;
  tokens = record { last = 0; memory = memory };
  keys = codes "hx" ++ 8 ∷ codes "i" ++ 10 ∷ codes "clear";
  terminal = screen;
}

at_prompt : AtPrompt literals booted.heap_start shell
at_prompt = record {
  heap = booted-Holds;
  starts = refl;
  clear = (
    refl,
    omega arith,
    omega arith,
    (
      refl,
      omega arith,
      omega arith,
      (
        refl,
        omega arith,
        omega arith,
        (refl, omega arith, omega arith, (refl, omega arith, omega arith, refl)),
      ),
    ),
  );
  help = (
    refl,
    omega arith,
    omega arith,
    (
      refl,
      omega arith,
      omega arith,
      (refl, omega arith, omega arith, (refl, omega arith, omega arith, refl)),
    ),
  );
  delim = (
    refl,
    omega arith,
    omega arith,
    (
      refl,
      omega arith,
      omega arith,
      (
        refl,
        omega arith,
        omega arith,
        (refl, omega arith, omega arith, (refl, omega arith, omega arith, refl)),
      ),
    ),
  );
  nonnull = omega arith;
  clear_below = omega (arith, booted-starts);
  help_below = omega (arith, booted-starts);
  delim_below = omega (arith, booted-starts);
}

shell_turn-BackAtPrompt_example :
    BackAtPrompt literals booted.heap_start (codes "clear") (shell_turn 2000 literals shell)
shell_turn-BackAtPrompt_example =
    shell_turn-BackAtPrompt 2000 literals booted.heap_start shell (codes "hx" ++ 8 ∷ codes "i")
      (codes "clear") (omega arith) at_prompt
      (
        omega arith,
        omega arith,
        omega arith,
        (
          omega arith,
          omega arith,
          omega arith,
          (omega arith, omega arith, omega arith, (omega arith, omega arith, omega arith, refl)),
        ),
      )
      refl
