-- ===== src/Tests/Strings.antt =====
-- The string functions on a memory with the words of a command line.
use olympos.Prelude.{
  ◌-◌, ◌%◌, not, if◌then◌else◌, some, length, get_or, ltb, leb, ◌&&◌, ◌≡◌, ◌↔◌, inr, refl, arith,
  Memory, pos,
}
use olympos.Libc.Itoa.{codes, swap_ends}
use olympos.Libc.Itoa.Reverse.{swap_ends-reverse}
use mathlib.Core.List.{reverse}
use olympos.Libc.Memory.{memcpy, memmove, memset, memcmp}
use olympos.Libc.Memory.Copy.{inside, memmove_lem, memcpy-memmove, memset_lem}
use olympos.Libc.Memory.Compare.{Compared, memcmp-Compared}
use olympos.Libc.Strings.{strlen, strcmp, strchr, strspn, strcspn, Strtok, strtok}
use olympos.Libc.Strings.Text.{IsString, contains, prefix_length}
use olympos.Libc.Strings.Scan.{
  located, first_difference, strlen_lem, strchr_lem, strspn_lem, strcmp_lem, strcmp-eq_iff,
}
use olympos.Libc.Strings.Tokens.{body_of, token_size, IsToken, strtok_end, strtok-IsToken}

-- " help" at 100, " \n" at 200, and 0 everywhere else.
abbrev memory : Memory
memory a =
    if leb 100 a && ltb a 105
    then get_or (codes " help") (a - 100) 0
    else if leb 200 a && ltb a 202
    then get_or (codes " \n") (a - 200) 0
    else 0

line : IsString memory 100 (codes " help")
line = (
  refl,
  omega arith,
  omega arith,
  (
    refl,
    omega arith,
    omega arith,
    (
      refl,
      omega arith,
      omega arith,
      (refl, omega arith, omega arith, (refl, omega arith, omega arith, refl)),
    ),
  ),
)

delim : IsString memory 200 (codes " \n")
delim = (refl, omega arith, omega arith, (refl, omega arith, omega arith, refl))

memmove_lem_example :
    ((memmove 101 100 5 memory).1 104 ≡ (if inside 101 5 104 then memory 103 else memory 104))
    × ((memmove 101 100 5 memory).0 ≡ 101)
memmove_lem_example = memmove_lem 101 100 5 memory 104

memcpy-memmove_example : (memcpy 300 100 5 memory).1 302 ≡ (memmove 300 100 5 memory).1 302
memcpy-memmove_example = memcpy-memmove 300 100 5 memory 302 (inr (omega arith))

memset_lem_example :
    (memset 100 0x141 4 memory).1 103 ≡ (if inside 100 4 103 then 0x141 % 256 else memory 103)
memset_lem_example = memset_lem 100 0x141 4 memory 103

memcmp-Compared_example : Compared memory 100 200 0 2 (memcmp 100 200 2 memory)
memcmp-Compared_example = memcmp-Compared 100 200 2 memory

strlen_lem_example : strlen 6 memory 100 ≡ some 5
strlen_lem_example = strlen_lem 6 memory 100 (codes " help") line (omega arith)

strchr_lem_example : strchr 6 memory 100 108 ≡ some (located 100 108 (codes " help"))
strchr_lem_example = strchr_lem 6 memory 100 108 (codes " help") line (omega arith)

strspn_lem_example :
    (strspn 6 memory 100 200 ≡ some (prefix_length (contains (codes " \n")) (codes " help")))
    × (strcspn 6 memory 100 200
        ≡ some (prefix_length (λ c. not (contains (codes " \n") c)) (codes " help")))
strspn_lem_example =
    strspn_lem 6 memory 100 200 (codes " help") (codes " \n") line delim (omega arith) (omega arith)
      (omega arith)

strcmp_lem_example : strcmp 6 memory 100 200 ≡ some (first_difference (codes " help") (codes " \n"))
strcmp_lem_example =
    strcmp_lem 6 memory 100 200 (codes " help") (codes " \n") line delim (omega arith)

strcmp-eq_iff_example : (strcmp 6 memory 100 200 ≡ some (pos 0)) ↔ (codes " help" ≡ codes " \n")
strcmp-eq_iff_example =
    strcmp-eq_iff 6 memory 100 200 (codes " help") (codes " \n") line delim (omega arith)

abbrev start : Strtok
start = record { last = 0; memory = memory }

strtok_end_example : strtok 6 200 200 start ≡ some (0, record start { last = 0 })
strtok_end_example =
    strtok_end 6 200 200 start (codes " \n") (codes " \n") (omega arith) delim delim (omega arith)
      (omega arith) (omega arith) refl

strtok-IsToken_example :
    IsToken memory 101
      (token_size (codes " \n") (body_of (codes " \n") (codes " help")))
      (body_of (codes " \n") (codes " help"))
      (strtok 6 100 200 start)
strtok-IsToken_example =
    strtok-IsToken 6 100 200 start (codes " help") (codes " \n") (omega arith) line delim
      (omega arith) (omega arith) (omega arith) cc

swap_ends-reverse_example :
    swap_ends (length (codes "0123")) 0 (length (codes "0123") - 1) (codes "0123")
    ≡ reverse (codes "0123")
swap_ends-reverse_example = swap_ends-reverse (codes "0123")
