-- ===== src/Libc/Stdio.antt =====
-- libc/stdio: printf.c, vsnprintf.c, snprintf.c and puts.c. A format is the list of its characters
-- before the terminator, and a string argument the list of its own. `none` stands for what C leaves
-- undefined: an argument that is missing or of another kind than its directive reads.
pub mod Bounds
pub mod Complete
pub mod Buffer
pub mod Output
pub mod Prints
pub mod Render
use olympos.Prelude.{
  ℕ, zero, suc, ◌+◌, ◌-◌, ◌*◌, ◌^◌, Bool, true, false, not, ◌&&◌, ◌||◌, Option, none, some, List,
  [], ◌∷◌, ◌++◌, length, ltb, ◌==◌, if◌then◌else◌, u8, u32, Memory, store, ℤ, pos, negsuc,
}
use olympos.Libc.Itoa.{codes, itoa}

pub data Argument : Type 0 where
  word : ℕ → Argument
  text : List ℕ → Argument

-- What a step of the format loop prints, piece by piece, and the format and arguments behind it.
pub record Item : Type 0 where
  pub pieces : List (List ℕ)
  pub format : List ℕ
  pub parameters : List Argument

-- The 32 bits of a word as an `int`.
abbrev pub as_int : ℕ → ℤ
as_int w = if ltb w (2 ^ 31) then pos w else negsuc (2 ^ 32 - 1 - w)

-- A word converted by `itoa`, behind a prefix.
pub number : ℕ → List (List ℕ) → List ℕ → List Argument → Option Item
number base prefix format [] = none
number base prefix format (text s ∷ parameters) = none
number base prefix format (word w ∷ parameters) = elim (itoa (as_int w) (pos base)) [
  | none ↦ none
  | some num_str ↦
      some (record { pieces = prefix ++ num_str ∷ []; format = format; parameters = parameters })
]

-- `%c`.
pub character : List ℕ → List Argument → Option Item
character format [] = none
character format (text s ∷ parameters) = none
character format (word w ∷ parameters) =
    some (record { pieces = (u8 w ∷ []) ∷ []; format = format; parameters = parameters })

-- `%s`.
pub string : List ℕ → List Argument → Option Item
string format [] = none
string format (word w ∷ parameters) = none
string format (text s ∷ parameters) =
    some (record { pieces = s ∷ []; format = format; parameters = parameters })

-- An unrecognized directive: the rest of the format from its `%` on.
abbrev pub unrecognized : List ℕ → List Argument → Option Item
unrecognized format parameters =
    some (record { pieces = (b'%' ∷ format) ∷ []; format = []; parameters = parameters })

-- `%ld`, `%lu` and `%lx`: the format behind the `l`.
pub long_directive : List ℕ → List Argument → Option Item
long_directive [] parameters = unrecognized (b'l' ∷ []) parameters
long_directive (type ∷ format) parameters =
    if type == b'x'
    then number 16 [] format parameters
    else if (type == b'd') || (type == b'u')
    then number 10 [] format parameters
    else unrecognized (b'l' ∷ type ∷ format) parameters

-- `%zu` and `%zd`: the format behind the `z`.
pub size_directive : List ℕ → List Argument → Option Item
size_directive [] parameters = unrecognized (b'z' ∷ []) parameters
size_directive (type ∷ format) parameters =
    if (type == b'u') || (type == b'd')
    then number 10 [] format parameters
    else unrecognized (b'z' ∷ type ∷ format) parameters

-- The directive behind a `%`.
pub directive : List ℕ → List Argument → Option Item
directive [] parameters = unrecognized [] parameters
directive (c ∷ format) parameters =
    if c == b'c'
    then character format parameters
    else if c == b's'
    then string format parameters
    else if c == b'd'
    then number 10 [] format parameters
    else if c == b'u'
    then number 10 [] format parameters
    else if c == b'p'
    then number 16 (codes "0x" ∷ []) format parameters
    else if c == b'x'
    then number 16 [] format parameters
    else if c == b'l'
    then long_directive format parameters
    else if c == b'z'
    then size_directive format parameters
    else unrecognized (c ∷ format) parameters

-- The characters before the next `%`, and the format from there on.
pub literal : List ℕ → List ℕ × List ℕ
literal [] = ([], [])
literal (c ∷ format) =
    let rest = literal format in if c == b'%' then ([], c ∷ format) else (c ∷ rest.0, rest.1)

-- A run that starts with the character `c`, whatever it is.
pub run : ℕ → List ℕ → List Argument → Item
run c format parameters = record {
  pieces = (c ∷ (literal format).0) ∷ [];
  format = (literal format).1;
  parameters = parameters;
}

-- One round of the loop, at the character `c`.
pub next_item : ℕ → List ℕ → List Argument → Option Item
next_item c [] parameters =
    if not (c == b'%') then some (run c [] parameters) else directive [] parameters
next_item c (d ∷ format) parameters =
    if not (c == b'%')
    then some (run c (d ∷ format) parameters)
    else if d == b'%'
    then some (run d format parameters)
    else directive (d ∷ format) parameters

abbrev pub int_max : ℕ
int_max = 2 ^ 31 - 1

-- `print`: whether `putchar` took every byte, and the output. `accepts` is whether the `putchar` of
-- the build takes a byte after the output so far.
pub print : (List ℕ → ℕ → Bool) → List ℕ → List ℕ → Bool × List ℕ
print accepts [] out = (true, out)
print accepts (c ∷ bytes) out =
    let rest = print accepts bytes (out ++ c ∷ []) in if accepts out c then rest else (false, out)

-- The pieces of a round, each with its check for overflow: whether all were printed, `written`, and
-- the output.
pub emit : (List ℕ → ℕ → Bool) → List (List ℕ) → ℕ → List ℕ → Bool × ℕ × List ℕ
emit accepts [] written out = (true, written, out)
emit accepts (piece ∷ pieces) written out =
    let rest = emit accepts pieces (written + length piece) (print accepts piece out).1 in
    if ltb (int_max - written) (length piece)
    then (false, written, out)
    else if (print accepts piece out).0
    then rest
    else (false, written, (print accepts piece out).1)

-- The loop. Each round takes at least one character of the format, so fuel above its length is
-- enough; `none` is also the fuel that ran out.
pub printf_from :
    (List ℕ → ℕ → Bool) → ℕ → List ℕ → List Argument → ℕ → List ℕ → Option (ℤ × List ℕ)
printf_from accepts zero format parameters written out = none
printf_from accepts (suc fuel) [] parameters written out = some (pos written, out)
printf_from accepts (suc fuel) (c ∷ format) parameters written out =
    elim (next_item c format parameters) [
      | none ↦ none
      | some item ↦
          let (ok, written', out') = emit accepts item.pieces written out in
          elim ok [
            | true ↦ printf_from accepts fuel item.format item.parameters written' out'
            | false ↦ some (negsuc 0, out')
          ]
    ]

pub printf : (List ℕ → ℕ → Bool) → List ℕ → List Argument → List ℕ → Option (ℤ × List ℕ)
printf accepts format parameters out =
    printf_from accepts (suc (length format)) format parameters 0 out

abbrev pub puts : (List ℕ → ℕ → Bool) → List ℕ → List ℕ → Option (ℤ × List ℕ)
puts accepts s out = printf accepts (codes "%s\n") (text s ∷ []) out
