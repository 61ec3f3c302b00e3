-- ===== src/Libc/Stdio/Render/Directive.antt =====
-- What one directive of the code contributes to the text of a format.
use olympos.Prelude.{
  ℕ, ◌≤◌, Bool, true, false, ◌||◌, Option, none, some, List, [], ◌∷◌, ◌++◌, length, ◌==◌,
  if◌then◌else◌, ◌≡◌, ◌≢◌, refl, sym, ap, ◌∙◌, subst, arith, pos, skips,
}
use mathlib.Core.List.{append-nil}
use olympos.Libc.Itoa.{codes, itoa}
use olympos.Libc.Itoa.Value.{int_text, itoa_lem}
use olympos.Libc.Stdio.{
  Argument, word, text, Item, as_int, number, character, string, unrecognized, long_directive,
  size_directive, directive,
}
use olympos.Libc.Stdio.Render.{
  ordinary, behind_percent, behind_l, behind_z, Kind, one_char, whole_text, number_of, longer,
  always_signed, magnitude-as_int, signed_text, unknown, kind_at, prepend, with_char, with_text,
  with_number, render_at,
}

abbrev pub joined : List (List ℕ) → List ℕ
joined [] = []
joined (p ∷ ps) = p ++ joined ps

abbrev by_kind : List ℕ → List ℕ → List Argument → Kind → Option (List ℕ)
by_kind whole format args one_char = with_char args (render_at always_signed ordinary format)
by_kind whole format args whole_text = with_text args (render_at always_signed ordinary format)
by_kind whole format args (number_of signed base prefix) =
    with_number always_signed signed base prefix args (render_at always_signed ordinary format)
by_kind whole format args (longer place) = render_at always_signed place format args
by_kind whole format args unknown = some whole

behind_l_lem :
    (c : ℕ) (format : List ℕ) (args : List Argument)
    → render_at always_signed behind_l (c ∷ format) args
      ≡ by_kind (b'%' ∷ b'l' ∷ c ∷ format) format args (kind_at behind_l c)
unfolding render_at
behind_l_lem c format args = refl

behind_z_lem :
    (c : ℕ) (format : List ℕ) (args : List Argument)
    → render_at always_signed behind_z (c ∷ format) args
      ≡ by_kind (b'%' ∷ b'z' ∷ c ∷ format) format args (kind_at behind_z c)
unfolding render_at
behind_z_lem c format args = refl

behind_percent_lem :
    (c : ℕ) (format : List ℕ) (args : List Argument)
    → c ≢ b'%'
    → render_at always_signed behind_percent (c ∷ format) args
      ≡ by_kind (b'%' ∷ c ∷ format) format args (kind_at behind_percent c)
unfolding render_at
behind_percent_lem c format args ne = skips (c == b'%') _ _ (ground arith)

-- What a directive does is what the rendering `r` says: its pieces, and then the text of the rest of
-- the format, which has at most `n` characters.
abbrev pub Stands : ℕ → Option Item → Option (List ℕ) → Type 0
Stands n none r = r ≡ none
Stands n (some item) r =
    (r ≡ prepend (joined item.pieces) (signed_text item.format item.parameters))
    × (length item.format ≤ n)

-- A choice of the code beside the same choice of the reader.
both :
    (n : ℕ) (b : Bool) (x y : Option Item) (k l : Kind) (f : Kind → Option (List ℕ))
    → Stands n x (f k)
    → Stands n y (f l)
    → Stands n (if b then x else y) (f (if b then k else l))
both n true x y k l f p q = p
both n false x y k l f p q = q

-- One choice of the code beside two of the reader.
either :
    (n : ℕ) (b b' : Bool) (x y : Option Item) (k k' l : Kind) (f : Kind → Option (List ℕ))
    → Stands n x (f k)
    → Stands n x (f k')
    → Stands n y (f l)
    → Stands n (if b || b' then x else y) (f (if b then k else if b' then k' else l))
either n true b' x y k k' l f p p' q = p
either n false true x y k k' l f p p' q = p'
either n false false x y k k' l f p p' q = q

number_gives :
    (base : ℕ) (prefix : List (List ℕ)) (format : List ℕ) (w : ℕ) (args : List Argument)
    (s : List ℕ)
    → itoa (as_int w) (pos base) ≡ some s
    → number base prefix format (word w ∷ args)
      ≡ some (record { pieces = prefix ++ s ∷ []; format = format; parameters = args })
unfolding number
number_gives base prefix format w args s e = ground arith

module _ (format : List ℕ) where
  character-Stands :
      (args : List Argument)
      → Stands
          (length format)
          (character format args)
          (with_char args (render_at always_signed ordinary format))
  unfolding character
  character-Stands [] = refl
  character-Stands (text s ∷ args) = refl
  character-Stands (word w ∷ args) = (refl, omega arith)

  string-Stands :
      (args : List Argument)
      → Stands
          (length format)
          (string format args)
          (with_text args (render_at always_signed ordinary format))
  unfolding string
  string-Stands [] = refl
  string-Stands (word w ∷ args) = refl
  string-Stands (text s ∷ args) = (
    ap (λ t. prepend t (render_at always_signed ordinary format args)) (sym (append-nil s)),
    omega arith,
  )

  -- For the two bases of the directives.
  number-Stands :
      (signed : Bool) (base : ℕ) (prefix : List (List ℕ)) (args : List Argument)
      → 2 ≤ base
      → base ≤ 36
      → ((num_str : List ℕ) → joined (prefix ++ num_str ∷ []) ≡ joined prefix ++ num_str)
      → Stands (length format) (number base prefix format args) (
          with_number always_signed signed base
            (joined prefix)
            args
            (render_at always_signed ordinary format))
  unfolding number
  number-Stands signed base prefix [] low high e = refl
  number-Stands signed base prefix (text s ∷ args) low high e = refl
  number-Stands signed base prefix (word w ∷ args) low high e =
      let g =
        number_gives base prefix format w args (int_text base (as_int w))
          (itoa_lem (as_int w) base low high (magnitude-as_int w)) in
      subst
        (λ o. Stands (length format) o (
          with_number always_signed signed base (joined prefix) (word w ∷ args)
            (render_at always_signed ordinary format)))
        (sym g)
        (
          ap (λ t. prepend t (render_at always_signed ordinary format args))
              (sym (e (int_text base (as_int w)))),
          omega arith,
        )

-- The rest of the format, word for word, from the `%` that `whole` starts with.
unrecognized-Stands :
    (n : ℕ) (format : List ℕ) (args : List Argument)
    → Stands n (unrecognized format args) (some (b'%' ∷ format))
unfolding render_at
unrecognized-Stands n format args = (
  ap some (sym (append-nil (b'%' ∷ format)) ∙ sym (append-nil ((b'%' ∷ format) ++ []))),
  omega arith,
)

pub Stands-le :
    (n k : ℕ) (o : Option Item) (r : Option (List ℕ)) → n ≤ k → Stands n o r → Stands k o r
Stands-le n k none r h s = s
Stands-le n k (some item) r h s = (s.0, omega (arith, s.1))

module _ (n : ℕ) (format : List ℕ) (args : List Argument) (h : length format ≤ n) where
  bare :
      (signed : Bool) (base : ℕ)
      → 2 ≤ base
      → base ≤ 36
      → Stands n
          (number base [] format args)
          (with_number always_signed signed base [] args (render_at always_signed ordinary format))
  bare signed base low high =
      Stands-le (length format) n _ _ h
        (number-Stands format signed base [] args low high (λ s. append-nil s))

  decimal :
      (signed : Bool)
      → Stands n
          (number 10 [] format args)
          (with_number always_signed signed 10 [] args (render_at always_signed ordinary format))
  decimal signed = bare signed 10 (omega arith) (omega arith)

  hexadecimal :
      Stands n
        (number 16 [] format args)
        (with_number always_signed false 16 [] args (render_at always_signed ordinary format))
  hexadecimal = bare false 16 (omega arith) (omega arith)

  long-Stands :
      (c : ℕ)
      → Stands n
          (long_directive (c ∷ format) args)
          (render_at always_signed behind_l (c ∷ format) args)
  unfolding long_directive render_at
  long-Stands c =
      both n (c == b'x') _ _ _ _ (by_kind (b'%' ∷ b'l' ∷ c ∷ format) format args) hexadecimal (
        either n (c == b'd') (c == b'u') _ _ _ _ _ (by_kind (b'%' ∷ b'l' ∷ c ∷ format) format args)
          (decimal true) (decimal false) (unrecognized-Stands n (b'l' ∷ c ∷ format) args))

  size-Stands :
      (c : ℕ)
      → Stands n
          (size_directive (c ∷ format) args)
          (render_at always_signed behind_z (c ∷ format) args)
  unfolding size_directive render_at
  size-Stands c =
      either n (c == b'u') (c == b'd') _ _ _ _ _ (by_kind (b'%' ∷ b'z' ∷ c ∷ format) format args)
        (decimal false) (decimal true) (unrecognized-Stands n (b'z' ∷ c ∷ format) args)

long_directive-Stands :
    (n : ℕ) (format : List ℕ) (args : List Argument)
    → length format ≤ n
    → Stands n (long_directive format args) (render_at always_signed behind_l format args)
unfolding long_directive render_at
long_directive-Stands n [] args h = unrecognized-Stands n (b'l' ∷ []) args
long_directive-Stands n (c ∷ format) args h = long-Stands n format args (omega arith) c

size_directive-Stands :
    (n : ℕ) (format : List ℕ) (args : List Argument)
    → length format ≤ n
    → Stands n (size_directive format args) (render_at always_signed behind_z format args)
unfolding size_directive render_at
size_directive-Stands n [] args h = unrecognized-Stands n (b'z' ∷ []) args
size_directive-Stands n (c ∷ format) args h = size-Stands n format args (omega arith) c

-- A `%` that ends the format stands for itself.
pub directive_end :
    (args : List Argument)
    → Stands 0 (directive [] args) (render_at always_signed behind_percent [] args)
unfolding directive render_at
directive_end args = unrecognized-Stands 0 [] args

-- Every directive of the code does what the reader takes it for.
pub directive-Stands :
    (c : ℕ) (format : List ℕ) (args : List Argument)
    → c ≢ b'%'
    → Stands
        (length format)
        (directive (c ∷ format) args)
        (render_at always_signed behind_percent (c ∷ format) args)
unfolding directive
directive-Stands c format args ne =
    subst (Stands (length format) (directive (c ∷ format) args))
      (sym (behind_percent_lem c format args ne))
      (both n (c == b'c') _ _ _ _ f (character-Stands format args) (
        both n (c == b's') _ _ _ _ f (string-Stands format args) (
          both n (c == b'd') _ _ _ _ f (decimal n format args (omega arith) true) (
            both n (c == b'u') _ _ _ _ f (decimal n format args (omega arith) false) (
              both n (c == b'p') _ _ _ _ f
                (number-Stands format false 16 (codes "0x" ∷ []) args (omega arith) (omega arith)
                  (λ s. ap (λ t. codes "0x" ++ t) (append-nil s)))
                (both n (c == b'x') _ _ _ _ f (hexadecimal n format args (omega arith)) (
                  both n (c == b'l') _ _ _ _ f (long_directive-Stands n format args (omega arith)) (
                    both n (c == b'z') _ _ _ _ f (size_directive-Stands n format args (omega arith))
                      (unrecognized-Stands n (c ∷ format) args)))))))))
  where
    n : ℕ
    n = length format

    f : Kind → Option (List ℕ)
    f = by_kind (b'%' ∷ c ∷ format) format args
