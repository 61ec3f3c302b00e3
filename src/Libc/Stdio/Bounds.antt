-- ===== src/Libc/Stdio/Bounds.antt =====
-- The lengths of what the directives convert.
use olympos.Prelude.{
  ℕ, ◌+◌, ◌^◌, ◌≤◌, ◌<◌, Bool, true, false, ◌||◌, Option, none, some, List, [], ◌∷◌, ◌++◌, length,
  ◌==◌, if◌then◌else◌, pos, ◌≡◌, refl, sym, subst, arith, Bool-cases, Option-cases, inl, inr,
}
use olympos.Libc.Itoa.{codes, itoa}
use olympos.Libc.Itoa.Length.{IsShortText, itoa-IsShortText}
use olympos.Libc.Stdio.{
  Argument, word, text, Item, as_int, number, character, string, unrecognized, long_directive,
  size_directive, directive, literal,
}
use olympos.Libc.Stdio.Buffer.{Short}

-- Every string argument, and the buffer behind it, fits the 32 bits of a length.
abbrev pub ShortArguments : ℕ → List Argument → Type 0
ShortArguments size [] = size ≡ size
ShortArguments size (word w ∷ args) = ShortArguments size args
ShortArguments size (text s ∷ args) = (length s + size < 2 ^ 32) × ShortArguments size args

abbrev pub ShortItem : ℕ → Option Item → Type 0
ShortItem size none = size ≡ size
ShortItem size (some item) =
    Short size item.pieces
    × (length item.format + size < 2 ^ 32)
    × ShortArguments size item.parameters

module _ (base : ℕ) (prefix : List (List ℕ)) (format : List ℕ) (w : ℕ) (args : List Argument) where
  number_fails :
      itoa (as_int w) (pos base) ≡ none → number base prefix format (word w ∷ args) ≡ none
  unfolding number
  number_fails e = ground arith

  number_gives :
      (s : List ℕ)
      → itoa (as_int w) (pos base) ≡ some s
      → number base prefix format (word w ∷ args)
        ≡ some (record { pieces = prefix ++ s ∷ []; format = format; parameters = args })
  unfolding number
  number_gives s e = ground arith

module _ (size : ℕ) (small : size + 34 < 2 ^ 32) where
  number-ShortItem :
      (base : ℕ) (format : List ℕ) (args : List Argument)
      → length format + size < 2 ^ 32
      → ShortArguments size args
      → ShortItem size (number base [] format args)
        × ShortItem size (number base (codes "0x" ∷ []) format args)
  unfolding number
  number-ShortItem base format [] h a = (refl, refl)
  number-ShortItem base format (text s ∷ args) h a = (refl, refl)
  number-ShortItem base format (word w ∷ args) h a =
      elim (Option-cases (itoa (as_int w) (pos base))) [
        | inl e ↦ (
          subst (ShortItem size) (sym (number_fails base [] format w args e)) refl,
          subst (ShortItem size) (sym (number_fails base (codes "0x" ∷ []) format w args e)) refl,
        )
        | inr (s, e) ↦
            let l : IsShortText (some s) = rw e at (itoa-IsShortText (as_int w) (pos base)) in
            (
              subst (ShortItem size) (sym (number_gives base [] format w args s e))
                  ((omega (arith, l), omega arith), h, a),
              subst (ShortItem size) (sym (number_gives base (codes "0x" ∷ []) format w args s e))
                  ((omega arith, (omega (arith, l), omega arith)), h, a),
            )
      ]

  module _ (format : List ℕ) (args : List Argument) (a : ShortArguments size args) where
    unrecognized-ShortItem :
        length format + 1 + size < 2 ^ 32 → ShortItem size (unrecognized format args)
    unrecognized-ShortItem h = ((omega arith, omega arith), omega arith, a)

  character-ShortItem :
      (format : List ℕ) (args : List Argument)
      → length format + size < 2 ^ 32
      → ShortArguments size args
      → ShortItem size (character format args)
  unfolding character
  character-ShortItem format [] h a = refl
  character-ShortItem format (text s ∷ args) h a = refl
  character-ShortItem format (word w ∷ args) h a = ((omega arith, omega arith), h, a)

  string-ShortItem :
      (format : List ℕ) (args : List Argument)
      → length format + size < 2 ^ 32
      → ShortArguments size args
      → ShortItem size (string format args)
  unfolding string
  string-ShortItem format [] h a = refl
  string-ShortItem format (word w ∷ args) h a = refl
  string-ShortItem format (text s ∷ args) h a = ((a.0, omega arith), h, a.1)

  long_directive-ShortItem :
      (format : List ℕ) (args : List Argument)
      → length format + 2 + size < 2 ^ 32
      → ShortArguments size args
      → ShortItem size (long_directive format args)
  unfolding long_directive
  long_directive-ShortItem [] args h a = ((omega arith, omega arith), omega arith, a)
  long_directive-ShortItem (t ∷ format) args h a = elim (Bool-cases (t == b'x')) [
    | inl e ↦ rw e (number-ShortItem 16 format args (omega arith) a).0
    | inr e ↦ elim (Bool-cases ((t == b'd') || (t == b'u'))) [
      | inl f ↦ rw (e, f) (number-ShortItem 10 format args (omega arith) a).0
      | inr f ↦ rw (e, f) ((omega arith, omega arith), omega arith, a)
    ]
  ]

  size_directive-ShortItem :
      (format : List ℕ) (args : List Argument)
      → length format + 2 + size < 2 ^ 32
      → ShortArguments size args
      → ShortItem size (size_directive format args)
  unfolding size_directive
  size_directive-ShortItem [] args h a = ((omega arith, omega arith), omega arith, a)
  size_directive-ShortItem (t ∷ format) args h a = elim (Bool-cases ((t == b'u') || (t == b'd'))) [
    | inl f ↦ rw f (number-ShortItem 10 format args (omega arith) a).0
    | inr f ↦ rw f ((omega arith, omega arith), omega arith, a)
  ]

  -- A choice between conversions that are all in bounds.
  either :
      (b : Bool) (x y : Option Item)
      → ShortItem size x
      → ShortItem size y
      → ShortItem size (if b then x else y)
  either true x y p q = p
  either false x y p q = q

  pub directive-ShortItem :
      (format : List ℕ) (args : List Argument)
      → length format + 1 + size < 2 ^ 32
      → ShortArguments size args
      → ShortItem size (directive format args)
  unfolding directive
  directive-ShortItem [] args h a = ((omega arith, omega arith), omega arith, a)
  directive-ShortItem (c ∷ format) args h a =
      let n = λ (base : ℕ). number-ShortItem base format args (omega arith) a in
      either (c == b'c') _ _ (character-ShortItem format args (omega arith) a) (
        either (c == b's') _ _ (string-ShortItem format args (omega arith) a) (
          either (c == b'd') _ _ (n 10).0 (
            either (c == b'u') _ _ (n 10).0 (
              either (c == b'p') _ _ (n 16).1 (
                either (c == b'x') _ _ (n 16).0 (
                  either (c == b'l') _ _ (long_directive-ShortItem format args (omega arith) a) (
                    either (c == b'z') _ _ (size_directive-ShortItem format args (omega arith) a)
                      ((omega arith, omega arith), omega arith, a))))))))

pub length-literal : (format : List ℕ) → length (literal format).1 ≤ length format
unfolding literal
length-literal [] = omega arith
length-literal (c ∷ format) = elim (Bool-cases (c == b'%')) [
  | inl e ↦ rw e (omega arith)
  | inr e ↦ rw e (omega (arith, length-literal format))
]
