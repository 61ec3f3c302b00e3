-- ===== src/Libc/Stdio/Render/Typed.antt =====
-- Formats whose directives find the arguments that they read.
use olympos.Prelude.{
  ℕ, ◌^◌, ◌&&◌, Bool, true, false, ◌||◌, Option, none, some, List, [], ◌∷◌, ◌++◌, ltb, ◌==◌, ◌≡◌,
  refl, u8,
}
use olympos.Libc.Itoa.{codes}
use olympos.Libc.Stdio.{Argument, word, text}
use olympos.Libc.Stdio.Render.{
  Place, ordinary, behind_percent, behind_l, behind_z, Kind, one_char, whole_text, number_of,
  longer, Reading, always_signed, signed_text, unknown, kind_at, prepend, with_char, with_text,
  with_number, render_at,
}

-- Whether the next argument is a word, or a text, and the rest of the format fits the others.
abbrev pub word_first : List Argument → (List Argument → Bool) → Bool
word_first [] rest = false
word_first (text s ∷ args) rest = false
word_first (word w ∷ args) rest = rest args

abbrev pub text_first : List Argument → (List Argument → Bool) → Bool
text_first [] rest = false
text_first (word w ∷ args) rest = false
text_first (text s ∷ args) rest = rest args

abbrev pub number_first : (Bool → ℕ → Bool) → Bool → List Argument → (List Argument → Bool) → Bool
number_first ok signed [] rest = false
number_first ok signed (text s ∷ args) rest = false
number_first ok signed (word w ∷ args) rest = ok signed w && rest args

-- Whether each directive of a format finds an argument of its kind, and each word of a number passes
-- the test `ok`.
unfoldable pub fits_at : (Bool → ℕ → Bool) → Place → List ℕ → List Argument → Bool
fits_at ok place [] args = true
fits_at ok ordinary (c ∷ format) args = elim (c == b'%') [
  | true ↦ fits_at ok behind_percent format args
  | false ↦ fits_at ok ordinary format args
]
fits_at ok behind_percent (c ∷ format) args = elim (c == b'%') [
  | true ↦ fits_at ok ordinary format args
  | false ↦ elim (kind_at behind_percent c) [
    | one_char ↦ word_first args (fits_at ok ordinary format)
    | whole_text ↦ text_first args (fits_at ok ordinary format)
    | number_of signed base prefix ↦ number_first ok signed args (fits_at ok ordinary format)
    | longer place ↦ fits_at ok place format args
    | unknown ↦ true
  ]
]
fits_at ok behind_l (c ∷ format) args = elim (kind_at behind_l c) [
  | one_char ↦ word_first args (fits_at ok ordinary format)
  | whole_text ↦ text_first args (fits_at ok ordinary format)
  | number_of signed base prefix ↦ number_first ok signed args (fits_at ok ordinary format)
  | longer place ↦ fits_at ok place format args
  | unknown ↦ true
]
fits_at ok behind_z (c ∷ format) args = elim (kind_at behind_z c) [
  | one_char ↦ word_first args (fits_at ok ordinary format)
  | whole_text ↦ text_first args (fits_at ok ordinary format)
  | number_of signed base prefix ↦ number_first ok signed args (fits_at ok ordinary format)
  | longer place ↦ fits_at ok place format args
  | unknown ↦ true
]

abbrev pub fits : List ℕ → List Argument → Bool
fits format args = fits_at (λ signed w. true) ordinary format args

-- Also each word of an unsigned directive is at most INT_MAX.
abbrev pub in_range : List ℕ → List Argument → Bool
in_range format args = fits_at (λ signed w. signed || ltb w (2 ^ 31)) ordinary format args

abbrev pub Renders : Option (List ℕ) → Type 0
Renders r = (t : List ℕ) × (r ≡ some t)

prepend-Renders : (s : List ℕ) (r : Option (List ℕ)) → Renders r → Renders (prepend s r)
prepend-Renders s none (t, e) = cc
prepend-Renders s (some rest) h = (s ++ rest, refl)

choice-Renders :
    (b p q : Bool) (x y : Option (List ℕ))
    → (p ≡ true → Renders x)
    → (q ≡ true → Renders y)
    → elim b [ true ↦ p | false ↦ q ] ≡ true
    → Renders (elim b [ true ↦ x | false ↦ y ])
choice-Renders true p q x y f g h = f h
choice-Renders false p q x y f g h = g h

pub fits_rest : (a b : Bool) → a && b ≡ true → b ≡ true
fits_rest true b h = h
fits_rest false b h = cc

pub fits_own : (a b : Bool) → a && b ≡ true → a ≡ true
fits_own true b h = refl
fits_own false b h = cc

module _ (ok : Bool → ℕ → Bool) (reading : Reading) where
  module _ (format : List ℕ)
      (rest : (place : Place) (args : List Argument)
        → fits_at ok place format args ≡ true
        → Renders (render_at reading place format args)) where
    with_char-Renders :
        (args : List Argument)
        → word_first args (fits_at ok ordinary format) ≡ true
        → Renders (with_char args (render_at reading ordinary format))
    with_char-Renders [] h = cc
    with_char-Renders (text s ∷ args) h = cc
    with_char-Renders (word w ∷ args) h = prepend-Renders (u8 w ∷ []) _ (rest ordinary args h)

    with_text-Renders :
        (args : List Argument)
        → text_first args (fits_at ok ordinary format) ≡ true
        → Renders (with_text args (render_at reading ordinary format))
    with_text-Renders [] h = cc
    with_text-Renders (word w ∷ args) h = cc
    with_text-Renders (text s ∷ args) h = prepend-Renders s _ (rest ordinary args h)

    with_number-Renders :
        (signed : Bool) (base : ℕ) (prefix : List ℕ) (args : List Argument)
        → number_first ok signed args (fits_at ok ordinary format) ≡ true
        → Renders (with_number reading signed base prefix args (render_at reading ordinary format))
    with_number-Renders signed base prefix [] h = cc
    with_number-Renders signed base prefix (text s ∷ args) h = cc
    with_number-Renders signed base prefix (word w ∷ args) h =
        prepend-Renders _ _ (rest ordinary args (fits_rest (ok signed w) _ h))

    kind-Renders :
        (whole : List ℕ) (args : List Argument) (k : Kind)
        → elim k [
          | one_char ↦ word_first args (fits_at ok ordinary format)
          | whole_text ↦ text_first args (fits_at ok ordinary format)
          | number_of signed base prefix ↦ number_first ok signed args (fits_at ok ordinary format)
          | longer place ↦ fits_at ok place format args
          | unknown ↦ true
        ]
          ≡ true
        → Renders (elim k [
          | one_char ↦ with_char args (render_at reading ordinary format)
          | whole_text ↦ with_text args (render_at reading ordinary format)
          | number_of signed base prefix ↦
              with_number reading signed base prefix args (render_at reading ordinary format)
          | longer place ↦ render_at reading place format args
          | unknown ↦ some whole
        ])
    kind-Renders whole args one_char h = with_char-Renders args h
    kind-Renders whole args whole_text h = with_text-Renders args h
    kind-Renders whole args (number_of signed base prefix) h =
        with_number-Renders signed base prefix args h
    kind-Renders whole args (longer place) h = rest place args h
    kind-Renders whole args unknown h = (whole, refl)

  fits_at-Renders :
      (format : List ℕ) (place : Place) (args : List Argument)
      → fits_at ok place format args ≡ true
      → Renders (render_at reading place format args)
  unfolding fits_at render_at
  fits_at-Renders [] place args h = (_, refl)
  fits_at-Renders (c ∷ format) ordinary args h =
      choice-Renders (c == b'%') _ _ _ _ (fits_at-Renders format behind_percent args)
        (λ k. prepend-Renders (c ∷ []) _ (fits_at-Renders format ordinary args k)) h
  fits_at-Renders (c ∷ format) behind_percent args h =
      choice-Renders (c == b'%') _ _ _ _
        (λ k. prepend-Renders (c ∷ []) _ (fits_at-Renders format ordinary args k))
        (kind-Renders format (fits_at-Renders format) _ args (kind_at behind_percent c)) h
  fits_at-Renders (c ∷ format) behind_l args h =
      kind-Renders format (fits_at-Renders format) _ args (kind_at behind_l c) h
  fits_at-Renders (c ∷ format) behind_z args h =
      kind-Renders format (fits_at-Renders format) _ args (kind_at behind_z c) h

-- A format whose directives find arguments of their kinds stands for a text.
pub fits-Renders :
    (format : List ℕ) (args : List Argument)
    → fits format args ≡ true
    → Renders (signed_text format args)
fits-Renders format args h = fits_at-Renders (λ signed w. true) always_signed format ordinary args h

pub signed_text-char : (w : ℕ) → signed_text (codes "%c") (word w ∷ []) ≡ some (u8 w ∷ [])
unfolding render_at
signed_text-char w = refl
