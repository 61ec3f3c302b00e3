-- ===== src/Libc/Stdio/Render.antt =====
-- The text that a format and its arguments stand for, read one character at a time.
pub mod Typed
pub mod Agrees
pub mod Directive
pub mod Plain
use olympos.Prelude.{
  ℕ, zero, suc, ◌+◌, ◌-◌, ◌*◌, ◌≤◌, ◌^◌, ◌<◌, Bool, true, false, not, ◌&&◌, ◌||◌, Option, none,
  some, List, [], ◌∷◌, ◌++◌, length, ltb, ◌==◌, if◌then◌else◌, ◌≡◌, ◌≢◌, refl, sym, ap, ap₂, ◌∙◌,
  subst, arith, u8, ℤ, pos, negsuc, Bool-cases, Option-cases, inl, inr, skips, takes,
}
use mathlib.Core.List.{append-nil, append_assoc}
use olympos.Libc.Itoa.{codes}
use olympos.Libc.Itoa.Value.{int_text, magnitude}
use olympos.Libc.Stdio.{
  Argument, word, text, Item, as_int, number, character, string, unrecognized, long_directive,
  size_directive, directive, literal,
}

-- Where the reader stands: among ordinary characters, behind a `%`, behind `%l`, behind `%z`.
pub data Place : Type 0 where
  ordinary behind_percent behind_l behind_z : Place

-- What a directive takes from the arguments; a number is signed or not, and has a base and a prefix.
pub data Kind : Type 0 where
  one_char whole_text : Kind
  number_of : Bool → ℕ → List ℕ → Kind
  longer : Place → Kind
  unknown : Kind

-- What the character behind a `%`, `%l` or `%z` asks for.
abbrev pub kind_at : Place → ℕ → Kind
kind_at ordinary c = unknown
kind_at behind_percent c =
    if c == b'c'
    then one_char
    else if c == b's'
    then whole_text
    else if c == b'd'
    then number_of true 10 []
    else if c == b'u'
    then number_of false 10 []
    else if c == b'p'
    then number_of false 16 (codes "0x")
    else if c == b'x'
    then number_of false 16 []
    else if c == b'l'
    then longer behind_l
    else if c == b'z'
    then longer behind_z
    else unknown
kind_at behind_l c =
    if c == b'x'
    then number_of false 16 []
    else if c == b'd'
    then number_of true 10 []
    else if c == b'u'
    then number_of false 10 []
    else unknown
kind_at behind_z c =
    if c == b'u' then number_of false 10 [] else if c == b'd' then number_of true 10 [] else unknown

-- The characters read since the text was ordinary.
abbrev pub read_so_far : Place → List ℕ
read_so_far ordinary = []
read_so_far behind_percent = b'%' ∷ []
read_so_far behind_l = b'%' ∷ b'l' ∷ []
read_so_far behind_z = b'%' ∷ b'z' ∷ []

abbrev pub prepend : List ℕ → Option (List ℕ) → Option (List ℕ)
prepend t none = none
prepend t (some rest) = some (t ++ rest)

-- One argument as text, and the text of the others.
abbrev pub with_char : List Argument → (List Argument → Option (List ℕ)) → Option (List ℕ)
with_char (word w ∷ args) rest = prepend (u8 w ∷ []) (rest args)
with_char (text s ∷ args) rest = none
with_char [] rest = none

abbrev pub with_text : List Argument → (List Argument → Option (List ℕ)) → Option (List ℕ)
with_text (text s ∷ args) rest = prepend s (rest args)
with_text (word w ∷ args) rest = none
with_text [] rest = none

pub magnitude-as_int : (w : ℕ) → magnitude (as_int w) ≤ 2 ^ 31
magnitude-as_int w = elim (Bool-cases (ltb w (2 ^ 31))) [
  | inl e ↦ rw e (ground arith)
  | inr e ↦ rw e (ground arith)
]

-- What number a word is, for a signed directive or not: as the documentation of `printf` says, and as
-- the code takes it.
abbrev pub Reading : Type 0
Reading = Bool → ℕ → ℤ

abbrev pub documented : Reading
documented signed w = if signed then as_int w else pos w

abbrev pub always_signed : Reading
always_signed signed w = as_int w

abbrev pub with_number :
    Reading
    → Bool
    → ℕ
    → List ℕ
    → List Argument
    → (List Argument → Option (List ℕ))
    → Option (List ℕ)
with_number reading signed base prefix (word w ∷ args) rest =
    prepend (prefix ++ int_text base (reading signed w)) (rest args)
with_number reading signed base prefix (text s ∷ args) rest = none
with_number reading signed base prefix [] rest = none

-- The text of a format; `none` for arguments of another kind than the directives read. An unknown
-- directive stands for itself and the whole rest of the format.
unfoldable pub render_at : Reading → Place → List ℕ → List Argument → Option (List ℕ)
render_at reading place [] args = some (read_so_far place)
render_at reading ordinary (c ∷ format) args = elim (c == b'%') [
  | true ↦ render_at reading behind_percent format args
  | false ↦ prepend (c ∷ []) (render_at reading ordinary format args)
]
render_at reading behind_percent (c ∷ format) args = elim (c == b'%') [
  | true ↦ prepend (c ∷ []) (render_at reading ordinary format args)
  | false ↦ elim (kind_at behind_percent c) [
    | one_char ↦ with_char args (render_at reading ordinary format)
    | whole_text ↦ with_text args (render_at reading ordinary format)
    | number_of signed base prefix ↦
        with_number reading signed base prefix args (render_at reading ordinary format)
    | longer place ↦ render_at reading place format args
    | unknown ↦ some (b'%' ∷ c ∷ format)
  ]
]
render_at reading behind_l (c ∷ format) args = elim (kind_at behind_l c) [
  | one_char ↦ with_char args (render_at reading ordinary format)
  | whole_text ↦ with_text args (render_at reading ordinary format)
  | number_of signed base prefix ↦
      with_number reading signed base prefix args (render_at reading ordinary format)
  | longer place ↦ render_at reading place format args
  | unknown ↦ some (b'%' ∷ b'l' ∷ c ∷ format)
]
render_at reading behind_z (c ∷ format) args = elim (kind_at behind_z c) [
  | one_char ↦ with_char args (render_at reading ordinary format)
  | whole_text ↦ with_text args (render_at reading ordinary format)
  | number_of signed base prefix ↦
      with_number reading signed base prefix args (render_at reading ordinary format)
  | longer place ↦ render_at reading place format args
  | unknown ↦ some (b'%' ∷ b'z' ∷ c ∷ format)
]

-- The text that the documentation gives for a format and its arguments.
abbrev pub render : List ℕ → List Argument → Option (List ℕ)
render format args = render_at documented ordinary format args

-- The text with every number taken as an `int`.
abbrev pub signed_text : List ℕ → List Argument → Option (List ℕ)
signed_text format args = render_at always_signed ordinary format args

pub signed_text-nil : (args : List Argument) → signed_text [] args ≡ some []
unfolding render_at
signed_text-nil args = refl

pub prepend-nil : (r : Option (List ℕ)) → prepend [] r ≡ r
prepend-nil none = refl
prepend-nil (some t) = refl

pub prepend-append :
    (s t : List ℕ) (r : Option (List ℕ)) → prepend (s ++ t) r ≡ prepend s (prepend t r)
prepend-append s t none = refl
prepend-append s t (some rest) = ap some (append_assoc s t rest)

pub prepend_cases :
    (s : List ℕ) (r : Option (List ℕ)) (t : List ℕ)
    → prepend s r ≡ some t
    → (rest : List ℕ) × (r ≡ some rest) × (t ≡ s ++ rest)
prepend_cases s none t e = cc
prepend_cases s (some rest) t e = (rest, refl, cc)

pub signed_text-plain :
    (c : ℕ) (format : List ℕ) (args : List Argument)
    → (c == b'%') ≡ false
    → signed_text (c ∷ format) args ≡ prepend (c ∷ []) (signed_text format args)
unfolding render_at
signed_text-plain c format args e = skips (c == b'%') _ _ e

pub signed_text-percent :
    (c : ℕ) (format : List ℕ) (args : List Argument)
    → (c == b'%') ≡ true
    → signed_text (c ∷ format) args ≡ render_at always_signed behind_percent format args
unfolding render_at
signed_text-percent c format args e = takes (c == b'%') _ _ e

pub signed_text-twice :
    (c : ℕ) (format : List ℕ) (args : List Argument)
    → (c == b'%') ≡ true
    → render_at always_signed behind_percent (c ∷ format) args
      ≡ prepend (c ∷ []) (signed_text format args)
unfolding render_at
signed_text-twice c format args e = takes (c == b'%') _ _ e
