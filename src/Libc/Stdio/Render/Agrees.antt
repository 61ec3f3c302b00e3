-- ===== src/Libc/Stdio/Render/Agrees.antt =====
-- Where the code's reading of the numbers is the documented one.
use olympos.Prelude.{
  ℕ, ◌^◌, Bool, true, false, ◌||◌, Option, some, List, [], ◌∷◌, ltb, ◌==◌, ◌≡◌, refl, ap, u8,
}
use olympos.Libc.Stdio.{Argument, word, text}
use olympos.Libc.Stdio.Render.{
  Place, ordinary, behind_percent, behind_l, behind_z, Kind, one_char, whole_text, number_of,
  longer, unknown, kind_at, prepend, with_char, with_text, with_number, documented, always_signed,
  render_at, render, signed_text,
}
use olympos.Libc.Stdio.Render.Typed.{
  word_first, text_first, number_first, fits_rest, fits_own, fits_at, in_range,
}

abbrev ok : Bool → ℕ → Bool
ok signed w = signed || ltb w (2 ^ 31)

readings_agree :
    (signed : Bool) (w : ℕ) → ok signed w ≡ true → documented signed w ≡ always_signed signed w
readings_agree true w h = refl
readings_agree false w h = rw h refl

module _ (format : List ℕ)
    (rest : (place : Place) (args : List Argument)
      → fits_at ok place format args ≡ true
      → render_at documented place format args ≡ render_at always_signed place format args) where
  with_char-same :
      (args : List Argument)
      → word_first args (fits_at ok ordinary format) ≡ true
      → with_char args (render_at documented ordinary format)
        ≡ with_char args (render_at always_signed ordinary format)
  with_char-same [] h = cc
  with_char-same (text s ∷ args) h = cc
  with_char-same (word w ∷ args) h = ap (prepend (u8 w ∷ [])) (rest ordinary args h)

  with_text-same :
      (args : List Argument)
      → text_first args (fits_at ok ordinary format) ≡ true
      → with_text args (render_at documented ordinary format)
        ≡ with_text args (render_at always_signed ordinary format)
  with_text-same [] h = cc
  with_text-same (word w ∷ args) h = cc
  with_text-same (text s ∷ args) h = ap (prepend s) (rest ordinary args h)

  with_number-same :
      (signed : Bool) (base : ℕ) (prefix : List ℕ) (args : List Argument)
      → number_first ok signed args (fits_at ok ordinary format) ≡ true
      → with_number documented signed base prefix args (render_at documented ordinary format)
        ≡ with_number always_signed signed base prefix args
            (render_at always_signed ordinary format)
  with_number-same signed base prefix [] h = cc
  with_number-same signed base prefix (text s ∷ args) h = cc
  with_number-same signed base prefix (word w ∷ args) h =
      let r = readings_agree signed w (fits_own (ok signed w) _ h) in
      let t = rest ordinary args (fits_rest (ok signed w) _ h) in rw (r, t) refl

  kind-same :
      (whole : List ℕ) (args : List Argument) (k : Kind)
      → elim k [
        | one_char ↦ word_first args (fits_at ok ordinary format)
        | whole_text ↦ text_first args (fits_at ok ordinary format)
        | number_of signed base prefix ↦ number_first ok signed args (fits_at ok ordinary format)
        | longer place ↦ fits_at ok place format args
        | unknown ↦ true
      ]
        ≡ true
      → elim k [
        | one_char ↦ with_char args (render_at documented ordinary format)
        | whole_text ↦ with_text args (render_at documented ordinary format)
        | number_of signed base prefix ↦
            with_number documented signed base prefix args (render_at documented ordinary format)
        | longer place ↦ render_at documented place format args
        | unknown ↦ some whole
      ]
        ≡ elim k [
          | one_char ↦ with_char args (render_at always_signed ordinary format)
          | whole_text ↦ with_text args (render_at always_signed ordinary format)
          | number_of signed base prefix ↦
              with_number always_signed signed base prefix args
                (render_at always_signed ordinary format)
          | longer place ↦ render_at always_signed place format args
          | unknown ↦ some whole
        ]
  kind-same whole args one_char h = with_char-same args h
  kind-same whole args whole_text h = with_text-same args h
  kind-same whole args (number_of signed base prefix) h = with_number-same signed base prefix args h
  kind-same whole args (longer place) h = rest place args h
  kind-same whole args unknown h = refl

choice-same :
    (b p q : Bool) (x y x' y' : Option (List ℕ))
    → (p ≡ true → x ≡ x')
    → (q ≡ true → y ≡ y')
    → elim b [ true ↦ p | false ↦ q ] ≡ true
    → elim b [ true ↦ x | false ↦ y ] ≡ elim b [ true ↦ x' | false ↦ y' ]
choice-same true p q x y x' y' f g h = f h
choice-same false p q x y x' y' f g h = g h

fits_at-same :
    (format : List ℕ) (place : Place) (args : List Argument)
    → fits_at ok place format args ≡ true
    → render_at documented place format args ≡ render_at always_signed place format args
unfolding fits_at render_at
fits_at-same [] place args h = refl
fits_at-same (c ∷ format) ordinary args h =
    choice-same (c == b'%') _ _ _ _ _ _ (fits_at-same format behind_percent args)
      (λ k. ap (prepend (c ∷ [])) (fits_at-same format ordinary args k)) h
fits_at-same (c ∷ format) behind_percent args h =
    choice-same (c == b'%') _ _ _ _ _ _
      (λ k. ap (prepend (c ∷ [])) (fits_at-same format ordinary args k))
      (kind-same format (fits_at-same format) _ args (kind_at behind_percent c)) h
fits_at-same (c ∷ format) behind_l args h =
    kind-same format (fits_at-same format) _ args (kind_at behind_l c) h
fits_at-same (c ∷ format) behind_z args h =
    kind-same format (fits_at-same format) _ args (kind_at behind_z c) h

-- With arguments in range a format stands for the same text in both readings.
pub render-signed_text :
    (format : List ℕ) (args : List Argument)
    → in_range format args ≡ true
    → render format args ≡ signed_text format args
render-signed_text format args h = fits_at-same format ordinary args h
