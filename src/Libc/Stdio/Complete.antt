-- ===== src/Libc/Stdio/Complete.antt =====
-- `printf` of a format that fits its arguments, and of words that its documentation reads otherwise.
use olympos.Prelude.{
  ℕ, ◌+◌, ◌-◌, ◌^◌, ◌≤◌, ◌<◌, Bool, true, Option, some, List, [], ◌∷◌, ◌++◌, length, ◌≡◌, inl, inr,
  refl, ap, ◌∙◌, arith, ℤ, pos, negsuc, u8,
}
use mathlib.Core.List.{append-nil}
use olympos.Libc.Itoa.{codes}
use olympos.Libc.Itoa.Numeral.{numeral, length-numeral}
use olympos.Libc.Itoa.Value.{int_text}
use olympos.Libc.Stdio.{Argument, word, printf, int_max, as_int}
use olympos.Libc.Stdio.Prints.{Prints, printf-Prints_signed}
use olympos.Libc.Stdio.Render.{render_at, render, signed_text}
use olympos.Libc.Stdio.Render.Typed.{fits, in_range, fits-Renders, signed_text-char}
use olympos.Libc.Stdio.Render.Agrees.{render-signed_text}

-- `printf` prints a text, which is that of the documentation where the unsigned words are in range.
pub record Completes (format : List ℕ) (args : List Argument) (out : List ℕ)
    (result : Option (ℤ × List ℕ)) : Type 0 where
  pub text : List ℕ
  pub stands : in_range format args ≡ true → render format args ≡ some text
  pub prints : Prints 0 out text result

unsigned_texts :
    (w : ℕ)
    → (signed_text (codes "%u") (word w ∷ []) ≡ some (int_text 10 (as_int w) ++ []))
      × (render (codes "%u") (word w ∷ []) ≡ some (numeral 10 w ++ []))
      × (signed_text (codes "%x") (word w ∷ []) ≡ some (int_text 16 (as_int w) ++ []))
      × (render (codes "%x") (word w ∷ []) ≡ some (numeral 16 w ++ []))
unfolding render_at
unsigned_texts w = (refl, refl, refl, refl)

negative : (w : ℕ) → 2 ^ 31 ≤ w → w < 2 ^ 32 → as_int w ≡ negsuc (2 ^ 32 - 1 - w)
negative w low high = ground arith

module _ (accepts : List ℕ → ℕ → Bool) (all : (out : List ℕ) (c : ℕ) → accepts out c ≡ true) where
  -- Where `putchar` takes every byte and each directive of a format finds an argument of the kind that
  -- it reads, `printf` comes to an end without undefined behaviour, for all words: it prints a text and
  -- returns its length, or returns -1 for a text that is longer than an `int` counts. With each word of
  -- an unsigned directive at most INT_MAX the text is the documented one.
  pub printf-Completes :
      (format : List ℕ) (args : List Argument) (out : List ℕ)
      → fits format args ≡ true
      → Completes format args out (printf accepts format args out)
  printf-Completes format args out h =
      let (t, e) = fits-Renders format args h in
      record {
        text = t;
        stands = λ range. render-signed_text format args range ∙ e;
        prints = printf-Prints_signed accepts all format args out t e;
      }

  pub printf_returns :
      (format : List ℕ) (args : List Argument) (out : List ℕ)
      → fits format args ≡ true
      → (r : ℤ × List ℕ) × (printf accepts format args out ≡ some r)
  printf_returns format args out h = elim ((printf-Completes format args out h).prints) [
    | inl p ↦ (_, p.1)
    | inr p ↦ (_, p.returns)
  ]

  -- A text that an `int` counts is printed.
  pub printf_prints :
      (format : List ℕ) (args : List Argument) (out t : List ℕ)
      → signed_text format args ≡ some t
      → length t ≤ int_max
      → printf accepts format args out ≡ some (pos (length t), out ++ t)
  printf_prints format args out t e short =
      elim (printf-Prints_signed accepts all format args out t e) [
        | inl p ↦ p.1 ∙ ap (λ (n : ℕ). some (pos n, out ++ t)) (omega arith)
        | inr p ↦ absurd (omega (arith, p.long, short))
      ]

  pub printf-char :
      (w : ℕ) (out : List ℕ)
      → printf accepts (codes "%c") (word w ∷ []) out ≡ some (pos 1, out ++ u8 w ∷ [])
  printf-char w out =
      printf_prints (codes "%c") (word w ∷ []) out (u8 w ∷ []) (signed_text-char w) (omega arith)

  -- For a word above INT_MAX, `%u` prints a minus and the numeral of 2^32 less the word, and `%x` that
  -- numeral without a sign, where the documentation gives the numeral of the word.
  pub printf-unsigned :
      (w : ℕ) (out : List ℕ)
      → 2 ^ 31 ≤ w
      → w < 2 ^ 32
      → let opposite = 2 ^ 32 - w in
        (render (codes "%u") (word w ∷ []) ≡ some (numeral 10 w))
        × (printf accepts (codes "%u") (word w ∷ []) out
            ≡ some (pos (1 + length (numeral 10 opposite)), out ++ b'-' ∷ numeral 10 opposite))
        × (render (codes "%x") (word w ∷ []) ≡ some (numeral 16 w))
        × (printf accepts (codes "%x") (word w ∷ []) out
            ≡ some (pos (length (numeral 16 opposite)), out ++ numeral 16 opposite))
  printf-unsigned w out low high =
      let texts = unsigned_texts w in
      let v = negative w low high in
      let m : 2 ^ 32 - 1 - w + 1 ≡ 2 ^ 32 - w = omega arith in
      let decimal : int_text 10 (as_int w) ++ [] ≡ b'-' ∷ numeral 10 (2 ^ 32 - w) =
        append-nil (int_text 10 (as_int w))
        ∙ ap (int_text 10) v
        ∙ ap (λ (k : ℕ). b'-' ∷ numeral 10 k) m in
      let hexadecimal : int_text 16 (as_int w) ++ [] ≡ numeral 16 (2 ^ 32 - w) =
        append-nil (int_text 16 (as_int w)) ∙ ap (int_text 16) v ∙ ap (numeral 16) m in
      (
        texts.1 ∙ ap some (append-nil (numeral 10 w)),
        printf_prints (codes "%u") (word w ∷ []) out (b'-' ∷ numeral 10 (2 ^ 32 - w))
              (texts.0 ∙ ap some decimal) (omega (arith, length-numeral 10 (2 ^ 32 - w)))
            ∙ ap (λ (n : ℕ). some (pos n, out ++ b'-' ∷ numeral 10 (2 ^ 32 - w))) (omega arith),
        texts.3 ∙ ap some (append-nil (numeral 16 w)),
        printf_prints (codes "%x") (word w ∷ []) out (numeral 16 (2 ^ 32 - w))
            (texts.2 ∙ ap some hexadecimal) (omega (arith, length-numeral 16 (2 ^ 32 - w))),
      )
