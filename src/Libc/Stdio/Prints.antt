-- ===== src/Libc/Stdio/Prints.antt =====
-- `printf` against the text that its format stands for.
use olympos.Prelude.{
  ℕ, zero, suc, ◌+◌, ◌-◌, ◌≤◌, ◌<◌, Bool, true, false, Option, none, some, List, [], ◌∷◌, ◌++◌,
  length, ltb, ◌==◌, ◌≡◌, ◌⊎◌, refl, sym, ap, ap₂, ◌∙◌, subst, arith, ℤ, pos, negsuc, Bool-cases,
  Option-cases, inl, inr, length-append,
}
use mathlib.Core.List.{append-nil, append_assoc}
use olympos.Libc.Stdio.{
  Argument, Item, directive, literal, run, next_item, int_max, emit, printf_from, printf,
}
use olympos.Libc.Stdio.Output.{print_all, round_stops, round_goes_on}
use olympos.Libc.Stdio.Render.{
  prepend, signed_text, render, prepend-append, prepend_cases, signed_text-nil, signed_text-plain,
  signed_text-percent, signed_text-twice,
}
use olympos.Libc.Stdio.Render.Directive.{joined, Stands, Stands-le, directive-Stands, directive_end}
use olympos.Libc.Stdio.Render.Typed.{in_range}
use olympos.Libc.Stdio.Render.Agrees.{render-signed_text}
use olympos.Libc.Stdio.Render.Plain.{signed_text-literal}

run-Stands :
    (c : ℕ) (format : List ℕ) (args : List Argument)
    → Stands (length format) (some (run c format args)) (prepend (c ∷ []) (signed_text format args))
unfolding run
run-Stands c format args =
    let l = signed_text-literal format args in
    (
      ap (prepend (c ∷ [])) l.0
          ∙ sym (prepend-append (c ∷ []) (literal format).0 (signed_text (literal format).1 args))
          ∙ ap (λ t. prepend t (signed_text (literal format).1 args))
              (sym (append-nil (c ∷ (literal format).0))),
      l.1,
    )

-- A round of the loop does what the format stands for.
next_item-Stands :
    (c : ℕ) (format : List ℕ) (args : List Argument)
    → Stands (length format) (next_item c format args) (signed_text (c ∷ format) args)
unfolding next_item
next_item-Stands c [] args = elim (Bool-cases (c == b'%')) [
  | inl e ↦ rw e (
      subst (Stands 0 (directive [] args)) (sym (signed_text-percent c [] args e))
        (directive_end args))
  | inr e ↦ rw e (
      subst (Stands 0 (some (run c [] args))) (sym (signed_text-plain c [] args e))
        (run-Stands c [] args))
]
next_item-Stands c (d ∷ format) args = elim (Bool-cases (c == b'%')) [
  | inr e ↦ rw e (
      subst (Stands (length (d ∷ format)) (some (run c (d ∷ format) args)))
        (sym (signed_text-plain c (d ∷ format) args e)) (run-Stands c (d ∷ format) args))
  | inl e ↦ elim (Bool-cases (d == b'%')) [
    | inl f ↦
        rw (e, f)
          (subst (Stands (length (d ∷ format)) (some (run d format args)))
            (sym (signed_text-percent c (d ∷ format) args e ∙ signed_text-twice d format args f))
            (Stands-le (length format) (length (d ∷ format)) (some (run d format args))
              (prepend (d ∷ []) (signed_text format args)) (omega arith)
              (run-Stands d format args)))
    | inr f ↦
        rw (e, f)
          (subst (Stands (length (d ∷ format)) (directive (d ∷ format) args))
            (sym (signed_text-percent c (d ∷ format) args e))
            (Stands-le (length format) (length (d ∷ format)) _ _ (omega arith)
              (directive-Stands d format args (ground arith))))
  ]
]

-- What `printf` comes to for the text `t`: all of it is printed and its length returned, or it is
-- longer than an `int` counts, and the result is -1.
pub record Overflows (written : ℕ) (t : List ℕ) (result : Option (ℤ × List ℕ)) : Type 0 where
  pub long : int_max < written + length t
  pub out : List ℕ
  pub returns : result ≡ some (negsuc 0, out)

abbrev pub Prints : ℕ → List ℕ → List ℕ → Option (ℤ × List ℕ) → Type 0
Prints written out t result =
    ((written + length t ≤ int_max) × (result ≡ some (pos (written + length t), out ++ t)))
    ⊎ Overflows written t result

module _ (accepts : List ℕ → ℕ → Bool) (all : (out : List ℕ) (c : ℕ) → accepts out c ≡ true) where
  emit_goes_on :
      (piece : List ℕ) (pieces : List (List ℕ)) (written : ℕ) (out : List ℕ)
      → ltb (int_max - written) (length piece) ≡ false
      → emit accepts (piece ∷ pieces) written out
        ≡ emit accepts pieces (written + length piece) (out ++ piece)
  unfolding emit
  emit_goes_on piece pieces written out e = rw (e, print_all accepts all piece out) refl

  -- The pieces of a round are printed in turn, up to the first one that the count has no room for.
  emit_cases :
      (pieces : List (List ℕ)) (written : ℕ) (out : List ℕ)
      → written ≤ int_max
      → ((written + length (joined pieces) ≤ int_max)
          × (emit accepts pieces written out
              ≡ (true, written + length (joined pieces), out ++ joined pieces)))
        ⊎ ((int_max < written + length (joined pieces))
            × ((emit accepts pieces written out).0 ≡ false))
  unfolding emit
  emit_cases [] written out h =
      inl (
        omega arith,
        ap₂ (λ (n : ℕ) (t : List ℕ). (true, n, t)) (omega arith) (sym (append-nil out)),
      )
  emit_cases (piece ∷ pieces) written out h =
      let size = length-append piece (joined pieces) in
      elim (Bool-cases (ltb (int_max - written) (length piece))) [
        | inl e ↦ inr (ground (arith, size), rw e refl)
        | inr e ↦
            let step = emit_goes_on piece pieces written out e in
            elim (emit_cases pieces (written + length piece) (out ++ piece) (ground arith)) [
              | inl r ↦ inl (
                omega (arith, size, r.0),
                step
                    ∙ r.1
                    ∙ ap₂ (λ (n : ℕ) (t : List ℕ). (true, n, t)) (omega (arith, size))
                        (append_assoc out piece (joined pieces)),
              )
              | inr r ↦ inr (omega (arith, size, r.0), ap (λ q. q.0) step ∙ r.1)
            ]
      ]

  done :
      (fuel : ℕ) (args : List Argument) (written : ℕ) (out : List ℕ)
      → written ≤ int_max
      → Prints written out [] (printf_from accepts (suc fuel) [] args written out)
  unfolding printf_from
  done fuel args written out w = inl (
    omega arith,
    ap₂ (λ (n : ℕ) (u : List ℕ). some (pos n, u)) (omega arith) (sym (append-nil out)),
  )

  goes_on :
      (fuel c : ℕ) (format : List ℕ) (args : List Argument) (written : ℕ) (out : List ℕ)
      (item : Item)
      → next_item c format args ≡ some item
      → (n : ℕ) (u : List ℕ) → emit accepts item.pieces written out ≡ (true, n, u)
      → printf_from accepts (suc fuel) (c ∷ format) args written out
        ≡ printf_from accepts fuel item.format item.parameters n u
  goes_on fuel c format args written out item e n u r =
      round_goes_on accepts fuel c format args written out item e (ap (λ q. q.0) r)
      ∙ ap (λ (q : Bool × ℕ × List ℕ). printf_from accepts fuel item.format item.parameters q.1 q.2)
          r

  later-Prints :
      (s t : List ℕ) (written : ℕ) (out : List ℕ) (result : Option (ℤ × List ℕ))
      → Prints (written + length s) (out ++ s) t result
      → Prints written out (s ++ t) result
  later-Prints s t written out result (inl r) =
      let size = length-append s t in
      inl (
        omega (arith, size, r.0),
        r.1
            ∙ ap₂ (λ (n : ℕ) (u : List ℕ). some (pos n, u)) (omega (arith, size))
                (append_assoc out s t),
      )
  later-Prints s t written out result (inr r) =
      inr (record {
        long = omega (arith, length-append s t, r.long);
        out = r.out;
        returns = r.returns;
      })

  printf_from-Prints :
      (fuel : ℕ) (format : List ℕ) (args : List Argument) (written : ℕ) (out t : List ℕ)
      → length format < fuel
      → written ≤ int_max
      → signed_text format args ≡ some t
      → Prints written out t (printf_from accepts fuel format args written out)
  printf_from-Prints zero format args written out t h w e = absurd (omega arith)
  printf_from-Prints (suc fuel) [] args written out t h w e =
      subst (λ u. Prints written out u (printf_from accepts (suc fuel) [] args written out))
        (cc (signed_text-nil args, e)) (done fuel args written out w)
  printf_from-Prints (suc fuel) (c ∷ format) args written out t h w e =
      let s = next_item-Stands c format args in
      elim (Option-cases (next_item c format args)) [
        | inl n ↦ let z : signed_text (c ∷ format) args ≡ none = rw n at s in absurd (cc (z, e))
        | inr (item, n) ↦
            let z : Stands (length format) (some item) (signed_text (c ∷ format) args) =
              rw n at s in
            let (rest, f, g) = prepend_cases (joined item.pieces) _ t (sym z.0 ∙ e) in
            subst
              (λ u.
                Prints written out u (printf_from accepts (suc fuel) (c ∷ format) args written out))
              (sym g)
              (elim (emit_cases item.pieces written out w) [
                | inl r ↦
                    subst (Prints written out (joined item.pieces ++ rest))
                      (sym (goes_on fuel c format args written out item n _ _ r.1))
                      (later-Prints (joined item.pieces) rest written out _ (
                        printf_from-Prints fuel item.format item.parameters _ _ rest
                          (omega (arith, z.1)) r.0 f))
                | inr r ↦ inr (record {
                  long = omega (arith, length-append (joined item.pieces) rest, r.0);
                  out = _;
                  returns = round_stops accepts fuel c format args written out item n r.1;
                })
              ])
      ]

pub printf-Prints_signed :
    (accepts : List ℕ → ℕ → Bool)
    → ((out : List ℕ) (c : ℕ) → accepts out c ≡ true)
    → (format : List ℕ) (args : List Argument) (out t : List ℕ) → signed_text format args ≡ some t
    → Prints 0 out t (printf accepts format args out)
unfolding printf
printf-Prints_signed accepts all format args out t e =
    printf_from-Prints accepts all (suc (length format)) format args 0 out t (omega arith)
      (omega arith) e

-- Where `putchar` takes every byte, and each word of an unsigned directive is at most INT_MAX: `printf`
-- comes to an end and prints just the text that its documentation gives for the format and the
-- arguments, and returns its length; but if the text is longer than an `int` counts, it returns -1.
pub printf-Prints :
    (accepts : List ℕ → ℕ → Bool)
    → ((out : List ℕ) (c : ℕ) → accepts out c ≡ true)
    → (format : List ℕ) (args : List Argument) (out t : List ℕ) → in_range format args ≡ true
    → render format args ≡ some t
    → Prints 0 out t (printf accepts format args out)
printf-Prints accepts all format args out t range e =
    printf-Prints_signed accepts all format args out t
      (sym (render-signed_text format args range) ∙ e)
