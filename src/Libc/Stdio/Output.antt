-- ===== src/Libc/Stdio/Output.antt =====
-- What `printf` prints and returns.
use olympos.Prelude.{
  ℕ, zero, suc, ◌+◌, ◌-◌, ◌≤◌, ◌<◌, Bool, true, false, Option, none, some, List, [], ◌∷◌, ◌++◌,
  length, ltb, ◌==◌, ◌≡◌, ◌≢◌, inl, inr, refl, sym, ap, ◌∙◌, subst, arith, ℤ, pos, negsuc,
  length-append, Bool-cases, Option-cases,
}
use mathlib.Core.List.{append_assoc, append-nil}
use olympos.Libc.Stdio.{
  Argument, text, Item, directive, literal, run, string, next_item, int_max, print, emit,
  printf_from, printf, puts,
}

length-print :
    (accepts : List ℕ → ℕ → Bool) (bytes out : List ℕ)
    → (print accepts bytes out).0 ≡ true
    → length (print accepts bytes out).1 ≡ length out + length bytes
unfolding print
length-print accepts [] out e = omega arith
length-print accepts (c ∷ bytes) out e = elim (Bool-cases (accepts out c)) [
  | inl a ↦ rw a (
      length-print accepts bytes (out ++ c ∷ []) (rw a at e)
      ∙ omega (arith, length-append out (c ∷ [])))
  | inr a ↦ absurd (cc (rw a at e))
]

-- What was printed is what was counted.
abbrev Balanced : ℕ → ℕ → Bool × ℕ × List ℕ → Type 0
Balanced written size r = r.0 ≡ true → length r.2 + written ≡ size + r.1

emit-Balanced :
    (accepts : List ℕ → ℕ → Bool) (pieces : List (List ℕ)) (written : ℕ) (out : List ℕ)
    → Balanced written (length out) (emit accepts pieces written out)
unfolding emit
emit-Balanced accepts [] written out = λ e. refl
emit-Balanced accepts (piece ∷ pieces) written out =
    elim (Bool-cases (ltb (int_max - written) (length piece))) [
      | inl a ↦ rw a (λ e. absurd (cc e))
      | inr a ↦ elim (Bool-cases (print accepts piece out).0) [
        | inr b ↦ rw (a, b) (λ e. absurd (cc e))
        | inl b ↦
            rw (a, b)
              (λ e. omega (
                arith,
                emit-Balanced accepts pieces (written + length piece) (print accepts piece out).1 e,
                length-print accepts piece out b,
              ))
      ]
    ]

-- A count that was returned is the number of bytes put out since `base`.
abbrev pub Counted : ℕ → Option (ℤ × List ℕ) → Type 0
Counted base none = base ≡ base
Counted base (some (pos n, out)) = length out ≡ base + n
Counted base (some (negsuc n, out)) = n ≡ 0

module _ (accepts : List ℕ → ℕ → Bool) (fuel c : ℕ) (format : List ℕ) (parameters : List Argument)
    (written : ℕ) (out : List ℕ) where
  round_fails :
      next_item c format parameters ≡ none
      → printf_from accepts (suc fuel) (c ∷ format) parameters written out ≡ none
  unfolding printf_from
  round_fails e = ground arith

  module _ (item : Item) (e : next_item c format parameters ≡ some item) where
    pub round_stops :
        (emit accepts item.pieces written out).0 ≡ false
        → printf_from accepts (suc fuel) (c ∷ format) parameters written out
          ≡ some (negsuc 0, (emit accepts item.pieces written out).2)
    unfolding printf_from
    round_stops b = ground (arith, e, b)

    pub round_goes_on :
        (emit accepts item.pieces written out).0 ≡ true
        → printf_from accepts (suc fuel) (c ∷ format) parameters written out
          ≡ printf_from accepts fuel item.format item.parameters
              (emit accepts item.pieces written out).1
              (emit accepts item.pieces written out).2
    unfolding printf_from
    round_goes_on b = ground (arith, e, b)

printf_from-Counted :
    (accepts : List ℕ → ℕ → Bool) (fuel base : ℕ) (format : List ℕ) (parameters : List Argument)
    (written : ℕ) (out : List ℕ)
    → length out ≡ base + written
    → Counted base (printf_from accepts fuel format parameters written out)
unfolding printf_from
printf_from-Counted accepts zero base format parameters written out h = refl
printf_from-Counted accepts (suc fuel) base [] parameters written out h = h
printf_from-Counted accepts (suc fuel) base (c ∷ format) parameters written out h =
    elim (Option-cases (next_item c format parameters)) [
      | inl e ↦
          subst (Counted base) (sym (round_fails accepts fuel c format parameters written out e))
            refl
      | inr (item, e) ↦ elim (Bool-cases (emit accepts item.pieces written out).0) [
        | inr b ↦
            subst (Counted base)
              (sym (round_stops accepts fuel c format parameters written out item e b)) refl
        | inl b ↦
            subst (Counted base)
              (sym (round_goes_on accepts fuel c format parameters written out item e b))
              (printf_from-Counted accepts fuel base item.format item.parameters _ _
                (omega (arith, emit-Balanced accepts item.pieces written out b, h)))
      ]
    ]

-- Whatever `putchar` does, a result of `printf` that is not negative is the number of bytes that it
-- put out, and a negative one is -1.
pub printf-Counted :
    (accepts : List ℕ → ℕ → Bool) (format : List ℕ) (parameters : List Argument) (out : List ℕ)
    → Counted (length out) (printf accepts format parameters out)
unfolding printf
printf-Counted accepts format parameters out =
    printf_from-Counted accepts (suc (length format)) (length out) format parameters 0 out
      (omega arith)

-- No character of a text is a `%`.
abbrev pub IsPlain : List ℕ → Type 0
IsPlain [] = zero ≡ zero
IsPlain (c ∷ cs) = (c ≢ b'%') × IsPlain cs

literal-plain : (cs : List ℕ) → IsPlain cs → literal cs ≡ (cs, [])
unfolding literal
literal-plain [] h = refl
literal-plain (c ∷ cs) h =
    let e : (c == b'%') ≡ false = ground (arith, h.0) in rw (e, literal-plain cs h.1) refl

module _ (accepts : List ℕ → ℕ → Bool) (all : (out : List ℕ) (c : ℕ) → accepts out c ≡ true) where
  pub print_all : (bytes out : List ℕ) → print accepts bytes out ≡ (true, out ++ bytes)
  unfolding print
  print_all [] out = ap (λ (t : List ℕ). (true, t)) (sym (append-nil out))
  print_all (c ∷ bytes) out = rw (all out c) (
      print_all bytes (out ++ c ∷ [])
      ∙ ap (λ (t : List ℕ). (true, t)) (append_assoc out (c ∷ []) bytes))

  emit_one :
      (piece : List ℕ) (written : ℕ) (out : List ℕ)
      → length piece + written ≤ int_max
      → emit accepts (piece ∷ []) written out ≡ (true, written + length piece, out ++ piece)
  unfolding emit
  emit_one piece written out room =
      let short : ltb (int_max - written) (length piece) ≡ false = ground arith in
      rw (short, print_all piece out) refl

  -- One round that prints a single piece.
  one_piece :
      (fuel c : ℕ) (format : List ℕ) (parameters : List Argument) (written after : ℕ) (out : List ℕ)
      (piece rest : List ℕ) (left : List Argument)
      → next_item c format parameters
        ≡ some (record { pieces = piece ∷ []; format = rest; parameters = left })
      → after ≡ length piece + written
      → after ≤ int_max
      → printf_from accepts (suc fuel) (c ∷ format) parameters written out
        ≡ printf_from accepts fuel rest left after (out ++ piece)
  one_piece fuel c format parameters written after out piece rest left e sum room =
      let printed = emit_one piece written out (omega arith) in
      round_goes_on accepts fuel c format parameters written out _ e (ap (λ r. r.0) printed)
      ∙ ap (λ (r : Bool × ℕ × List ℕ). printf_from accepts fuel rest left r.1 r.2) printed
      ∙ ap (λ (n : ℕ). printf_from accepts fuel rest left n (out ++ piece)) (omega arith)

  plain_item :
      (c : ℕ) (cs : List ℕ) (parameters : List Argument)
      → IsPlain (c ∷ cs)
      → next_item c cs parameters
        ≡ some (record { pieces = (c ∷ cs) ∷ []; format = []; parameters = parameters })
  unfolding next_item run literal
  plain_item c [] parameters h = ground (arith, h.0)
  plain_item c (d ∷ cs) parameters h =
      let e : (c == b'%') ≡ false = ground (arith, h.0) in
      let f : (d == b'%') ≡ false = ground (arith, h.1) in rw (e, f, literal-plain cs h.1.1) refl

  -- Where `putchar` takes every byte, `printf` of a text without a `%` prints just that text and
  -- returns its length, if that is an `int`.
  pub printf-plain :
      (cs : List ℕ) (parameters : List Argument) (out : List ℕ)
      → IsPlain cs
      → length cs ≤ int_max
      → printf accepts cs parameters out ≡ some (pos (length cs), out ++ cs)
  unfolding printf printf_from
  printf-plain [] parameters out h room =
      ap (λ (t : List ℕ). some (pos 0, t)) (sym (append-nil out))
  printf-plain (c ∷ cs) parameters out h room =
      one_piece (suc (length cs)) c cs parameters 0 (length (c ∷ cs)) out (c ∷ cs) [] parameters
        (plain_item c cs parameters h) (omega arith) room

  -- Where `putchar` takes every byte, `puts` prints its string and a line feed, and returns the
  -- number of both, if that is an `int`.
  pub puts_lem :
      (s out : List ℕ)
      → length s < int_max
      → puts accepts s out ≡ some (pos (length s + 1), (out ++ s) ++ b'\n' ∷ [])
  unfolding printf printf_from next_item directive string run literal
  puts_lem s out room =
      one_piece 3 b'%' (b's' ∷ b'\n' ∷ []) (text s ∷ []) 0 (length s) out s (b'\n' ∷ []) [] refl
        (omega arith) (omega arith)
      ∙ one_piece 2 b'\n' [] [] (length s) (length s + 1) (out ++ s) (b'\n' ∷ []) [] [] refl
          (omega arith) (omega arith)
