-- ===== src/Libc/Stdio/Buffer/Returns.antt =====
-- `vsnprintf` comes to an end where each directive finds an argument of its kind.
use olympos.Prelude.{
  ℕ, zero, suc, ◌≤◌, ◌<◌, Option, none, some, List, [], ◌∷◌, length, ◌==◌, ◌≡◌, refl, sym, ◌∙◌,
  arith, Bool-cases, inl, inr,
}
use olympos.Libc.Stdio.{Argument, Item, directive, literal}
use olympos.Libc.Stdio.Buffer.{
  Cursor, put_run, put_string, put_pieces, vsnprintf_round, vsnprintf_from,
}
use olympos.Libc.Stdio.Render.{
  behind_percent, always_signed, render_at, prepend, signed_text, prepend_cases, signed_text-nil,
  signed_text-plain, signed_text-percent, signed_text-twice,
}
use olympos.Libc.Stdio.Render.Directive.{joined, Stands, directive-Stands}
use olympos.Libc.Stdio.Render.Plain.{signed_text-literal}

-- A round came back, and what is left of the format still stands for a text.
record RoundReturns (n : ℕ) (result : Option (List ℕ × List Argument × Cursor)) : Type 0 where
  format : List ℕ
  args : List Argument
  cursor : Cursor
  text : List ℕ
  returns : result ≡ some (format, args, cursor)
  stands : signed_text format args ≡ some text
  shorter : length format ≤ n

module _ (buffer size : ℕ) where
  behind_run :
      (c : ℕ) (format : List ℕ) (args : List Argument) (cur : Cursor) (t : List ℕ)
      → prepend (c ∷ []) (signed_text format args) ≡ some t
      → RoundReturns
          (length format)
          (some ((literal format).1, args, put_run buffer size (c ∷ (literal format).0) cur))
  behind_run c format args cur t e =
      let l = signed_text-literal format args in
      let (rest, f, g) = prepend_cases (c ∷ []) (signed_text format args) t e in
      let (later, h, k) =
        prepend_cases (literal format).0 (signed_text (literal format).1 args) rest (sym l.0 ∙ f) in
      record {
        format = (literal format).1;
        args = args;
        cursor = put_run buffer size (c ∷ (literal format).0) cur;
        text = later;
        returns = refl;
        stands = h;
        shorter = l.1;
      }

  behind_directive :
      (d : ℕ) (format : List ℕ) (o : Option Item) (r : Option (List ℕ)) (cur : Cursor) (t : List ℕ)
      → Stands (length format) o r
      → r ≡ some t
      → RoundReturns (length format) (elim o [
        | none ↦ none
        | some item ↦ some (item.format, item.parameters, put_pieces buffer size d item.pieces cur)
      ])
  behind_directive d format none r cur t s e = absurd (cc (s, e))
  behind_directive d format (some item) r cur t s e =
      let (rest, f, g) =
        prepend_cases (joined item.pieces) (signed_text item.format item.parameters) t
          (sym s.0 ∙ e) in
      record {
        format = item.format;
        args = item.parameters;
        cursor = put_pieces buffer size d item.pieces cur;
        text = rest;
        returns = refl;
        stands = f;
        shorter = s.1;
      }

  ended : (args : List Argument) (cur : Cursor) → RoundReturns 0 (some ([], args, cur))
  ended args cur = record {
    format = [];
    args = args;
    cursor = cur;
    text = [];
    returns = refl;
    stands = signed_text-nil args;
    shorter = omega arith;
  }

  longer :
      (n k : ℕ) (o : Option (List ℕ × List Argument × Cursor))
      → n ≤ k
      → RoundReturns n o
      → RoundReturns k o
  longer n k o h r = record {
    format = r.format;
    args = r.args;
    cursor = r.cursor;
    text = r.text;
    returns = r.returns;
    stands = r.stands;
    shorter = omega (arith, h, r.shorter);
  }

  round_returns :
      (c : ℕ) (format : List ℕ) (args : List Argument) (cur : Cursor) (t : List ℕ)
      → signed_text (c ∷ format) args ≡ some t
      → RoundReturns (length format) (vsnprintf_round buffer size c format args cur)
  unfolding vsnprintf_round
  round_returns c [] args cur t e = elim (Bool-cases (c == b'%')) [
    | inl p ↦ rw p (ended args (put_string buffer size (c ∷ []) cur))
    | inr p ↦ rw p (ended args (put_run buffer size (c ∷ []) cur))
  ]
  round_returns c (d ∷ format) args cur t e = elim (Bool-cases (c == b'%')) [
    | inr p ↦
        rw p
          (behind_run c (d ∷ format) args cur t (sym (signed_text-plain c (d ∷ format) args p) ∙ e))
    | inl p ↦
        let q = signed_text-percent c (d ∷ format) args p in
        elim (Bool-cases (d == b'%')) [
          | inl f ↦
              rw (p, f)
                (longer (length format) (length (d ∷ format)) _ (omega arith) (
                  behind_run d format args cur t (sym (q ∙ signed_text-twice d format args f) ∙ e)))
          | inr f ↦
              rw (p, f)
                (longer (length format) (length (d ∷ format)) _ (omega arith) (
                  behind_directive d format (directive (d ∷ format) args)
                    (render_at always_signed behind_percent (d ∷ format) args) cur t
                    (directive-Stands d format args (ground arith)) (sym q ∙ e)))
        ]
  ]

  goes_on :
      (fuel c : ℕ) (format : List ℕ) (args : List Argument) (cur : Cursor)
      (result : List ℕ × List Argument × Cursor)
      → vsnprintf_round buffer size c format args cur ≡ some result
      → vsnprintf_from (suc fuel) buffer size (c ∷ format) args cur
        ≡ vsnprintf_from fuel buffer size result.0 result.1 result.2
  unfolding vsnprintf_from
  goes_on fuel c format args cur result e = ground arith

  -- With fuel above the length of the format the loop ends.
  pub vsnprintf_from_returns :
      (fuel : ℕ) (format : List ℕ) (args : List Argument) (cur : Cursor) (t : List ℕ)
      → length format < fuel
      → signed_text format args ≡ some t
      → (after : Cursor) × (vsnprintf_from fuel buffer size format args cur ≡ some after)
  vsnprintf_from_returns zero format args cur t h e = absurd (omega arith)
  vsnprintf_from_returns (suc fuel) [] args cur t h e = (cur, unfold vsnprintf_from in refl)
  vsnprintf_from_returns (suc fuel) (c ∷ format) args cur t h e =
      let r = round_returns c format args cur t e in
      let (after, g) =
        vsnprintf_from_returns fuel r.format r.args r.cursor r.text (omega (arith, r.shorter))
          r.stands in
      (after, goes_on fuel c format args cur _ r.returns ∙ g)
