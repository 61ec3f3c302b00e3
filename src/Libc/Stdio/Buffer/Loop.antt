-- ===== src/Libc/Stdio/Buffer/Loop.antt =====
-- `vsnprintf` as a whole writes only to its buffer.
use olympos.Prelude.{
  ℕ, zero, suc, ◌+◌, ◌^◌, ◌<◌, Bool, true, false, not, ◌&&◌, Option, none, some, List, [], ◌∷◌,
  length, ltb, leb, ◌==◌, if◌then◌else◌, Memory, ℤ, ◌≡◌, refl, sym, subst, arith, Bool-cases,
  Option-cases, inl, inr,
}
use olympos.Libc.Stdio.{Argument, Item}
use olympos.Libc.Stdio.Bounds.{ShortArguments, ShortItem, directive-ShortItem, length-literal}
use olympos.Libc.Stdio.Buffer.Returns.{vsnprintf_from_returns}
use olympos.Libc.Stdio.Render.Typed.{fits, fits-Renders}
use olympos.Libc.Stdio.Buffer.{
  Cursor, put_run, put_pieces, vsnprintf_round, vsnprintf_from, vsnprintf, Inside,
  put_pieces-Inside, put_run-Inside, put_string-Inside,
}

module _ (buffer size : ℕ) (small : size + 34 < 2 ^ 32) (m : Memory) where
  abbrev RoundInside : Option (List ℕ × List Argument × Cursor) → Type 0
  RoundInside none = size ≡ size
  RoundInside (some (format, args, cur)) =
      (length format + size < 2 ^ 32) × ShortArguments size args × Inside buffer size m cur

  choose :
      (b : Bool) (x y : Option (List ℕ × List Argument × Cursor))
      → RoundInside x
      → RoundInside y
      → RoundInside (if b then x else y)
  choose true x y p q = p
  choose false x y p q = q

  run-Inside :
      (cs : List ℕ) (cur : Cursor)
      → Inside buffer size m cur
      → Inside buffer size m (put_run buffer size cs cur)
  run-Inside cs cur v = put_run-Inside buffer size (omega arith) m cs cur v

  directive-Inside :
      (d : ℕ) (o : Option Item) (cur : Cursor)
      → ShortItem size o
      → Inside buffer size m cur
      → RoundInside (elim o [
        | none ↦ none
        | some item ↦ some (item.format, item.parameters, put_pieces buffer size d item.pieces cur)
      ])
  directive-Inside d none cur short v = refl
  directive-Inside d (some item) cur short v =
      (short.1, short.2, put_pieces-Inside buffer size d item.pieces m cur short.0 v)

  round-Inside :
      (c : ℕ) (format : List ℕ) (args : List Argument) (cur : Cursor)
      → length (c ∷ format) + size < 2 ^ 32
      → ShortArguments size args
      → Inside buffer size m cur
      → RoundInside (vsnprintf_round buffer size c format args cur)
  unfolding vsnprintf_round
  round-Inside c [] args cur h a v =
      choose (not (c == b'%')) _ _ (omega arith, a, run-Inside (c ∷ []) cur v)
        (omega arith, a, put_string-Inside buffer size (omega arith) m (c ∷ []) cur (omega arith) v)
  round-Inside c (d ∷ format) args cur h a v =
      choose (not (c == b'%')) _ _
        (omega (arith, length-literal (d ∷ format)), a, run-Inside _ cur v)
        (choose (d == b'%') _ _ (omega (arith, length-literal format), a, run-Inside _ cur v)
          (directive-Inside d _ cur
            (directive-ShortItem size small (d ∷ format) args (omega arith) a) v))

  abbrev LoopInside : Option Cursor → Type 0
  LoopInside none = size ≡ size
  LoopInside (some cur) = Inside buffer size m cur

  module _ (fuel c : ℕ) (format : List ℕ) (args : List Argument) (cur : Cursor) where
    loop_fails :
        vsnprintf_round buffer size c format args cur ≡ none
        → vsnprintf_from (suc fuel) buffer size (c ∷ format) args cur ≡ none
    unfolding vsnprintf_from
    loop_fails e = ground arith

    loop_goes_on :
        (format' : List ℕ) (args' : List Argument) (cur' : Cursor)
        → vsnprintf_round buffer size c format args cur ≡ some (format', args', cur')
        → vsnprintf_from (suc fuel) buffer size (c ∷ format) args cur
          ≡ vsnprintf_from fuel buffer size format' args' cur'
    unfolding vsnprintf_from
    loop_goes_on format' args' cur' e = ground arith

  loop-Inside :
      (fuel : ℕ) (format : List ℕ) (args : List Argument) (cur : Cursor)
      → length format + size < 2 ^ 32
      → ShortArguments size args
      → Inside buffer size m cur
      → LoopInside (vsnprintf_from fuel buffer size format args cur)
  loop-Inside zero format args cur h a v = unfold vsnprintf_from in refl
  loop-Inside (suc fuel) [] args cur h a v = unfold vsnprintf_from in v
  loop-Inside (suc fuel) (c ∷ format) args cur h a v =
      elim (Option-cases (vsnprintf_round buffer size c format args cur)) [
        | inl e ↦ subst LoopInside (sym (loop_fails fuel c format args cur e)) refl
        | inr ((format', args', cur'), e) ↦
            let r : RoundInside (some (format', args', cur')) =
              rw e at (round-Inside c format args cur h a v) in
            subst LoopInside (sym (loop_goes_on fuel c format args cur format' args' cur' e))
              (loop-Inside fuel format' args' cur' r.0 r.1 r.2)
      ]

-- A call that came back, with no byte outside the `size` bytes at `buffer` other than in `m`.
pub record Untouched (buffer size : ℕ) (m : Memory) (result : Option (ℤ × Memory)) : Type 0 where
  pub length : ℤ
  pub after : Memory
  pub returns : result ≡ some (length, after)
  pub outside : (k : ℕ) → (leb buffer k && ltb k (buffer + size)) ≡ false → after k ≡ m k

-- Where each directive of the format finds an argument of its kind, `vsnprintf` comes to an end and has
-- written nothing outside its buffer, the terminator included, as long as no length wraps: the format
-- and each string argument fit the 32 bits beside the buffer.
pub vsnprintf-Untouched :
    (buffer size : ℕ) (format : List ℕ) (args : List Argument) (m : Memory)
    → size + 34 < 2 ^ 32
    → length format + size < 2 ^ 32
    → ShortArguments size args
    → fits format args ≡ true
    → Untouched buffer size m (vsnprintf buffer size format args m)
unfolding vsnprintf
vsnprintf-Untouched buffer size format args m small h a kinds = elim (Bool-cases (size == 0)) [
  | inl e ↦ rw e (record { length = _; after = _; returns = refl; outside = λ k p. refl })
  | inr e ↦ elim (Bool-cases (buffer == 0)) [
    | inl f ↦ rw (e, f) (record { length = _; after = _; returns = refl; outside = λ k p. refl })
    | inr f ↦
        let start : Cursor = record { buffer_pos = 0; virtual_len = 0; memory = m } in
        let v : Inside buffer size m start = record {
          room = ground arith;
          outside = λ k p. refl;
        } in
        let r = loop-Inside buffer size small m (suc (length format)) format args start h a v in
        let (t, stands) = fits-Renders format args kinds in
        let (cur, g) =
          vsnprintf_from_returns buffer size (suc (length format)) format args start t (omega arith)
            stands in
        let w : Inside buffer size m cur = rw g at r in
        rw (e, f, g)
          (record {
            length = _;
            after = _;
            returns = refl;
            outside = λ k p. ground (arith, w.room, w.outside k p);
          })
  ]
]
