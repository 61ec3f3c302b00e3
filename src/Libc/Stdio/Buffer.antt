-- ===== src/Libc/Stdio/Buffer.antt =====
-- libc/stdio/vsnprintf.c and snprintf.c: the directives of `printf` into a buffer of `size` bytes.
pub mod Loop
pub mod Returns
use olympos.Prelude.{
  ℕ, zero, suc, ◌+◌, ◌-◌, ◌*◌, ◌^◌, ◌≤◌, ◌<◌, min, Bool, true, false, not, ◌&&◌, ◌||◌, Option, none,
  some, List, [], ◌∷◌, length, get_or, ltb, leb, ◌==◌, if◌then◌else◌, u8, u32, Memory, store, ℤ,
  pos, negsuc, ◌≡◌, ◌≢◌, refl, sym, ap, ◌∙◌, subst, arith, Bool-cases, Option-cases, inl, inr,
}
use olympos.Libc.Stdio.{Argument, Item, directive, literal}

-- `buffer_pos`, `virtual_len` and memory.
pub record Cursor : Type 0 where
  pub buffer_pos : ℕ
  pub virtual_len : ℕ
  pub memory : Memory

-- One character, where the buffer has room for it and the terminator.
unfoldable pub put_char : ℕ → ℕ → ℕ → Cursor → Cursor
put_char buffer size c cur =
    let counted = record cur { virtual_len = cur.virtual_len + 1 } in
    if ltb (u32 (cur.buffer_pos + 1)) size
    then record counted {
      memory = store cur.memory (buffer + cur.buffer_pos) c;
      buffer_pos = cur.buffer_pos + 1;
    }
    else counted

-- The loop over a run of ordinary characters.
pub put_run : ℕ → ℕ → List ℕ → Cursor → Cursor
put_run buffer size [] cur = cur
put_run buffer size (c ∷ cs) cur = put_run buffer size cs (put_char buffer size c cur)

-- `memcpy` of the first `n` characters to the address `a`.
pub copy_chars : ℕ → List ℕ → ℕ → Memory → Memory
copy_chars zero cs a m = m
copy_chars (suc n) [] a m = m
copy_chars (suc n) (c ∷ cs) a m = copy_chars n cs (a + 1) (store m a c)

-- The copy of a converted string: as much as fits before the terminator.
unfoldable pub put_string : ℕ → ℕ → List ℕ → Cursor → Cursor
put_string buffer size num_str cur =
    let len = length num_str in
    let copy_len =
      if ltb (u32 (cur.buffer_pos + len)) size
      then len
      else u32 (size + 2 ^ 32 - cur.buffer_pos + 2 ^ 32 - 1) in
    record {
      virtual_len = cur.virtual_len + len;
      memory = copy_chars copy_len num_str (buffer + cur.buffer_pos) cur.memory;
      buffer_pos = cur.buffer_pos + copy_len;
    }

-- `%p`: the prefix by characters, then the digits.
unfoldable pub put_pointer : ℕ → ℕ → List ℕ → Cursor → Cursor
put_pointer buffer size ptr_str cur =
    let num_len = length ptr_str in
    let counted = record cur { virtual_len = cur.virtual_len + (2 + num_len) } in
    if ltb (u32 (cur.buffer_pos + 1)) size
    then (let remaining = size - cur.buffer_pos - 1 in
        let second = leb 2 remaining in
        let start = if second then cur.buffer_pos + 2 else cur.buffer_pos + 1 in
        let left = if second then remaining - 2 else remaining - 1 in
        let zero_put = store cur.memory (buffer + cur.buffer_pos) b'0' in
        let prefixed =
          if second then store zero_put (buffer + cur.buffer_pos + 1) b'x' else zero_put in
        let copy_len = if ltb left num_len then left else num_len in
        record counted {
          memory = copy_chars copy_len ptr_str (buffer + start) prefixed;
          buffer_pos = start + copy_len;
        })
    else counted

-- What a directive `c` does with the pieces that `printf` would print for it.
pub put_pieces : ℕ → ℕ → ℕ → List (List ℕ) → Cursor → Cursor
put_pieces buffer size c [] cur = cur
put_pieces buffer size c (piece ∷ []) cur =
    if c == b'c' then put_run buffer size piece cur else put_string buffer size piece cur
put_pieces buffer size c (prefix ∷ ptr_str ∷ more) cur = put_pointer buffer size ptr_str cur

-- One round at the character `c`: the format, the arguments and the cursor behind it.
pub vsnprintf_round :
    ℕ → ℕ → ℕ → List ℕ → List Argument → Cursor → Option (List ℕ × List Argument × Cursor)
vsnprintf_round buffer size c [] args cur =
    if not (c == b'%')
    then some ([], args, put_run buffer size (c ∷ []) cur)
    else some ([], args, put_string buffer size (c ∷ []) cur)
vsnprintf_round buffer size c (d ∷ format) args cur =
    if not (c == b'%')
    then some
        ((literal (d ∷ format)).1, args, put_run buffer size (c ∷ (literal (d ∷ format)).0) cur)
    else if d == b'%'
    then some ((literal format).1, args, put_run buffer size (d ∷ (literal format).0) cur)
    else elim (directive (d ∷ format) args) [
      | none ↦ none
      | some item ↦ some (item.format, item.parameters, put_pieces buffer size d item.pieces cur)
    ]

-- The loop; fuel above the length of the format is enough.
pub vsnprintf_from : ℕ → ℕ → ℕ → List ℕ → List Argument → Cursor → Option Cursor
vsnprintf_from zero buffer size format args cur = none
vsnprintf_from (suc fuel) buffer size [] args cur = some cur
vsnprintf_from (suc fuel) buffer size (c ∷ format) args cur =
    elim (vsnprintf_round buffer size c format args cur) [
      | none ↦ none
      | some (format', args', cur') ↦ vsnprintf_from fuel buffer size format' args' cur'
    ]

-- A null `format` is not modelled: a format here is a list.
pub vsnprintf : ℕ → ℕ → List ℕ → List Argument → Memory → Option (ℤ × Memory)
vsnprintf buffer size format args m =
    if size == 0
    then some (pos 0, m)
    else if buffer == 0
    then some (negsuc 0, m)
    else elim (vsnprintf_from (suc (length format)) buffer size format args
        (record { buffer_pos = 0; virtual_len = 0; memory = m })) [
          | none ↦ none
          | some cur ↦ some (pos cur.virtual_len, store cur.memory (buffer + cur.buffer_pos) 0)
        ]

abbrev pub snprintf : ℕ → ℕ → List ℕ → List Argument → Memory → Option (ℤ × Memory)
snprintf buffer size format args m = vsnprintf buffer size format args m

copy_chars-outside :
    (n : ℕ) (cs : List ℕ) (a : ℕ) (m : Memory) (k : ℕ)
    → (if leb a k && ltb k (a + n) then true else false) ≡ false
    → copy_chars n cs a m k ≡ m k
unfolding copy_chars
copy_chars-outside zero cs a m k h = refl
copy_chars-outside (suc n) [] a m k h = refl
copy_chars-outside (suc n) (c ∷ cs) a m k h =
    copy_chars-outside n cs (a + 1) (store m a c) k (ground arith) ∙ ground arith

-- The cursor leaves room for the terminator, and nothing outside the buffer is written.
pub record Inside (buffer size : ℕ) (m : Memory) (cur : Cursor) : Type 0 where
  pub room : cur.buffer_pos < size
  pub outside : (k : ℕ) → (leb buffer k && ltb k (buffer + size)) ≡ false → cur.memory k ≡ m k

module _ (buffer size : ℕ) (small : size < 2 ^ 32) (m : Memory) where
  put_char-Inside :
      (c : ℕ) (cur : Cursor)
      → Inside buffer size m cur
      → Inside buffer size m (put_char buffer size c cur)
  unfolding put_char
  put_char-Inside c cur v = elim (Bool-cases (ltb (u32 (cur.buffer_pos + 1)) size)) [
    | inl e ↦ rw e (record {
      room = ground (arith, e, v.room);
      outside = λ k h. ground (arith, v.room, v.outside k h);
    })
    | inr e ↦ rw e (record { room = v.room; outside = v.outside })
  ]

  pub put_run-Inside :
      (cs : List ℕ) (cur : Cursor)
      → Inside buffer size m cur
      → Inside buffer size m (put_run buffer size cs cur)
  unfolding put_run
  put_run-Inside [] cur v = v
  put_run-Inside (c ∷ cs) cur v =
      put_run-Inside cs (put_char buffer size c cur) (put_char-Inside c cur v)

  pub put_string-Inside :
      (cs : List ℕ) (cur : Cursor)
      → length cs + size < 2 ^ 32
      → Inside buffer size m cur
      → Inside buffer size m (put_string buffer size cs cur)
  unfolding put_string
  put_string-Inside cs cur short v =
      elim (Bool-cases (ltb (u32 (cur.buffer_pos + length cs)) size)) [
        | inl e ↦ rw e (record {
          room = ground (arith, e, v.room);
          outside = λ k h.
              copy_chars-outside (length cs) cs (buffer + cur.buffer_pos) cur.memory k
                (ground (arith, v.room))
              ∙ v.outside k h;
        })
        | inr e ↦ rw e (record {
          room = ground (arith, e, v.room);
          outside = λ k h.
              copy_chars-outside _ cs (buffer + cur.buffer_pos) cur.memory k
                (ground (arith, v.room))
              ∙ v.outside k h;
        })
      ]

  put_pointer-Inside :
      (cs : List ℕ) (cur : Cursor)
      → Inside buffer size m cur
      → Inside buffer size m (put_pointer buffer size cs cur)
  unfolding put_pointer
  put_pointer-Inside cs cur v = elim (Bool-cases (ltb (u32 (cur.buffer_pos + 1)) size)) [
    | inr e ↦ rw e (record { room = v.room; outside = v.outside })
    | inl e ↦ elim (Bool-cases (leb 2 (size - cur.buffer_pos - 1))) [
      | inl f ↦
          rw (e, f)
            (record {
              room = ground (arith, e, f, v.room);
              outside = λ k h.
                  copy_chars-outside _ cs (buffer + (cur.buffer_pos + 2)) _ k
                    (ground (arith, f, v.room))
                  ∙ ground (arith, f, v.room, v.outside k h);
            })
      | inr f ↦
          rw (e, f)
            (record {
              room = ground (arith, e, f, v.room);
              outside = λ k h.
                  copy_chars-outside _ cs (buffer + (cur.buffer_pos + 1)) _ k
                    (ground (arith, f, v.room))
                  ∙ ground (arith, f, v.room, v.outside k h);
            })
    ]
  ]

-- Each piece, and the buffer behind it, fits the 32 bits of a length.
abbrev pub Short : ℕ → List (List ℕ) → Type 0
Short size [] = size < 2 ^ 32
Short size (piece ∷ pieces) = (length piece + size < 2 ^ 32) × Short size pieces

-- What a directive puts into a buffer of `size` bytes stays inside it, and leaves room for the
-- terminator, for pieces whose lengths do not wrap.
pub put_pieces-Inside :
    (buffer size c : ℕ) (pieces : List (List ℕ)) (m : Memory) (cur : Cursor)
    → Short size pieces
    → Inside buffer size m cur
    → Inside buffer size m (put_pieces buffer size c pieces cur)
unfolding put_pieces
put_pieces-Inside buffer size c [] m cur short v = v
put_pieces-Inside buffer size c (piece ∷ []) m cur short v = elim (Bool-cases (c == b'c')) [
  | inl e ↦ rw e (put_run-Inside buffer size short.1 m piece cur v)
  | inr e ↦ rw e (put_string-Inside buffer size short.1 m piece cur short.0 v)
]
put_pieces-Inside buffer size c (prefix ∷ ptr_str ∷ more) m cur short v =
    put_pointer-Inside buffer size (omega (arith, short.1.0)) m ptr_str cur v
