-- ===== src/Shell/Editor.antt =====
-- The line that `input_line` leaves in its buffer.
use olympos.Prelude.{
  skips, ℕ, zero, ◌+◌, ◌-◌, ◌≤◌, ◌<◌, true, false, some, List, [], ◌∷◌, ◌++◌, length, leb, ltb,
  ◌==◌, if◌then◌else◌, u8, Memory, store, ◌≡◌, ◌≢◌, ◌⊎◌, inl, inr, refl, sym, ap, ◌∙◌, subst, arith,
  Bool-cases,
}
use mathlib.Core.List.{reverse, reverse_aux}
use olympos.Kheap.{Kheap, kmalloc}
use olympos.Libc.Strings.Text.{IsString}
use olympos.Terminal.{Terminal}
use olympos.Shell.{
  shell_rl_bufsize, Shell, Editing, edit_key, Line, entered, edit_keys, with_buffer, input_line,
}

-- The line editor, with the last character first: a backspace takes a character back, and a line of 1023
-- characters takes no more.
abbrev pub edited : List ℕ → ℕ → List ℕ
edited [] c = if c == 8 then [] else c ∷ []
edited (x ∷ typed) c =
    if c == 8 then typed else if leb 1023 (length (x ∷ typed)) then x ∷ typed else c ∷ x ∷ typed

abbrev pub typed_line : List ℕ → List ℕ → List ℕ
typed_line typed [] = typed
typed_line typed (c ∷ keys) = typed_line (edited typed c) keys

-- Keys that a keyboard gives, other than Enter.
abbrev pub AreTyped : List ℕ → Type 0
AreTyped [] = zero ≡ zero
AreTyped (c ∷ keys) = (0 < c) × (c < 256) × (c ≢ 10) × AreTyped keys

-- The characters typed stand in the buffer, the first one at its start.
abbrev Written : Memory → ℕ → List ℕ → Type 0
Written m buffer [] = zero ≡ zero
Written m buffer (x ∷ typed) =
    (m (buffer + length typed) ≡ x) × (0 < x) × (x < 256) × Written m buffer typed

Written-store :
    (m : Memory) (buffer a v : ℕ) (typed : List ℕ)
    → buffer + length typed ≤ a
    → Written m buffer typed
    → Written (store m a v) buffer typed
Written-store m buffer a v [] h w = refl
Written-store m buffer a v (x ∷ typed) h w =
    (ground (arith, w.0), w.1, w.2, Written-store m buffer a v typed (omega arith) w.3)

Written-IsString :
    (m : Memory) (buffer : ℕ) (typed rest : List ℕ)
    → Written m buffer typed
    → IsString m (buffer + length typed) rest
    → IsString m buffer (reverse_aux typed rest)
Written-IsString m buffer [] rest w s = subst (λ p. IsString m p rest) (omega arith) s
Written-IsString m buffer (x ∷ typed) rest w s =
    Written-IsString m buffer typed (x ∷ rest) w.3
      (w.0, w.1, w.2, subst (λ p. IsString m p rest) (omega arith) s)

-- The state of the loop for the text typed so far, and what it has left alone.
record Edits (m : Memory) (buffer : ℕ) (typed : List ℕ) (e : Editing) : Type 0 where
  position : e.position ≡ length typed
  short : length typed ≤ 1023
  written : Written e.memory buffer typed
  outside : (a : ℕ) → (a < buffer) ⊎ (buffer + 1024 ≤ a) → e.memory a ≡ m a

appended :
    (m : Memory) (buffer c : ℕ) (typed : List ℕ) (e : Editing) (terminal : Terminal)
    → 0 < c
    → c < 256
    → length typed < 1023
    → Edits m buffer typed e
    → Edits m buffer (c ∷ typed) (record {
      position = e.position + 1;
      memory = store e.memory (buffer + e.position) (u8 c);
      terminal = terminal;
    })
appended m buffer c typed e terminal pos byte room v =
    let p = v.position in
    record {
      position = omega (arith, p);
      short = omega arith;
      written = (
        own,
        pos,
        byte,
        Written-store e.memory buffer (buffer + e.position) (u8 c) typed (omega (arith, p))
            v.written,
      );
      outside = λ a h. elsewhere a (ground (arith, p, h)) ∙ v.outside a h;
    }
  where
    own : store e.memory (buffer + e.position) (u8 c) (buffer + length typed) ≡ c
    own = ground (arith, v.position)

    elsewhere :
        (a : ℕ)
        → buffer + e.position ≢ a
        → store e.memory (buffer + e.position) (u8 c) a ≡ e.memory a
    elsewhere a ne = ground arith

erased :
    (m : Memory) (buffer x : ℕ) (typed : List ℕ) (e : Editing) (terminal : Terminal)
    → Edits m buffer (x ∷ typed) e
    → Edits m buffer typed (record {
      position = e.position - 1;
      memory = store e.memory (buffer + (e.position - 1)) 0;
      terminal = terminal;
    })
erased m buffer x typed e terminal v =
    let p = v.position in
    let s = v.short in
    record {
      position = omega (arith, p);
      short = omega (arith, s);
      written =
          Written-store e.memory buffer (buffer + (e.position - 1)) 0 typed (omega (arith, p))
            v.written.3;
      outside = λ a h. elsewhere a (ground (arith, p, s, h)) ∙ v.outside a h;
    }
  where
    elsewhere :
        (a : ℕ)
        → buffer + (e.position - 1) ≢ a
        → store e.memory (buffer + (e.position - 1)) 0 a ≡ e.memory a
    elsewhere a ne = ground arith

edit_key-Edits :
    (m : Memory) (buffer c : ℕ) (typed : List ℕ) (e : Editing)
    → 0 < c
    → c < 256
    → Edits m buffer typed e
    → Edits m buffer (edited typed c) (edit_key buffer c e)
unfolding edit_key
edit_key-Edits m buffer c [] e pos byte v =
    let p = v.position in
    elim (Bool-cases (c == 8)) [
      | inl b ↦ let z : ltb 0 e.position ≡ false = ground (arith, p) in rw (b, z) v
      | inr b ↦
          let z : leb (shell_rl_bufsize - 1) e.position ≡ false = ground (arith, p) in
          rw (b, z) (appended m buffer c [] e _ pos byte (omega arith) v)
    ]
edit_key-Edits m buffer c (x ∷ typed) e pos byte v =
    let p = v.position in
    elim (Bool-cases (c == 8)) [
      | inl b ↦
          let z : ltb 0 e.position ≡ true = ground (arith, p) in
          rw (b, z) (erased m buffer x typed e _ v)
      | inr b ↦ elim (Bool-cases (leb 1023 (length (x ∷ typed)))) [
        | inl f ↦
            let z : leb (shell_rl_bufsize - 1) e.position ≡ true = ground (arith, p) in
            rw (b, f, z) v
        | inr f ↦
            let z : leb (shell_rl_bufsize - 1) e.position ≡ false = ground (arith, p) in
            rw (b, f, z) (appended m buffer c (x ∷ typed) e _ pos byte (ground arith) v)
      ]
    ]

enters_key :
    (buffer last c : ℕ) (kheap : Kheap) (e : Editing) (keys : List ℕ)
    → c ≢ 10
    → edit_keys buffer kheap last e (c ∷ keys)
      ≡ edit_keys buffer kheap last (edit_key buffer c e) keys
unfolding edit_keys
enters_key buffer last c kheap e keys h = skips (c == b'\n') _ _ (ground arith)

-- A line that was entered: a string in the buffer, and nothing else changed in the memory of strings.
pub record Entered (m : Memory) (kheap : Kheap) (buffer : ℕ) (keys line : List ℕ) (result : Line)
    : Type 0 where
  pub after : Shell
  pub returns : result ≡ entered buffer after
  pub text : IsString after.tokens.memory buffer line
  pub short : length line ≤ 1023
  pub outside : (a : ℕ) → (a < buffer) ⊎ (buffer + 1024 ≤ a) → after.tokens.memory a ≡ m a
  pub left : after.keys ≡ keys
  pub heap : after.kheap ≡ kheap

length-reverse_aux : (xs ys : List ℕ) → length (reverse_aux xs ys) ≡ length xs + length ys
length-reverse_aux [] ys = omega arith
length-reverse_aux (x ∷ xs) ys = omega (arith, length-reverse_aux xs (x ∷ ys))

edit_keys-Entered :
    (m : Memory) (buffer last : ℕ) (kheap : Kheap) (keys rest typed : List ℕ) (e : Editing)
    → AreTyped keys
    → Edits m buffer typed e
    → Entered m kheap buffer rest
        (reverse (typed_line typed keys))
        (edit_keys buffer kheap last e (keys ++ 10 ∷ rest))
unfolding edit_keys
edit_keys-Entered m buffer last kheap [] rest typed e k v =
    let p = v.position in
    record {
      after = _;
      returns = refl;
      text =
          Written-IsString (store e.memory (buffer + e.position) 0) buffer typed []
            (Written-store e.memory buffer (buffer + e.position) 0 typed (omega (arith, p))
              v.written)
            own;
      short = omega (arith, length-reverse_aux typed [], v.short);
      outside = λ a h. elsewhere a (ground (arith, p, v.short, h)) ∙ v.outside a h;
      left = refl;
      heap = refl;
    }
  where
    own : store e.memory (buffer + e.position) 0 (buffer + length typed) ≡ 0
    own = ground (arith, v.position)

    elsewhere :
        (a : ℕ) → buffer + e.position ≢ a → store e.memory (buffer + e.position) 0 a ≡ e.memory a
    elsewhere a ne = ground arith
edit_keys-Entered m buffer last kheap (c ∷ keys) rest typed e k v =
    subst (Entered m kheap buffer rest (reverse (typed_line (edited typed c) keys)))
      (sym (enters_key buffer last c kheap e (keys ++ 10 ∷ rest) k.2))
      (edit_keys-Entered m buffer last kheap keys rest (edited typed c) (edit_key buffer c e) k.3
        (edit_key-Edits m buffer c typed e k.0 k.1 v))

got_buffer :
    (s : Shell) (buffer : ℕ) (kheap : Kheap)
    → buffer ≢ 0
    → with_buffer s (some (buffer, kheap))
      ≡ edit_keys buffer kheap s.tokens.last
          (record { position = 0; memory = s.tokens.memory; terminal = s.terminal })
          s.keys
got_buffer s buffer kheap nz = let z : (buffer == 0) ≡ false = ground arith in rw z refl

-- Once the heap has given the buffer, a line of any number of keys up to Enter ends with the line that the editor makes of them,
-- as a string of at most 1023 characters in the buffer: backspaces take characters back and a full line takes no
-- more. No byte outside the 1024 of the buffer changes, and the keys behind Enter are left.
pub input_line-Entered :
    (s : Shell) (buffer : ℕ) (kheap : Kheap) (keys rest : List ℕ)
    → kmalloc shell_rl_bufsize s.kheap ≡ some (buffer, kheap)
    → buffer ≢ 0
    → AreTyped keys
    → s.keys ≡ keys ++ 10 ∷ rest
    → Entered s.tokens.memory kheap buffer rest (reverse (typed_line [] keys)) (input_line s)
unfolding input_line
input_line-Entered s buffer kheap keys rest got nz k e =
    let fresh : Editing = record {
      position = 0;
      memory = s.tokens.memory;
      terminal = s.terminal;
    } in
    subst (Entered s.tokens.memory kheap buffer rest (reverse (typed_line [] keys)))
      (sym (
        ap (with_buffer s) got
        ∙ got_buffer s buffer kheap nz
        ∙ ap (edit_keys buffer kheap s.tokens.last fresh) e))
      (edit_keys-Entered s.tokens.memory buffer s.tokens.last kheap keys rest [] fresh k
        (record { position = refl; short = omega arith; written = refl; outside = λ a h. refl }))
